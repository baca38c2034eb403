-- ===== src/Prelude/Dict.antt =====
-- Go maps with text keys, as association lists. The program never depends on their order.
use mathlib.Core.Path.{◌≡◌, refl}
use mathlib.Core.Logic.{inl, inr}
use mathlib.Core.Option.{Option, none, some}
use mathlib.Core.List.{List, [], ◌∷◌}
use Prim.Native.Nat.{ℕ, ◌+◌}
use Prim.Native.String.{String}
use native.Mathlib.Omega.{arith}
use text.Mathlib.Text.{◌==◌ as str_eq}
use text.Mathlib.TextEquality.{eq_iff}
use edge_delta_lab.Prelude.Tests.{if◌then◌else◌, Bool-cases}

abbrev pub Dict {ℓ} : Type ℓ → Type ℓ
Dict V = List (String × V)

module _ {ℓ} {V : Type ℓ} where
  -- `v, ok := m[k]`
  unfoldable pub lookup : String → Dict V → Option V
  lookup key [] = none
  lookup key ((first, value) ∷ rest) = if str_eq first key then some value else lookup key rest

  -- `delete(m, k)`
  unfoldable pub remove : String → Dict V → Dict V
  remove k [] = []
  remove k ((j, v) ∷ m) = let rest = remove k m in if str_eq j k then rest else (j, v) ∷ rest

  -- `m[k] = v`
  unfoldable pub insert : String → V → Dict V → Dict V
  insert key new [] = (key, new) ∷ []
  insert key new ((first, value) ∷ rest) =
      if str_eq first key then (key, new) ∷ rest else (first, value) ∷ insert key new rest

  pub lookup-insert :
      (key other : String) (new : V) (m : Dict V)
      → lookup other (insert key new m) ≡ (if str_eq key other then some new else lookup other m)
  unfolding lookup insert
  lookup-insert key other new [] = refl
  lookup-insert key other new ((first, value) ∷ rest) = ground (
    arith,
    lookup-insert key other new rest,
    eq_iff first key,
    eq_iff first other,
    eq_iff key other,
  )

  pub lookup-remove :
      (k j : String) (m : Dict V)
      → lookup j (remove k m) ≡ (if str_eq k j then none else lookup j m)
  unfolding lookup remove
  lookup-remove k j [] = ground arith
  lookup-remove k j ((i, v) ∷ m) =
      ground (arith, lookup-remove k j m, eq_iff i k, eq_iff i j, eq_iff k j)

pub ruleset dict_laws = (lookup-insert, lookup-remove)

-- A counter of a map that may not have it
unfoldable pub count_of : Option ℕ → ℕ
count_of none = 0
count_of (some n) = n

-- The sum of the counters of a map.
unfoldable pub total : Dict ℕ → ℕ
total [] = 0
total ((k, n) ∷ m) = n + total m

pub total-insert :
    (k : String) (v : ℕ) (m : Dict ℕ) → total (insert k v m) + count_of (lookup k m) ≡ v + total m
unfolding total insert lookup count_of
total-insert k v [] = omega arith
total-insert k v ((j, n) ∷ m) = elim (Bool-cases (str_eq j k)) [
  | inl e ↦ rw e (omega arith)
  | inr e ↦ rw e (omega (arith, total-insert k v m))
]
