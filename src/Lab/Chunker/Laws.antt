-- ===== src/Lab/Chunker/Laws.antt =====
-- What `Split` emits: the input, cut into chunks within the bounds.
use mathlib.Core.List.{flatten, append_assoc}
use edge_delta_lab.Prelude.{
  ℕ, ◌≤◌, ◌<◌, ◌≡◌, refl, ◌∙◌, true, false, List, [], ◌∷◌, ◌++◌, arith, length, length-append,
  Bool-cases, inl, inr, ok,
}
use edge_delta_lab.Prelude.Int.{ℤ, pos_part}
use edge_delta_lab.Lab.Verify.{valid_parameters}
use edge_delta_lab.Lab.Chunker.{roll, flush, is_boundary, split_loop, split}

-- Every chunk but the last is at least `min` long, and none is empty or longer than `max`.
abbrev pub IsSplit : ℕ → ℕ → List (List ℕ) → Type 0
IsSplit min max [] = Unit
IsSplit min max (c ∷ []) = (0 < length c) × (length c ≤ max)
IsSplit min max (c ∷ d ∷ cs) = (min ≤ length c) × (length c ≤ max) × IsSplit min max (d ∷ cs)

module _ (gear : ℕ → ℕ) (min avg max : ℕ) where
  flatten-split_loop :
      (buf : List ℕ) (rolling : ℕ) (bytes : List ℕ)
      → flatten (split_loop gear min avg max buf rolling bytes) ≡ buf ++ bytes
  unfolding split_loop flush flatten
  flatten-split_loop [] rolling [] = refl
  flatten-split_loop (x ∷ buf) rolling [] = refl
  flatten-split_loop buf rolling (b ∷ bytes) =
      elim (Bool-cases (is_boundary min avg max (length (buf ++ b ∷ [])) (roll gear rolling b))) [
        | inl cut ↦ rw cut (rw (flatten-split_loop [] 0 bytes) (append_assoc buf (b ∷ []) bytes))
        | inr more ↦ rw more (
            flatten-split_loop (buf ++ b ∷ []) (roll gear rolling b) bytes
            ∙ append_assoc buf (b ∷ []) bytes)
      ]

  IsSplit-cons :
      (c : List ℕ) (cs : List (List ℕ))
      → 0 < min
      → min ≤ length c
      → length c ≤ max
      → IsSplit min max cs
      → IsSplit min max (c ∷ cs)
  IsSplit-cons c [] p h k s = (omega arith, k)
  IsSplit-cons c (d ∷ cs) p h k s = (h, k, s)

  boundary_bounds :
      (len rolling : ℕ)
      → 0 < min
      → min ≤ max
      → len ≤ max
      → is_boundary min avg max len rolling ≡ true
      → min ≤ len
  unfolding is_boundary
  boundary_bounds len rolling p le h t = ground arith

  no_boundary_lt : (len rolling : ℕ) → is_boundary min avg max len rolling ≡ false → len < max
  unfolding is_boundary
  no_boundary_lt len rolling t = ground arith

  split_loop-IsSplit :
      (buf : List ℕ) (rolling : ℕ) (bytes : List ℕ)
      → 0 < min
      → min ≤ max
      → length buf < max
      → IsSplit min max (split_loop gear min avg max buf rolling bytes)
  unfolding split_loop flush
  split_loop-IsSplit [] rolling [] p le h = tt
  split_loop-IsSplit (x ∷ buf) rolling [] p le h = (omega arith, omega arith)
  split_loop-IsSplit buf rolling (b ∷ bytes) p le h =
      let len = length-append buf (b ∷ []) in
      elim (Bool-cases (is_boundary min avg max (length (buf ++ b ∷ [])) (roll gear rolling b))) [
        | inl cut ↦ rw cut (
            IsSplit-cons (buf ++ b ∷ []) _ p (boundary_bounds _ _ p le (omega (arith, len)) cut)
              (omega (arith, len)) (split_loop-IsSplit [] 0 bytes p le (omega arith)))
        | inr more ↦ rw more (
            split_loop-IsSplit (buf ++ b ∷ []) (roll gear rolling b) bytes p le
              (no_boundary_lt _ _ more))
      ]

parameter_bounds :
    (min avg max : ℤ)
    → valid_parameters min avg max ≡ true
    → (64 ≤ pos_part min) × (pos_part min ≤ pos_part max)
unfolding valid_parameters
parameter_bounds min avg max h = ground arith

-- What `Split` emits on valid parameters is the input, in order and without a gap; no chunk is empty
-- or longer than `max`, and all but the last are at least `min` long.
pub split_lem :
    (gear : ℕ → ℕ) (min avg max : ℤ) (bytes : List ℕ)
    → valid_parameters min avg max ≡ true
    → (cs : List (List ℕ)) × (split gear min avg max bytes ≡ ok cs)
      × (flatten cs ≡ bytes)
      × IsSplit (pos_part min) (pos_part max) cs
unfolding split
split_lem gear min avg max bytes h =
    let b = parameter_bounds min avg max h in
    (
      split_loop gear (pos_part min) (pos_part avg) (pos_part max) [] 0 bytes,
      rw h refl,
      flatten-split_loop gear (pos_part min) (pos_part avg) (pos_part max) [] 0 bytes,
      split_loop-IsSplit gear (pos_part min) (pos_part avg) (pos_part max) [] 0 bytes (omega arith)
          (omega arith) (omega arith),
    )
