-- ===== src/Prelude/Lists.antt =====
-- Lists measured and indexed by native numbers, under the library's names.
use Prim.Native.Nat.{ℕ, zero, suc, ◌+◌, ◌-◌, ◌≤◌}
use mathlib.Core.Path.{◌≡◌, refl, ap}
use mathlib.Core.List.{List, [], ◌∷◌, ◌++◌}
use mathlib.Core.Option.{Option, none, some}
use native.Mathlib.Omega.{arith}

module _ {ℓ} {A : Type ℓ} where
  abbrev pub length : List A → ℕ
  length [] = 0
  length (x ∷ xs) = suc (length xs)

  abbrev pub get_elem? : List A → ℕ → Option A
  get_elem? [] i = none
  get_elem? (x ∷ xs) zero = some x
  get_elem? (x ∷ xs) (suc i) = get_elem? xs i

  -- A write out of bounds changes nothing.
  abbrev pub set : List A → ℕ → A → List A
  set [] i v = []
  set (x ∷ xs) zero v = v ∷ xs
  set (x ∷ xs) (suc i) v = x ∷ set xs i v

  abbrev pub take : ℕ → List A → List A
  take zero xs = []
  take (suc n) [] = []
  take (suc n) (x ∷ xs) = x ∷ take n xs

  abbrev pub drop : ℕ → List A → List A
  drop zero xs = xs
  drop (suc n) [] = []
  drop (suc n) (x ∷ xs) = drop n xs

  pub length-append : (xs ys : List A) → length (xs ++ ys) ≡ length xs + length ys
  length-append [] ys = omega arith
  length-append (x ∷ xs) ys = omega (arith, length-append xs ys)

-- Every element satisfies `P`. It computes to a tuple, which the tactics read and build.
abbrev pub All {ℓ κ} : {A : Type ℓ} → (A → Type κ) → List A → Type κ
All P [] = Unit
All P (x ∷ xs) = P x × All P xs

pub All-append {ℓ κ} :
    {A : Type ℓ} (P : A → Type κ) (xs ys : List A) → All P xs → All P ys → All P (xs ++ ys)
All-append P [] ys hx hy = hy
All-append P (x ∷ xs) ys hx hy = (hx.0, All-append P xs ys hx.1 hy)

-- `a` is an element, with its position kept.
pub data Has {ℓ} {A : Type ℓ} (a : A) : List A → Type ℓ where
  here : {xs : List A} → Has a (a ∷ xs)
  there : {x : A} {xs : List A} → Has a xs → Has a (x ∷ xs)

pub All-at {ℓ κ} : {A : Type ℓ} (P : A → Type κ) {a : A} (xs : List A) → All P xs → Has a xs → P a
All-at P (x ∷ xs) h here = h.0
All-at P (x ∷ xs) h (there m) = All-at P xs h.1 m
All-at P [] h m = elim m [ ]

pub Has-append_left {ℓ} : {A : Type ℓ} {a : A} (xs ys : List A) → Has a xs → Has a (xs ++ ys)
Has-append_left (x ∷ xs) ys here = here
Has-append_left (x ∷ xs) ys (there m) = there (Has-append_left xs ys m)
Has-append_left [] ys m = elim m [ ]

pub Has-append_right {ℓ} : {A : Type ℓ} {a : A} (xs ys : List A) → Has a ys → Has a (xs ++ ys)
Has-append_right [] ys m = m
Has-append_right (x ∷ xs) ys m = there (Has-append_right xs ys m)

module _ {ℓ} {A : Type ℓ} where
  pub take_add : (n k : ℕ) (xs : List A) → take (n + k) xs ≡ take n xs ++ take k (drop n xs)
  take_add zero k xs = let e : 0 + k ≡ k = omega arith in rw e refl
  take_add (suc n) zero [] = let e : suc n + 0 ≡ suc n = omega arith in rw e refl
  take_add (suc n) (suc k) [] = let e : suc n + suc k ≡ suc (n + suc k) = omega arith in rw e refl
  take_add (suc n) k (x ∷ xs) =
      let e : suc n + k ≡ suc (n + k) = omega arith in rw e (ap (λ ys. x ∷ ys) (take_add n k xs))

  pub drop-drop : (n m : ℕ) (xs : List A) → drop n (drop m xs) ≡ drop (m + n) xs
  drop-drop n zero xs = let e : 0 + n ≡ n = omega arith in rw e refl
  drop-drop zero (suc m) [] = let e : suc m + 0 ≡ suc m = omega arith in rw e refl
  drop-drop (suc n) (suc m) [] = let e : suc m + suc n ≡ suc (m + suc n) = omega arith in rw e refl
  drop-drop n (suc m) (x ∷ xs) =
      let e : suc m + n ≡ suc (m + n) = omega arith in rw e (drop-drop n m xs)

  pub take-take : (n m : ℕ) (xs : List A) → n ≤ m → take n (take m xs) ≡ take n xs
  take-take zero m xs h = refl
  take-take (suc n) zero xs h = absurd (omega (arith, h))
  take-take (suc n) (suc m) [] h = refl
  take-take (suc n) (suc m) (x ∷ xs) h = ap (λ ys. x ∷ ys) (take-take n m xs (omega (arith, h)))

  pub length-take : (n : ℕ) (xs : List A) → n ≤ length xs → length (take n xs) ≡ n
  length-take zero xs h = refl
  length-take (suc n) [] h = absurd (omega (arith, h))
  length-take (suc n) (x ∷ xs) h = omega (arith, length-take n xs (omega (arith, h)))

  pub length-drop : (n : ℕ) (xs : List A) → length (drop n xs) ≡ length xs - n
  length-drop zero xs = omega arith
  length-drop (suc n) [] = omega arith
  length-drop (suc n) (x ∷ xs) = omega (arith, length-drop n xs)

  pub take-length : (xs : List A) → take (length xs) xs ≡ xs
  take-length [] = refl
  take-length (x ∷ xs) = ap (λ ys. x ∷ ys) (take-length xs)
