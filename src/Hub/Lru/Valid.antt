-- ===== src/Hub/Lru/Valid.antt =====
-- The invariant of the LRU: the byte count is the sum of the sizes, and no key occurs twice.
use edge_delta_lab.Prelude.{
  ℕ, ◌+◌, ◌≡◌, ◌≢◌, refl, String, none, some, List, [], ◌∷◌, arith, eq_iff, str_eq, length, All,
  Option-cases, Bool-cases, inl, inr,
}
use edge_delta_lab.Prelude.Int.{ℤ}
use edge_delta_lab.Hub.Lru.{Entry, Lru, new_lru, find, without, get, pop_back, store}

module _ {ℓ} {A : Type ℓ} where
  abbrev pub Lacks : String → List (Entry A) → Type 0
  Lacks rel es = All (λ e. e.rel ≢ rel) es

  abbrev pub IsDistinct : List (Entry A) → Type 0
  IsDistinct [] = Unit
  IsDistinct (e ∷ es) = Lacks e.rel es × IsDistinct es

  pub find-Lacks : (rel : String) (es : List (Entry A)) → find rel es ≡ none → Lacks rel es
  unfolding find
  find-Lacks rel [] h = tt
  find-Lacks rel (e ∷ es) h =
      (λ p. ground (arith, eq_iff e.rel rel), find-Lacks rel es (ground arith))

  pub Lacks-find : (rel : String) (es : List (Entry A)) → Lacks rel es → find rel es ≡ none
  unfolding find
  Lacks-find rel [] h = refl
  Lacks-find rel (e ∷ es) h = ground (arith, eq_iff e.rel rel, Lacks-find rel es h.1)

  without-Lacks_ne : (rel k : String) (es : List (Entry A)) → Lacks k es → Lacks k (without rel es)
  unfolding without
  without-Lacks_ne rel k [] h = tt
  without-Lacks_ne rel k (e ∷ es) h = elim (Bool-cases (str_eq e.rel rel)) [
    | inl p ↦ rw p h.1
    | inr p ↦ rw p (h.0, without-Lacks_ne rel k es h.1)
  ]

  pub without-Lacks :
      (rel : String) (es : List (Entry A)) → IsDistinct es → Lacks rel (without rel es)
  unfolding without
  without-Lacks rel [] h = tt
  without-Lacks rel (e ∷ es) h = elim (Bool-cases (str_eq e.rel rel)) [
    | inl p ↦ rw p (rw ((eq_iff e.rel rel).0 p) at h.0)
    | inr p ↦ rw p (λ q. ground (arith, eq_iff e.rel rel), without-Lacks rel es h.1)
  ]

  pub without-IsDistinct :
      (rel : String) (es : List (Entry A)) → IsDistinct es → IsDistinct (without rel es)
  unfolding without
  without-IsDistinct rel [] h = tt
  without-IsDistinct rel (e ∷ es) h = elim (Bool-cases (str_eq e.rel rel)) [
    | inl p ↦ rw p h.1
    | inr p ↦ rw p (without-Lacks_ne rel e.rel es h.0, without-IsDistinct rel es h.1)
  ]

  pub find-without_ne :
      (rel k : String) (es : List (Entry A)) → rel ≢ k → find k (without rel es) ≡ find k es
  unfolding find without
  find-without_ne rel k [] h = refl
  find-without_ne rel k (e ∷ es) h =
      ground (arith, eq_iff e.rel rel, eq_iff e.rel k, find-without_ne rel k es h)

module _ {ℓ} {A : Type ℓ} (size : A → ℕ) where
  unfoldable pub total : List (Entry A) → ℕ
  total [] = 0
  total (e ∷ es) = size e.body + total es

  pub record IsValid (l : Lru A) : Type 0 where
    pub counted : l.cur_bytes ≡ total l.order
    pub distinct : IsDistinct l.order

  pub total-without :
      (rel : String) (es : List (Entry A)) (body : A)
      → find rel es ≡ some body
      → total (without rel es) + size body ≡ total es
  unfolding total find without
  total-without rel [] body h = cc
  total-without rel (e ∷ es) body h = ground (arith, total-without rel es body)

  pub new_lru-IsValid : (max : ℤ) → IsValid (new_lru max)
  unfolding new_lru total
  new_lru-IsValid max = record { counted = refl; distinct = tt }

  -- A hit only reorders.
  pub get-IsValid : (l : Lru A) (rel : String) → IsValid l → IsValid (get l rel).0
  unfolding get
  get-IsValid l rel v = elim (Option-cases (find rel l.order)) [
    | inl miss ↦ rw (miss, get) v
    | inr (body, hit) ↦
        rw (hit, get)
          (record {
            counted = unfold total in omega (arith, v.counted, total-without rel l.order body hit);
            distinct =
                (without-Lacks rel l.order v.distinct, without-IsDistinct rel l.order v.distinct);
          })
  ]

  pub store-IsValid :
      (l : Lru A) (rel : String) (body : A) → IsValid l → IsValid (store size l rel body)
  unfolding store
  store-IsValid l rel body v = elim (Option-cases (find rel l.order)) [
    | inl miss ↦
        rw (miss, store)
          (record {
            counted = unfold total in omega (arith, v.counted);
            distinct = (find-Lacks rel l.order miss, v.distinct);
          })
    | inr (old, hit) ↦
        rw (hit, store)
          (record {
            counted = unfold total in omega (arith, v.counted, total-without rel l.order old hit);
            distinct =
                (without-Lacks rel l.order v.distinct, without-IsDistinct rel l.order v.distinct);
          })
  ]

  pub total-pop_back :
      (e : Entry A) (es : List (Entry A))
      → total (pop_back e es).0 + size (pop_back e es).1.body ≡ total (e ∷ es)
  unfolding total pop_back
  total-pop_back e [] = omega arith
  total-pop_back e (f ∷ es) = omega (arith, total-pop_back f es)

  pub length-pop_back : (e : Entry A) (es : List (Entry A)) → length (pop_back e es).0 ≡ length es
  unfolding pop_back
  length-pop_back e [] = refl
  length-pop_back e (f ∷ es) = omega (arith, length-pop_back f es)

  pop_back-Lacks :
      (k : String) (e : Entry A) (es : List (Entry A))
      → Lacks k (e ∷ es)
      → Lacks k (pop_back e es).0
  unfolding pop_back
  pop_back-Lacks k e [] h = tt
  pop_back-Lacks k e (f ∷ es) h = (h.0, pop_back-Lacks k f es h.1)

  pub pop_back-IsDistinct :
      (e : Entry A) (es : List (Entry A)) → IsDistinct (e ∷ es) → IsDistinct (pop_back e es).0
  unfolding pop_back
  pop_back-IsDistinct e [] h = tt
  pop_back-IsDistinct e (f ∷ es) h = (pop_back-Lacks e.rel f es h.0, pop_back-IsDistinct f es h.1)
