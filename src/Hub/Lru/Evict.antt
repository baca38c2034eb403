-- ===== src/Hub/Lru/Evict.antt =====
-- The eviction loop of `put`: it ends within the budget, and drops no more than it must.
use mathlib.Core.List.{append_assoc, append-nil}
use edge_delta_lab.Prelude.{
  ℕ, zero, suc, ◌+◌, ◌-◌, ◌≤◌, ◌<◌, ◌≡◌, ◌≢◌, ◌⊎◌, refl, sym, ap, ◌∙◌, String, true, false, none,
  some, List, [], ◌∷◌, ◌++◌, arith, eq_iff, eq_refl, length, Bool-cases, Option-cases, inl, inr,
  length-append,
}
use edge_delta_lab.Prelude.Int.{ℤ, pos, ltb_ℤ}
use edge_delta_lab.Hub.Lru.{
  Entry, Lru, find, without, to_front, pop_back, store, over_budget, drop_oldest, evict, put,
}
use edge_delta_lab.Hub.Lru.Valid.{
  IsValid, total, total-pop_back, length-pop_back, pop_back-IsDistinct, store-IsValid,
  find-without_ne,
}

module _ {ℓ} {A : Type ℓ} (size : A → ℕ) where
  -- With one more of the dropped entries the cache would be over its budget.
  abbrev pub IsTight : ℤ → List (Entry A) → List (Entry A) → Type 0
  IsTight max kept [] = Unit
  IsTight max kept (e ∷ _) = ltb_ℤ max (pos (total size kept + size e.body)) ≡ true

  -- What the loop makes of `l`: it drops a tail of the order, counts it, and ends within budget.
  pub record Evicted (l : Lru A) (n : ℕ) (r : Lru A × ℕ) : Type ℓ where
    pub dropped : List (Entry A)
    pub split : l.order ≡ r.0.order ++ dropped
    pub counted : r.1 ≡ n + length dropped
    pub tight : IsTight l.max_bytes r.0.order dropped
    pub fits : over_budget size r.0 ≡ false
    pub same_max : r.0.max_bytes ≡ l.max_bytes
    pub valid : IsValid size r.0
    pub not_empty : 0 < length l.order → 0 < length r.0.order

  pop_back-append :
      (e : Entry A) (es : List (Entry A)) → e ∷ es ≡ (pop_back e es).0 ++ (pop_back e es).1 ∷ []
  unfolding pop_back
  pop_back-append e [] = refl
  pop_back-append e (f ∷ es) = ap (◌∷◌ e) (pop_back-append f es)

  abbrev of_order : ℤ → ℕ → List (Entry A) → Lru A
  of_order max cur es = record { max_bytes = max; cur_bytes = cur; order = es }

  drop_oldest-IsValid :
      (max : ℤ) (cur : ℕ) (es : List (Entry A))
      → IsValid size (of_order max cur es)
      → IsValid size (drop_oldest size (of_order max cur es))
  unfolding drop_oldest
  drop_oldest-IsValid max cur [] v = v
  drop_oldest-IsValid max cur (e ∷ es) v = record {
    counted = omega (arith, v.counted, total-pop_back size e es);
    distinct = pop_back-IsDistinct size e es v.distinct;
  }

  IsTight-snoc :
      (max : ℤ) (kept dropped : List (Entry A)) (last : Entry A)
      → IsTight max kept dropped
      → ltb_ℤ max (pos (total size (kept ++ dropped) + size last.body)) ≡ true
      → IsTight max kept (dropped ++ last ∷ [])
  IsTight-snoc max kept [] last h over = rw append-nil at over
  IsTight-snoc max kept (e ∷ es) last h over = h

  -- One more round before the loop that drops the rest.
  Evicted-step :
      (max : ℤ) (cur : ℕ) (e : Entry A) (es : List (Entry A)) (n : ℕ) (r : Lru A × ℕ)
      → IsValid size (of_order max cur (e ∷ es))
      → over_budget size (of_order max cur (e ∷ es)) ≡ true
      → Evicted (drop_oldest size (of_order max cur (e ∷ es))) (n + 1) r
      → Evicted (of_order max cur (e ∷ es)) n r
  unfolding drop_oldest over_budget
  Evicted-step max cur e es n r v over d = record {
    dropped = d.dropped ++ last ∷ [];
    split = pop_back-append e es ∙ (rw d.split (append_assoc r.0.order d.dropped (last ∷ [])));
    counted = omega (arith, d.counted, length-append d.dropped (last ∷ []));
    tight =
        IsTight-snoc max r.0.order d.dropped last d.tight
          (rw (← d.split) (ground (arith, v.counted, total-pop_back size e es)));
    fits = d.fits;
    same_max = d.same_max;
    valid = d.valid;
    not_empty = λ _. d.not_empty (ground (arith, length-pop_back size e es));
  }
    where
      last : Entry A
      last = (pop_back e es).1

  Evicted-refl :
      (l : Lru A) (n : ℕ) → IsValid size l → over_budget size l ≡ false → Evicted l n (l, n)
  Evicted-refl l n v fits = record {
    dropped = [];
    split = sym (append-nil l.order);
    counted = omega arith;
    tight = tt;
    fits = fits;
    same_max = refl;
    valid = v;
    not_empty = λ h. h;
  }

  one_fits : (l : Lru A) → length l.order ≤ 1 → over_budget size l ≡ false
  unfolding over_budget
  one_fits l h = ground arith

  evict-Evicted :
      (fuel : ℕ) (max : ℤ) (cur : ℕ) (es : List (Entry A)) (n : ℕ)
      → IsValid size (of_order max cur es)
      → length es ≤ fuel
      → Evicted (of_order max cur es) n (evict size fuel (of_order max cur es) n)
  unfolding evict drop_oldest
  evict-Evicted zero max cur [] n v h =
      Evicted-refl (of_order max cur []) n v (one_fits _ (omega arith))
  evict-Evicted zero max cur (e ∷ es) n v h = absurd (omega arith)
  evict-Evicted (suc fuel) max cur [] n v h =
      let fits = one_fits (of_order max cur []) (omega arith) in
      rw fits (Evicted-refl (of_order max cur []) n v fits)
  evict-Evicted (suc fuel) max cur (e ∷ es) n v h =
      elim (Bool-cases (over_budget size (of_order max cur (e ∷ es)))) [
        | inl over ↦ rw over (
            Evicted-step max cur e es n _ v over (
              evict-Evicted fuel max (cur - size (pop_back e es).1.body) (pop_back e es).0 (n + 1)
                (drop_oldest-IsValid max cur (e ∷ es) v)
                (omega (arith, length-pop_back size e es))))
        | inr fits ↦ rw fits (Evicted-refl (of_order max cur (e ∷ es)) n v fits)
      ]

  -- For any valid cache, `put` moves the entry to the front (or pushes it), then drops a tail of
  -- the order: the result is valid and within budget or down to one entry, the count is the number
  -- of entries dropped, and with one more of them kept it would be over budget.
  pub put-Evicted :
      (l : Lru A) (rel : String) (body : A)
      → IsValid size l
      → Evicted (store size l rel body) 0 (put size l rel body)
  unfolding put
  put-Evicted l rel body v = evict-Evicted _ _ _ _ 0 (store-IsValid size l rel body v) (omega arith)

  without_absent : (rel : String) (es : List (Entry A)) → find rel es ≡ none → without rel es ≡ es
  unfolding find without
  without_absent rel [] h = refl
  without_absent rel (e ∷ es) h = ground (arith, without_absent rel es)

  -- Both branches of `store` leave the entry in front of the others.
  order-store :
      (l : Lru A) (rel : String) (body : A)
      → (store size l rel body).order ≡ to_front rel body l.order
  unfolding store
  order-store l rel body = elim (Option-cases (find rel l.order)) [
    | inl miss ↦ rw (miss, store) (rw (without_absent rel l.order miss) refl)
    | inr (old, hit) ↦ rw (hit, store) refl
  ]

  find_first :
      (rel : String) (body : A) (es kept dropped : List (Entry A))
      → to_front rel body es ≡ kept ++ dropped
      → 0 < length kept
      → find rel kept ≡ some body
  unfolding find
  find_first rel body es [] dropped p h = absurd (omega arith)
  find_first rel body es (e ∷ kept) dropped p h = ground (arith, eq_refl rel)

  find-append :
      (k : String) (kept dropped : List (Entry A))
      → (find k kept ≡ find k (kept ++ dropped)) ⊎ (find k kept ≡ none)
  unfolding find
  find-append k [] dropped = inr refl
  find-append k (e ∷ kept) dropped = ground (arith, find-append k kept dropped)

  pub find-put_self :
      (l : Lru A) (rel : String) (body : A)
      → IsValid size l
      → find rel (put size l rel body).0.order ≡ some body
  find-put_self l rel body v =
      let r = put-Evicted l rel body v in
      let p = order-store l rel body in
      find_first rel body l.order _ r.dropped (sym p ∙ r.split) (r.not_empty (rw p (omega arith)))

  find-put_ne :
      (l : Lru A) (rel k : String) (body : A)
      → IsValid size l
      → rel ≢ k
      → (find k (put size l rel body).0.order ≡ find k l.order)
        ⊎ (find k (put size l rel body).0.order ≡ none)
  unfolding find
  find-put_ne l rel k body v ne =
      let r = put-Evicted l rel body v in
      ground (
        arith,
        find-append k (put size l rel body).0.order r.dropped,
        r.split,
        order-store l rel body,
        find-without_ne rel k l.order ne,
        eq_iff rel k,
      )

  -- The entry that `put` stores is cached afterwards, whatever the budget and the size of the body, and any
  -- other object is cached as before or was evicted. The cache is valid before.
  pub find-put :
      (l : Lru A) (rel : String) (body : A)
      → IsValid size l
      → (find rel (put size l rel body).0.order ≡ some body)
        × ((k : String)
            → rel ≢ k
            → (find k (put size l rel body).0.order ≡ find k l.order)
              ⊎ (find k (put size l rel body).0.order ≡ none))
  find-put l rel body v = (find-put_self l rel body v, λ k ne. find-put_ne l rel k body v ne)
