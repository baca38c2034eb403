-- ===== src/Hub/Invalidate/Laws.antt =====
-- What an invalidation leaves in the cache.
use text.Mathlib.Text.{starts_with}
use edge_delta_lab.Prelude.{
  ℕ, zero, suc, ◌+◌, ◌-◌, ◌<◌, ◌≡◌, ◌∙◌, refl, sym, String, none, some, List, [], ◌∷◌, arith,
  length, Bool-cases, Option-cases, inl, inr, if◌then◌else◌, eq_iff, str_eq,
}
use edge_delta_lab.Hub.Lru.{Entry, Lru, find}
use edge_delta_lab.Hub.Lru.Valid.{IsValid, IsDistinct, Lacks, total}
use edge_delta_lab.Hub.Load.{Slice, Hub}
use edge_delta_lab.Hub.Invalidate.{remove_first, remove_all, invalidate_prefix}

-- The entries that are not under the prefix, in their order.
unfoldable pub outside : String → List (Entry Slice) → List (Entry Slice)
outside prefix [] = []
outside prefix (e ∷ es) =
    if starts_with e.rel prefix then outside prefix es else e ∷ outside prefix es

abbrev bytes : List (Entry Slice) → ℕ
bytes = total (λ (s : Slice). s.len)

remove_first-none :
    (prefix : String) (es : List (Entry Slice))
    → remove_first prefix es ≡ none
    → outside prefix es ≡ es
unfolding remove_first outside
remove_first-none prefix [] h = refl
remove_first-none prefix (e ∷ es) h = ground (arith, remove_first-none prefix es)

remove_first-some :
    (prefix : String) (es : List (Entry Slice)) (x : Entry Slice) (rest : List (Entry Slice))
    → remove_first prefix es ≡ some (x, rest)
    → (outside prefix es ≡ outside prefix rest)
      × (bytes es ≡ x.body.len + bytes rest)
      × (length es ≡ suc (length rest))
unfolding remove_first outside total
remove_first-some prefix [] x rest h = cc
remove_first-some prefix (e ∷ es) x rest h = elim (Bool-cases (starts_with e.rel prefix)) [
  | inl p ↦ ground arith
  | inr p ↦ elim (Option-cases (remove_first prefix es)) [
    | inl n ↦ ground arith
    | inr ((y, r), q) ↦ ground (arith, remove_first-some prefix es y r q)
  ]
]

record Removed (prefix : String) (l : Lru Slice) (n : ℕ) (r : Lru Slice × ℕ) : Type 0 where
  kept : r.0.order ≡ outside prefix l.order
  count : r.1 + length r.0.order ≡ n + length l.order
  counted : r.0.cur_bytes ≡ bytes r.0.order
  same_max : r.0.max_bytes ≡ l.max_bytes

remove_all-Removed :
    (prefix : String) (fuel : ℕ) (l : Lru Slice) (n : ℕ)
    → length l.order < fuel
    → l.cur_bytes ≡ bytes l.order
    → Removed prefix l n (remove_all prefix fuel l n)
unfolding remove_all
remove_all-Removed prefix zero l n h c = elim h [ ]
remove_all-Removed prefix (suc fuel) l n h c = elim (Option-cases (remove_first prefix l.order)) [
  | inl done ↦
      rw (done, remove_all)
        (record {
          kept = sym (remove_first-none prefix l.order done);
          count = refl;
          counted = c;
          same_max = refl;
        })
  | inr ((x, rest), q) ↦
      let (out, sizes, len) = remove_first-some prefix l.order x rest q in
      let l' : Lru Slice = record l { order = rest; cur_bytes = l.cur_bytes - x.body.len } in
      let r = remove_all-Removed prefix fuel l' (n + 1) (omega arith) (omega arith) in
      rw (q, remove_all)
        (record {
          kept = r.kept ∙ sym out;
          count = omega (arith, r.count);
          counted = r.counted;
          same_max = r.same_max;
        })
]

outside-Lacks :
    (prefix k : String) (es : List (Entry Slice)) → Lacks k es → Lacks k (outside prefix es)
unfolding outside
outside-Lacks prefix k [] h = tt
outside-Lacks prefix k (e ∷ es) h = elim (Bool-cases (starts_with e.rel prefix)) [
  | inl p ↦ rw p (outside-Lacks prefix k es h.1)
  | inr p ↦ rw p (h.0, outside-Lacks prefix k es h.1)
]

outside-IsDistinct :
    (prefix : String) (es : List (Entry Slice)) → IsDistinct es → IsDistinct (outside prefix es)
unfolding outside
outside-IsDistinct prefix [] h = tt
outside-IsDistinct prefix (e ∷ es) h = elim (Bool-cases (starts_with e.rel prefix)) [
  | inl p ↦ rw p (outside-IsDistinct prefix es h.1)
  | inr p ↦ rw p (outside-Lacks prefix e.rel es h.0, outside-IsDistinct prefix es h.1)
]

find-outside :
    (prefix k : String) (es : List (Entry Slice))
    → find k (outside prefix es) ≡ (if starts_with k prefix then none else find k es)
unfolding find outside
find-outside prefix k [] = ground arith
find-outside prefix k (e ∷ es) = elim (Bool-cases (str_eq e.rel k)) [
  | inl same ↦
      let p : e.rel ≡ k = (eq_iff e.rel k).0 same in ground (arith, p, find-outside prefix k es)
  | inr other ↦ ground (arith, find-outside prefix k es)
]

abbrev pub slice_size : Slice → ℕ
slice_size s = s.len

-- After an invalidation no object under the prefix is cached and every other one still is, the
-- byte count is right again, and the number returned is the number of entries that went.
pub invalidate_prefix_lem :
    (h : Hub) (prefix : String)
    → IsValid slice_size h.lru
    → IsValid slice_size (invalidate_prefix h prefix).0.lru
      × ((k : String)
          → find k (invalidate_prefix h prefix).0.lru.order
            ≡ (if starts_with k prefix then none else find k h.lru.order))
      × ((invalidate_prefix h prefix).1 + length (invalidate_prefix h prefix).0.lru.order
          ≡ length h.lru.order)
unfolding invalidate_prefix
invalidate_prefix_lem h prefix v =
    let r = remove_all-Removed prefix (suc (length h.lru.order)) h.lru 0 (omega arith) v.counted in
    (
      record {
        counted = r.counted;
        distinct = rw r.kept (outside-IsDistinct prefix h.lru.order v.distinct);
      },
      λ k. rw r.kept (find-outside prefix k h.lru.order),
      omega (arith, r.count),
    )
