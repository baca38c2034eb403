-- ===== src/Hub/Invalidate/Race.antt =====
-- An invalidation between the two halves of `load`.
use text.Mathlib.Text.{starts_with}
use edge_delta_lab.Prelude.{ok, ℕ, ◌≡◌, ◌∙◌, refl, String, true, none, some}
use edge_delta_lab.Hub.Lru.{find}
use edge_delta_lab.Hub.Lru.Valid.{IsValid}
use edge_delta_lab.Hub.Lru.Evict.{find-put_self}
use edge_delta_lab.Hub.Load.{Slice, Hub, cache_body}
use edge_delta_lab.Hub.Invalidate.{invalidate_prefix}
use edge_delta_lab.Hub.Invalidate.Laws.{slice_size, invalidate_prefix_lem}

-- The second half of a request that read `s` before its object was invalidated: it puts what it read
-- into the cache all the same, so the cache holds the body from before the invalidation.
pub stale_after_invalidate :
    (h : Hub) (prefix rel : String) (c : ℕ) (s : Slice)
    → IsValid slice_size h.lru
    → starts_with rel prefix ≡ true
    → (find rel (invalidate_prefix h prefix).0.lru.order ≡ none)
      × (find rel (cache_body (invalidate_prefix h prefix).0 rel c (ok s)).0.lru.order ≡ some s)
unfolding cache_body
stale_after_invalidate h prefix rel c s v under =
    let (valid, kept, _) = invalidate_prefix_lem h prefix v in
    (kept rel ∙ rw under refl, find-put_self slice_size _ rel s valid)
