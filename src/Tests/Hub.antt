-- ===== src/Tests/Hub.antt =====
-- Runs of the hub.
use text.Mathlib.Text.{starts_with}
use edge_delta_lab.Prelude.{
  ℕ, ◌+◌, ◌*◌, ◌≤◌, ◌≡◌, ◌≢◌, ◌⊎◌, refl, arith, String, List, [], ◌∷◌, ok, some, none, length,
  if◌then◌else◌, Result,
}
use edge_delta_lab.Prelude.Int.{pos}
use edge_delta_lab.Prelude.Dict.{lookup}
use edge_delta_lab.Hub.Metrics.{IsAccounted}
use edge_delta_lab.Hub.Lru.{Lru, find, put, get, store}
use edge_delta_lab.Hub.Lru.Valid.{IsValid, total, get-IsValid}
use edge_delta_lab.Hub.Lru.Evict.{Evicted, put-Evicted, find-put}
use edge_delta_lab.Hub.Load.{
  Slice, Hub, start, returned, new_hub, try_cache, bytes_of, run, call_of,
}
use edge_delta_lab.Hub.Load.Single.{
  System, arrive, Reach, here, next, new_system, active, calls_for, single_flight,
}
use edge_delta_lab.Hub.Load.Live.{FinishesWithin, completes}
use edge_delta_lab.Hub.Load.Sharing.{overwrite, miss_is_shared}
use edge_delta_lab.Hub.Invalidate.{invalidate_prefix}
use edge_delta_lab.Hub.Invalidate.Laws.{slice_size, invalidate_prefix_lem}

abbrev origin : String → Result (List ℕ)
origin rel = ok (1 ∷ 2 ∷ [])

abbrev two_requests : System
two_requests = record (new_system (pos 10)) { threads = start "a" ∷ start "a" ∷ [] }

two_arrived : Reach (new_system (pos 10)) two_requests
unfolding new_system
two_arrived = next (next here (arrive "a")) (arrive "a")

single_flight_example :
    (active "a" two_requests.threads ≤ 1)
    × (active "a" two_requests.threads ≡ calls_for "a" two_requests.hub.inflight)
single_flight_example = single_flight (pos 10) two_requests "a" two_arrived

abbrev cached : Lru Slice
cached = record {
  max_bytes = pos 2;
  cur_bytes = 2;
  order = record { rel = "a"; body = record { buffer = 0; len = 2 } } ∷ [];
}

abbrev other : Slice
other = record { buffer = 1; len = 2 }

cached-IsValid : IsValid slice_size cached
unfolding total
cached-IsValid = record { counted = refl; distinct = (tt, tt) }

abbrev hub : Hub
hub = record (new_hub (pos 2)) { lru = cached; buffers = (1 ∷ 2 ∷ []) ∷ [] }

put-Evicted_example :
    Evicted slice_size (store slice_size cached "b" other) 0 (put slice_size cached "b" other)
put-Evicted_example = put-Evicted slice_size cached "b" other cached-IsValid

find-put_example :
    (find "b" (put slice_size cached "b" other).0.order ≡ some other)
    × ((k : String)
        → (◌≢◌ {A = String} "b" k)
        → (find k (put slice_size cached "b" other).0.order ≡ find k cached.order)
          ⊎ (find k (put slice_size cached "b" other).0.order ≡ none))
find-put_example = find-put slice_size cached "b" other cached-IsValid

completes_example : FinishesWithin origin (6 * length two_requests.threads) two_requests
completes_example = completes (pos 10) two_requests origin two_arrived

get-IsValid_example : IsValid slice_size (get cached "a").0
get-IsValid_example = get-IsValid slice_size cached "a" cached-IsValid

missed_b : find "b" hub.lru.order ≡ none
unfolding find new_hub
missed_b = refl

free_b : call_of "b" hub.inflight ≡ none
unfolding call_of new_hub
free_b = refl

miss_is_shared_example :
    (h' : Hub) × (s : Slice) × (s' : Slice) × (run origin 6 hub (start "b") ≡ (h', returned (ok s)))
    × (bytes_of h' s ≡ 1 ∷ 2 ∷ [])
    × ((try_cache (overwrite h' s (65 ∷ 2 ∷ [])) "b").1 ≡ returned (ok s'))
    × (bytes_of (try_cache (overwrite h' s (65 ∷ 2 ∷ [])) "b").0 s' ≡ 65 ∷ 2 ∷ [])
miss_is_shared_example =
    miss_is_shared origin hub "b" (1 ∷ 2 ∷ []) (65 ∷ 2 ∷ []) cached-IsValid missed_b free_b refl

invalidate_prefix_lem_example :
    IsValid slice_size (invalidate_prefix hub "a").0.lru
    × ((k : String)
        → find k (invalidate_prefix hub "a").0.lru.order
          ≡ (if starts_with k "a" then none else find k hub.lru.order))
    × ((invalidate_prefix hub "a").1 + length (invalidate_prefix hub "a").0.lru.order
        ≡ length hub.lru.order)
invalidate_prefix_lem_example = invalidate_prefix_lem hub "a" cached-IsValid

no_devices-IsAccounted : IsAccounted []
unfolding lookup
no_devices-IsAccounted k d e = ground (arith, e)
