-- ===== src/Hub/Load.antt =====
-- `Hub.load` of internal/hub/hub.go. Bodies are Go slices, so a body in the cache and a body that
-- was returned may share a buffer: the model has a store of buffers and slices refer to it.
-- One request is a thread; each of its steps is one critical section of `load`.
pub mod Single
pub mod Sharing
pub mod Leaders
pub mod Live
use edge_delta_lab.Prelude.{
  Result, ok, err, ℕ, suc, ◌+◌, String, Bool, true, false, Option, none, some, List, [], ◌∷◌, ◌++◌,
  if◌then◌else◌, str_eq, length, get_elem?, set,
}
use edge_delta_lab.Prelude.Int.{ℤ}
use edge_delta_lab.Hub.Lru
use edge_delta_lab.Hub.Lru.{Lru, new_lru}

-- A slice over the whole of its buffer.
pub record Slice : Type 0 where
  pub buffer : ℕ
  pub len : ℕ

pub record Hub : Type 0 where
  pub lru : Lru Slice
  pub inflight : List (String × ℕ)
  -- `call` records, by their number: what `c.data, c.err` hold once the group is done.
  pub calls : List (Option (Result Slice))
  pub buffers : List (List ℕ)
  pub disk_reads : ℕ
  pub cache_hits : ℕ
  pub coalesced : ℕ
  pub evictions : ℕ

unfoldable pub new_hub : ℤ → Hub
unfolding new_lru
new_hub max_bytes = record {
  lru = new_lru max_bytes;
  inflight = [];
  calls = [];
  buffers = [];
  disk_reads = 0;
  cache_hits = 0;
  coalesced = 0;
  evictions = 0;
}

-- Where a request stands in `load`.
pub data Thread : Type 0 where
  start : String → Thread
  missed : String → Thread
  waiting : String → ℕ → Thread
  reading : String → ℕ → Thread
  read : String → ℕ → Result Slice → Thread
  forgotten : String → ℕ → Result Slice → Thread
  stored : ℕ → Result Slice → Thread
  returned : Result Slice → Thread

-- `make` with the bytes copied in: a buffer that nothing else refers to.
unfoldable pub allocate : Hub → List ℕ → Hub × Slice
allocate h bytes = (
  record h { buffers = h.buffers ++ bytes ∷ [] },
  record { buffer = length h.buffers; len = length bytes },
)

unfoldable pub bytes_of : Hub → Slice → List ℕ
bytes_of h s = elim (get_elem? h.buffers s.buffer) [ none ↦ [] | some b ↦ b ]

unfoldable pub copy_out : Hub → Slice → Hub × Thread
copy_out h s = let (h', s') = allocate h (bytes_of h s) in (h', returned (ok s'))

-- The fast path, under the cache lock.
unfoldable pub try_cache : Hub → String → Hub × Thread
try_cache h rel =
    let (lru', found) = Lru.get h.lru rel in
    elim found [
      | some s ↦ copy_out (record h { lru = lru'; cache_hits = h.cache_hits + 1 }) s
      | none ↦ (record h { lru = lru' }, missed rel)
    ]

unfoldable pub call_of : String → List (String × ℕ) → Option ℕ
call_of rel [] = none
call_of rel ((k, c) ∷ m) = if str_eq k rel then some c else call_of rel m

-- Joins the call in flight, or registers a new one.
unfoldable pub join : Hub → String → Hub × Thread
join h rel = elim (call_of rel h.inflight) [
  | some c ↦ (record h { coalesced = h.coalesced + 1 }, waiting rel c)
  | none ↦ (
    record h { inflight = (rel, length h.calls) ∷ h.inflight; calls = h.calls ++ none ∷ [] },
    reading rel (length h.calls),
  )
]

-- `h.underlying(rel)`, with what the origin answers at this moment.
unfoldable pub underlying : Result (List ℕ) → Hub → String → ℕ → Hub × Thread
underlying (ok bytes) h rel c = let (h', s) = allocate h bytes in (h', read rel c (ok s))
underlying (err e) h rel c = (h, read rel c (err e))

unfoldable pub remove_call : String → List (String × ℕ) → List (String × ℕ)
remove_call rel [] = []
remove_call rel ((k, c) ∷ m) =
    let rest = remove_call rel m in if str_eq k rel then rest else (k, c) ∷ rest

abbrev pub reads_of : Result Slice → ℕ
reads_of (ok _) = 1
reads_of (err _) = 0

unfoldable pub forget : Hub → String → ℕ → Result Slice → Hub × Thread
forget h rel c r = (
  record h { inflight = remove_call rel h.inflight; disk_reads = h.disk_reads + reads_of r },
  forgotten rel c r,
)

unfoldable pub cache_body : Hub → String → ℕ → Result Slice → Hub × Thread
cache_body h rel c (ok s) =
    let (lru', evicted) = Lru.put (λ (x : Slice). x.len) h.lru rel s in
    (record h { lru = lru'; evictions = h.evictions + evicted }, stored c (ok s))
cache_body h rel c (err e) = (h, stored c (err e))

-- `c.data, c.err = data, err; c.wg.Done(); return data, err`
unfoldable pub settle : Hub → ℕ → Result Slice → Hub × Thread
settle h c r = (record h { calls = set h.calls c (some r) }, returned r)

-- A waiter after `c.wg.Wait()`: the cached body, or the call's own, copied.
unfoldable pub wake : Hub → String → Result Slice → Hub × Thread
wake h rel (err e) = (h, returned (err e))
wake h rel (ok s) =
    let (lru', found) = Lru.get h.lru rel in
    elim found [
      | some s' ↦ copy_out (record h { lru = lru' }) s'
      | none ↦ copy_out (record h { lru = lru' }) s
    ]

-- `c.wg.Wait()` blocks while the call is not settled.
unfoldable pub await : Hub → String → ℕ → Hub × Thread
await h rel c = elim (get_elem? h.calls c) [
  | none ↦ (h, waiting rel c)
  | some none ↦ (h, waiting rel c)
  | some (some r) ↦ wake h rel r
]

-- One critical section of a request; the first argument is the origin at that moment.
unfoldable pub step : (String → Result (List ℕ)) → Hub → Thread → Hub × Thread
step origin h (start rel) = try_cache h rel
step origin h (missed rel) = join h rel
step origin h (waiting rel c) = await h rel c
step origin h (reading rel c) = underlying (origin rel) h rel c
step origin h (read rel c r) = forget h rel c r
step origin h (forgotten rel c r) = cache_body h rel c r
step origin h (stored c r) = settle h c r
step origin h (returned r) = (h, returned r)

-- A request that runs alone.
unfoldable pub run : (String → Result (List ℕ)) → ℕ → Hub → Thread → Hub × Thread
run origin ℕ.zero h t = (h, t)
run origin (suc n) h t = let (h', t') = step origin h t in run origin n h' t'
