-- ===== src/Hub/Load/Sharing.antt =====
-- Which buffers a returned body shares with the cache, and what a caller's write into it does
-- (`FaultServer.ServeHTTP` of internal/lab/server.go flips a bit of the body in place).
use edge_delta_lab.Prelude.{
  Result, ok, ℕ, zero, suc, ◌+◌, ◌<◌, ◌≡◌, ◌∙◌, refl, ap, String, none, some, List, [], ◌∷◌, ◌++◌,
  arith, length, get_elem?, set, length-append,
}
use edge_delta_lab.Hub.Lru
use edge_delta_lab.Hub.Lru.{Lru, Entry, find, to_front}
use edge_delta_lab.Hub.Lru.Valid.{IsValid}
use edge_delta_lab.Hub.Lru.Evict.{find-put_self}
use edge_delta_lab.Hub.Load.{
  Slice, Hub, start, missed, reading, returned, allocate, bytes_of, copy_out, try_cache, call_of,
  join, underlying, remove_call, forget, cache_body, settle, step, run,
}

-- A write into the buffer of a slice.
unfoldable pub overwrite : Hub → Slice → List ℕ → Hub
overwrite h s bytes = record h { buffers = set h.buffers s.buffer bytes }

-- Every cached body refers to a buffer of the store.
abbrev pub IsStored : Hub → Type 0
IsStored h = (k : String) (s : Slice) → find k h.lru.order ≡ some s → s.buffer < length h.buffers

module _ {ℓ} {A : Type ℓ} where
  get_elem?-append_last : (xs : List A) (x : A) → get_elem? (xs ++ x ∷ []) (length xs) ≡ some x
  get_elem?-append_last [] x = refl
  get_elem?-append_last (y ∷ xs) x = get_elem?-append_last xs x

  get_elem?-append_lt :
      (xs ys : List A) (i : ℕ) → i < length xs → get_elem? (xs ++ ys) i ≡ get_elem? xs i
  get_elem?-append_lt [] ys i h = elim h [ ]
  get_elem?-append_lt (y ∷ xs) ys zero h = refl
  get_elem?-append_lt (y ∷ xs) ys (suc i) h = get_elem?-append_lt xs ys i (omega arith)

  get_elem?-set_self :
      (xs : List A) (i : ℕ) (v : A) → i < length xs → get_elem? (set xs i v) i ≡ some v
  get_elem?-set_self [] i v h = elim h [ ]
  get_elem?-set_self (x ∷ xs) zero v h = refl
  get_elem?-set_self (x ∷ xs) (suc i) v h = get_elem?-set_self xs i v (omega arith)

  get_elem?-set_lt :
      (xs : List A) (i j : ℕ) (v : A) → j < i → get_elem? (set xs i v) j ≡ get_elem? xs j
  get_elem?-set_lt [] i j v h = refl
  get_elem?-set_lt (x ∷ xs) zero j v h = elim h [ ]
  get_elem?-set_lt (x ∷ xs) (suc i) zero v h = refl
  get_elem?-set_lt (x ∷ xs) (suc i) (suc j) v h = get_elem?-set_lt xs i j v (omega arith)

try_cache_hit :
    (h : Hub) (rel : String) (s : Slice)
    → find rel h.lru.order ≡ some s
    → ((try_cache h rel).1
        ≡ returned (ok (record { buffer = length h.buffers; len = length (bytes_of h s) })))
      × ((try_cache h rel).0.buffers ≡ h.buffers ++ bytes_of h s ∷ [])
unfolding try_cache copy_out allocate bytes_of Lru.get
try_cache_hit h rel s hit = ground arith

bytes_at :
    (h : Hub) (s : Slice) (b : List ℕ) → get_elem? h.buffers s.buffer ≡ some b → bytes_of h s ≡ b
unfolding bytes_of
bytes_at h s b p = rw (p, bytes_of) refl

bytes_same :
    (h h' : Hub) (s : Slice)
    → get_elem? h'.buffers s.buffer ≡ get_elem? h.buffers s.buffer
    → bytes_of h' s ≡ bytes_of h s
unfolding bytes_of
bytes_same h h' s p = ground arith

-- On a hit the request gets a body of its own: it holds the cached bytes, and whatever the caller
-- writes into it, every cached body keeps its bytes.
hit_is_private :
    (h : Hub) (rel : String) (s : Slice)
    → find rel h.lru.order ≡ some s
    → IsStored h
    → (s' : Slice) × ((try_cache h rel).1 ≡ returned (ok s'))
      × (bytes_of (try_cache h rel).0 s' ≡ bytes_of h s)
      × ((w : List ℕ) (k : String) (c : Slice)
          → find k h.lru.order ≡ some c
          → bytes_of (overwrite (try_cache h rel).0 s' w) c ≡ bytes_of h c)
unfolding overwrite
hit_is_private h rel s hit st =
    let (body, buffers) = try_cache_hit h rel s hit in
    let b = bytes_of h s in
    (
      record { buffer = length h.buffers; len = length b },
      body,
      bytes_at _ _ b (rw buffers (get_elem?-append_last h.buffers b)),
      λ w k c f. bytes_same h _ c (
          get_elem?-set_lt _ (length h.buffers) c.buffer w (st k c f)
          ∙ rw buffers (get_elem?-append_lt h.buffers (b ∷ []) c.buffer (st k c f))),
    )

try_cache_miss :
    (h : Hub) (rel : String) → find rel h.lru.order ≡ none → try_cache h rel ≡ (h, missed rel)
unfolding try_cache Lru.get
try_cache_miss h rel miss = ground arith

abbrev joined : Hub → String → Hub
joined h rel = record h {
  inflight = (rel, length h.calls) ∷ h.inflight;
  calls = h.calls ++ none ∷ [];
}

join_free :
    (h : Hub) (rel : String)
    → call_of rel h.inflight ≡ none
    → join h rel ≡ (joined h rel, reading rel (length h.calls))
unfolding join
join_free h rel free = rw (free, join) refl

-- The hub after a request that read `bytes` from the origin and ran alone.
abbrev after_miss : Hub → String → List ℕ → Hub
after_miss h rel bytes =
    let s : Slice = record { buffer = length h.buffers; len = length bytes } in
    let put = Lru.put (λ (x : Slice). x.len) h.lru rel s in
    record h {
      lru = put.0;
      evictions = h.evictions + put.1;
      inflight = remove_call rel ((rel, length h.calls) ∷ h.inflight);
      calls = set (h.calls ++ none ∷ []) (length h.calls) (some (ok s));
      buffers = h.buffers ++ bytes ∷ [];
      disk_reads = h.disk_reads + 1;
    }

miss_alone :
    (origin : String → Result (List ℕ)) (h : Hub) (rel : String) (bytes : List ℕ)
    → find rel h.lru.order ≡ none
    → call_of rel h.inflight ≡ none
    → origin rel ≡ ok bytes
    → run origin 6 h (start rel) ≡ (
      after_miss h rel bytes,
      returned (ok (record { buffer = length h.buffers; len = length bytes })),
    )
unfolding run step underlying forget cache_body settle allocate
miss_alone origin h rel bytes miss free o =
    rw (try_cache_miss h rel miss) (rw (join_free h rel free) (rw o refl))

-- On a miss the body that a request returns is the buffer that the cache keeps: whatever the caller
-- writes into it, the next request for the object gets what was written, not what the origin holds.
pub miss_is_shared :
    (origin : String → Result (List ℕ)) (h : Hub) (rel : String) (bytes w : List ℕ)
    → IsValid (λ (x : Slice). x.len) h.lru
    → find rel h.lru.order ≡ none
    → call_of rel h.inflight ≡ none
    → origin rel ≡ ok bytes
    → (h' : Hub) × (s : Slice) × (s' : Slice) × (run origin 6 h (start rel) ≡ (h', returned (ok s)))
      × (bytes_of h' s ≡ bytes)
      × ((try_cache (overwrite h' s w) rel).1 ≡ returned (ok s'))
      × (bytes_of (try_cache (overwrite h' s w) rel).0 s' ≡ w)
unfolding overwrite
miss_is_shared origin h rel bytes w v miss free o =
    let s : Slice = record { buffer = length h.buffers; len = length bytes } in
    let h' = after_miss h rel bytes in
    let cached = find-put_self (λ (x : Slice). x.len) h.lru rel s v in
    let (body, buffers) = try_cache_hit (overwrite h' s w) rel s cached in
    (
      h',
      s,
      record {
        buffer = length (overwrite h' s w).buffers;
        len = length (bytes_of (overwrite h' s w) s);
      },
      miss_alone origin h rel bytes miss free o,
      bytes_at h' s bytes (get_elem?-append_last h.buffers bytes),
      body,
      bytes_at _ _ w (
          rw buffers (
            get_elem?-append_last (overwrite h' s w).buffers (bytes_of (overwrite h' s w) s)
            ∙ ap some (
                bytes_at (overwrite h' s w) s w (
                  get_elem?-set_self (h.buffers ++ bytes ∷ []) (length h.buffers) w
                    (omega (arith, length-append h.buffers (bytes ∷ []))))))),
    )
