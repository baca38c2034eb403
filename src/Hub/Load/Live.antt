-- ===== src/Hub/Load/Live.antt =====
-- Requests that interleave in internal/hub/hub.go come to an end.
use edge_delta_lab.Prelude.{
  Result, ok, err, ℕ, zero, suc, ◌+◌, ◌*◌, ◌≤◌, ◌<◌, ◌≡◌, refl, ◌∙◌, ap, String, Option, none, some,
  List, [], ◌∷◌, ◌⊎◌, inl, inr, arith, length, get_elem?, set, All, Bool-cases, Option-cases, leb,
}
use edge_delta_lab.Prelude.Int.{ℤ}
use edge_delta_lab.Hub.Lru
use edge_delta_lab.Hub.Load.{
  Hub, Slice, Thread, start, missed, waiting, reading, read, forgotten, stored, returned, allocate,
  copy_out, try_cache, call_of, join, underlying, forget, cache_body, settle, wake, await, step,
}
use edge_delta_lab.Hub.Load.Single.{System, move, Reach, new_system}
use edge_delta_lab.Hub.Load.Leaders.{
  leads, leaders, pending, is_pending, IsPlaced, IsLed, Step-IsLed, Reach-IsLed, new_system-IsLed,
}

-- How many steps a request needs at most, once it need not wait.
abbrev pub rank : Thread → ℕ
rank (start _) = 6
rank (missed _) = 5
rank (reading _ _) = 4
rank (read _ _ _) = 3
rank (forgotten _ _ _) = 2
rank (stored _ _) = 1
rank (waiting _ _) = 1
rank (returned _) = 0

unfoldable pub work : List Thread → ℕ
work [] = 0
work (t ∷ ts) = rank t + work ts

abbrev pub IsReturned : Thread → Type 0
IsReturned t = rank t ≡ 0

-- Whatever the origin answers, the next step of the thread brings it nearer to its end.
abbrev IsReady : Hub → Thread → Type 0
IsReady h t = (origin : String → Result (List ℕ)) → rank (step origin h t).1 < rank t

wake-rank : (h : Hub) (k : String) (r : Result Slice) → rank (wake h k r).1 ≡ 0
unfolding wake copy_out allocate
wake-rank h k (err e) = refl
wake-rank h k (ok s) = elim (Option-cases ((Lru.get h.lru k).1)) [
  | inl e ↦ rw (e, wake) refl
  | inr (s', e) ↦ rw (e, wake) refl
]

settled-IsReady :
    (h : Hub) (k : String) (c : ℕ) (r : Result Slice)
    → get_elem? h.calls c ≡ some (some r)
    → IsReady h (waiting k c)
unfolding step await
settled-IsReady h k c r e origin = rw (e, await) (omega (arith, wake-rank h k r))

start-IsReady : (h : Hub) (k : String) → IsReady h (start k)
unfolding step try_cache copy_out allocate
start-IsReady h k origin = elim (Option-cases ((Lru.get h.lru k).1)) [
  | inl e ↦ rw (e, try_cache) (omega arith)
  | inr (s, e) ↦ rw (e, try_cache) (omega arith)
]

missed-IsReady : (h : Hub) (k : String) → IsReady h (missed k)
unfolding step join
missed-IsReady h k origin = elim (Option-cases (call_of k h.inflight)) [
  | inl e ↦ rw (e, join) (omega arith)
  | inr (c, e) ↦ rw (e, join) (omega arith)
]

reading-IsReady : (h : Hub) (k : String) (c : ℕ) → IsReady h (reading k c)
unfolding step underlying
reading-IsReady h k c origin = begun (origin k)
  where
    begun : (r : Result (List ℕ)) → rank (underlying r h k c).1 < 4
    begun (ok b) = omega arith
    begun (err e) = omega arith

forgotten-IsReady : (h : Hub) (k : String) (c : ℕ) (r : Result Slice) → IsReady h (forgotten k c r)
unfolding step cache_body
forgotten-IsReady h k c (ok s) origin = omega arith
forgotten-IsReady h k c (err e) origin = omega arith

leads-IsReady : (h : Hub) (c : ℕ) (t : Thread) → 1 ≤ leads c t → IsReady h t
unfolding step forget settle
leads-IsReady h c (start k) l = absurd (omega (arith, l))
leads-IsReady h c (missed k) l = absurd (omega (arith, l))
leads-IsReady h c (waiting k d) l = absurd (omega (arith, l))
leads-IsReady h c (reading k d) l = reading-IsReady h k d
leads-IsReady h c (read k d r) l = λ origin. omega arith
leads-IsReady h c (forgotten k d r) l = forgotten-IsReady h k d r
leads-IsReady h c (stored d r) l = λ origin. omega arith
leads-IsReady h c (returned r) l = absurd (omega (arith, l))

-- A thread of the list that can be brought nearer to its end.
ReadyIn : Hub → List Thread → Type 0
ReadyIn h ts = (i : ℕ) × (t : Thread) × (get_elem? ts i ≡ some t) × IsReady h t

ReadyIn-cons : (h : Hub) (t : Thread) (ts : List Thread) → ReadyIn h ts → ReadyIn h (t ∷ ts)
unfolding ReadyIn
ReadyIn-cons h t ts (i, u, e, r) = (suc i, u, e, r)

leader-ReadyIn : (h : Hub) (c : ℕ) (ts : List Thread) → 1 ≤ leaders c ts → ReadyIn h ts
unfolding leaders ReadyIn
leader-ReadyIn h c [] l = absurd (omega (arith, l))
leader-ReadyIn h c (t ∷ ts) l = elim (Bool-cases (leb 1 (leads c t))) [
  | inl e ↦ (0, t, refl, leads-IsReady h c t (ground (arith, e)))
  | inr e ↦ ReadyIn-cons h t ts (leader-ReadyIn h c ts (ground (arith, l, e)))
]

waiting-cases :
    (h : Hub) (k : String) (c : ℕ) (o : Option (Option (Result Slice)))
    → get_elem? h.calls c ≡ o
    → c < length h.calls
    → IsReady h (waiting k c) ⊎ ((d : ℕ) × (pending d h.calls ≡ 1))
waiting-cases h k c none e p = absurd (missing h.calls c e p)
  where
    missing :
        (calls : List (Option (Result Slice))) (c : ℕ)
        → get_elem? calls c ≡ none
        → c < length calls
        → ⊥
    missing [] c e p = omega (arith, p)
    missing (o ∷ calls) zero e p = cc
    missing (o ∷ calls) (suc c) e p = missing calls c e (omega (arith, p))
waiting-cases h k c (some none) e p = inr (c, ap is_pending e)
waiting-cases h k c (some (some r)) e p = inl (settled-IsReady h k c r e)

-- A thread has returned, or it is ready, or it waits for a call that is not settled.
thread-cases :
    (h : Hub) (t : Thread)
    → IsPlaced (length h.calls) t
    → IsReturned t ⊎ (IsReady h t ⊎ ((c : ℕ) × (pending c h.calls ≡ 1)))
thread-cases h (start k) p = inr (inl (start-IsReady h k))
thread-cases h (missed k) p = inr (inl (missed-IsReady h k))
thread-cases h (waiting k c) p = inr (waiting-cases h k c (get_elem? h.calls c) refl p)
thread-cases h (reading k c) p = inr (inl (reading-IsReady h k c))
thread-cases h (read k c r) p = inr (inl (leads-IsReady h c (read k c r) (ground arith)))
thread-cases h (forgotten k c r) p = inr (inl (forgotten-IsReady h k c r))
thread-cases h (stored c r) p = inr (inl (leads-IsReady h c (stored c r) (ground arith)))
thread-cases h (returned r) p = inl refl

scan :
    (h : Hub) (ts : List Thread)
    → All (IsPlaced (length h.calls)) ts
    → All IsReturned ts ⊎ (ReadyIn h ts ⊎ ((c : ℕ) × (pending c h.calls ≡ 1)))
unfolding ReadyIn
scan h [] p = inl tt
scan h (t ∷ ts) p = elim (thread-cases h t p.0) [
  | inl done ↦ elim (scan h ts p.1) [
    | inl all_done ↦ inl (done, all_done)
    | inr (inl ready) ↦ inr (inl (ReadyIn-cons h t ts ready))
    | inr (inr open_call) ↦ inr (inr open_call)
  ]
  | inr (inl ready) ↦ inr (inl (0, t, refl, ready))
  | inr (inr open_call) ↦ inr (inr open_call)
]

-- Waiters never wait for each other: while a request is unfinished some thread can go on.
progress : (s : System) → IsLed s → All IsReturned s.threads ⊎ ReadyIn s.hub s.threads
progress s v = elim (scan s.hub s.threads v.placed) [
  | inl all_done ↦ inl all_done
  | inr (inl ready) ↦ inr ready
  | inr (inr (c, e)) ↦ inr (leader-ReadyIn s.hub c s.threads (omega (arith, e, v.led c)))
]

work-set :
    (ts : List Thread) (i : ℕ) (t t' : Thread)
    → get_elem? ts i ≡ some t
    → work (set ts i t') + rank t ≡ work ts + rank t'
unfolding work
work-set [] i t t' h = cc
work-set (u ∷ ts) zero t t' h = ground arith
work-set (u ∷ ts) (suc i) t t' h = omega (arith, work-set ts i t t' h)

length-set : (ts : List Thread) (i : ℕ) (t : Thread) → length (set ts i t) ≡ length ts
length-set [] i t = refl
length-set (u ∷ ts) zero t = refl
length-set (u ∷ ts) (suc i) t = omega (arith, length-set ts i t)

-- So many steps of the threads, in which each read of the origin gets this origin's answer, and no
-- further request comes in.
pub data Runs (origin : String → Result (List ℕ)) : System → ℕ → System → Type 0 where
  none_left : {s : System} → Runs origin s 0 s
  then_step :
      {s u : System} {n : ℕ} (i : ℕ) (t : Thread)
      → get_elem? s.threads i ≡ some t
      → Runs origin
          (record {
            hub = (step origin s.hub t).0;
            threads = set s.threads i (step origin s.hub t).1;
          })
          n
          u
      → Runs origin s (suc n) u

-- A run of at most so many steps ends with every request of `s` returned.
abbrev pub FinishesWithin : (String → Result (List ℕ)) → ℕ → System → Type 0
FinishesWithin origin most s =
    (n : ℕ) × (u : System) × Runs origin s n u
    × (n ≤ most)
    × All IsReturned u.threads
    × (length u.threads ≡ length s.threads)

rank-at_most : (t : Thread) → rank t ≤ 6
rank-at_most (start k) = omega arith
rank-at_most (missed k) = omega arith
rank-at_most (reading k c) = omega arith
rank-at_most (read k c r) = omega arith
rank-at_most (forgotten k c r) = omega arith
rank-at_most (stored c r) = omega arith
rank-at_most (waiting k c) = omega arith
rank-at_most (returned r) = omega arith

work-at_most : (ts : List Thread) → work ts ≤ 6 * length ts
unfolding work
work-at_most [] = omega arith
work-at_most (t ∷ ts) = omega (arith, rank-at_most t, work-at_most ts)

module _ (origin : String → Result (List ℕ)) where
  finish_within :
      (most : ℕ) (s : System) → work s.threads ≤ most → IsLed s → FinishesWithin origin most s
  unfolding ReadyIn
  finish_within zero s le v = elim (progress s v) [
    | inl all_done ↦ (0, s, none_left, omega arith, all_done, refl)
    | inr (i, t, e, ready) ↦
        absurd (omega (arith, le, work-set s.threads i t (step origin s.hub t).1 e, ready origin))
  ]
  finish_within (suc most) s le v = elim (progress s v) [
    | inl all_done ↦ (0, s, none_left, omega arith, all_done, refl)
    | inr (i, t, e, ready) ↦
        let s' : System = record {
          hub = (step origin s.hub t).0;
          threads = set s.threads i (step origin s.hub t).1;
        } in
        let smaller = work-set s.threads i t (step origin s.hub t).1 e in
        let (n, u, r, few, done, len) =
          finish_within most s' (omega (arith, le, smaller, ready origin))
            (Step-IsLed (move i t origin e) v) in
        (
          suc n,
          u,
          then_step i t e r,
          omega (arith, few),
          done,
          len ∙ length-set s.threads i (step origin s.hub t).1,
        )
  ]

-- From any state of a new hub that requests and their steps in any order reached, and for any answers of
-- the origin from then on, errors included, there is a run of at most six steps for each request, reading
-- only that origin, after which every request that came in has returned.
pub completes :
    (max_bytes : ℤ) (s : System) (origin : String → Result (List ℕ))
    → Reach (new_system max_bytes) s
    → FinishesWithin origin (6 * length s.threads) s
completes max_bytes s origin r =
    finish_within origin (6 * length s.threads) s (work-at_most s.threads)
      (Reach-IsLed (new_system-IsLed max_bytes) r)
