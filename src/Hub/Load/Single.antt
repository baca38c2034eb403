-- ===== src/Hub/Load/Single.antt =====
-- Requests that interleave: of one object at most one read of the origin is in flight.
use edge_delta_lab.Prelude.{
  Result, ok, err, ℕ, zero, suc, ◌+◌, ◌≤◌, ◌≡◌, refl, String, none, some, List, [], ◌∷◌, arith,
  eq_iff, if◌then◌else◌, str_eq, get_elem?, set,
}
use edge_delta_lab.Prelude.Int.{ℤ}
use edge_delta_lab.Hub.Load.{
  Hub, Thread, start, missed, waiting, reading, read, forgotten, stored, returned, allocate,
  copy_out, try_cache, call_of, join, underlying, remove_call, forget, cache_body, settle, wake,
  await, step, new_hub,
}

-- A thread that has registered a call for `rel` and has not yet taken it off the map.
abbrev pub active_of : String → Thread → ℕ
active_of rel (reading k _) = if str_eq k rel then 1 else 0
active_of rel (read k _ _) = if str_eq k rel then 1 else 0
active_of rel _ = 0

unfoldable pub active : String → List Thread → ℕ
active rel [] = 0
active rel (t ∷ ts) = active_of rel t + active rel ts

unfoldable pub calls_for : String → List (String × ℕ) → ℕ
calls_for rel [] = 0
calls_for rel ((k, _) ∷ m) = if str_eq k rel then suc (calls_for rel m) else calls_for rel m

pub record System : Type 0 where
  pub hub : Hub
  pub threads : List Thread

-- A request arrives, or some thread makes a step, whatever the origin holds then.
pub data Step (s : System) : System → Type 0 where
  arrive : (rel : String) → Step s (record s { threads = start rel ∷ s.threads })
  move :
      (i : ℕ) (t : Thread) (origin : String → Result (List ℕ))
      → get_elem? s.threads i ≡ some t
      → Step s (record {
        hub = (step origin s.hub t).0;
        threads = set s.threads i (step origin s.hub t).1;
      })

pub data Reach (s : System) : System → Type 0 where
  here : Reach s s
  next : {t u : System} → Reach s t → Step t u → Reach s u

pub record IsSingle (s : System) : Type 0 where
  pub matched : (rel : String) → active rel s.threads ≡ calls_for rel s.hub.inflight
  pub one : (rel : String) → calls_for rel s.hub.inflight ≤ 1

active-set :
    (rel : String) (ts : List Thread) (i : ℕ) (t t' : Thread)
    → get_elem? ts i ≡ some t
    → active rel (set ts i t') + active_of rel t ≡ active rel ts + active_of rel t'
unfolding active
active-set rel [] i t t' h = cc
active-set rel (u ∷ ts) zero t t' h = ground arith
active-set rel (u ∷ ts) (suc i) t t' h = omega (arith, active-set rel ts i t t' h)

calls_for-remove :
    (rel k : String) (m : List (String × ℕ))
    → calls_for rel (remove_call k m) ≡ (if str_eq k rel then 0 else calls_for rel m)
unfolding calls_for remove_call
calls_for-remove rel k [] = ground arith
calls_for-remove rel k ((j, c) ∷ m) =
    ground (arith, calls_for-remove rel k m, eq_iff j k, eq_iff j rel, eq_iff k rel)

calls_for_of_none :
    (rel : String) (m : List (String × ℕ)) → call_of rel m ≡ none → calls_for rel m ≡ 0
unfolding calls_for call_of
calls_for_of_none rel [] h = refl
calls_for_of_none rel ((j, c) ∷ m) h = ground (arith, calls_for_of_none rel m)

-- What one step does to the calls for `rel` and to the thread's own share.
abbrev Balanced : String → Hub → Thread → Hub × Thread → Type 0
Balanced rel h t r =
    (calls_for rel r.0.inflight + active_of rel t ≡ calls_for rel h.inflight + active_of rel r.1)
    × (calls_for rel r.0.inflight ≤ 1)

step-Balanced :
    (rel : String) (origin : String → Result (List ℕ)) (h : Hub) (t : Thread)
    → ((k : String) → calls_for k h.inflight ≤ 1)
    → active_of rel t ≤ calls_for rel h.inflight
    → Balanced rel h t (step origin h t)
unfolding step try_cache copy_out allocate join underlying forget cache_body settle wake await
    calls_for
step-Balanced rel origin h (start k) one own = ground (arith, one rel)
step-Balanced rel origin h (missed k) one own =
    ground (arith, eq_iff k rel, calls_for_of_none k h.inflight, one rel)
step-Balanced rel origin h (waiting k c) one own = ground (arith, one rel)
step-Balanced rel origin h (reading k c) one own = ground (arith, one rel)
step-Balanced rel origin h (read k c r) one own =
    ground (arith, one rel, calls_for-remove rel k h.inflight)
step-Balanced rel origin h (forgotten k c (ok s)) one own = ground (arith, one rel)
step-Balanced rel origin h (forgotten k c (err e)) one own = ground (arith, one rel)
step-Balanced rel origin h (stored c r) one own = ground (arith, one rel)
step-Balanced rel origin h (returned r) one own = ground (arith, one rel)

active-at :
    (rel : String) (ts : List Thread) (i : ℕ) (t : Thread)
    → get_elem? ts i ≡ some t
    → active_of rel t ≤ active rel ts
unfolding active
active-at rel [] i t h = cc
active-at rel (u ∷ ts) zero t h = ground arith
active-at rel (u ∷ ts) (suc i) t h = omega (arith, active-at rel ts i t h)

Step-IsSingle : {s u : System} → Step s u → IsSingle s → IsSingle u
Step-IsSingle (arrive rel) v = record {
  matched = λ k. unfold active in omega (arith, v.matched k);
  one = v.one;
}
Step-IsSingle {s} (move i t origin at_i) v = record {
  matched = λ k.
      let (b, _) = balanced k in
      omega (arith, b, v.matched k, active-set k s.threads i t (step origin s.hub t).1 at_i);
  one = λ k. (balanced k).1;
}
  where
    balanced : (k : String) → Balanced k s.hub t (step origin s.hub t)
    balanced k =
        step-Balanced k origin s.hub t v.one
          (omega (arith, v.matched k, active-at k s.threads i t at_i))

Reach-IsSingle : {s u : System} → IsSingle s → Reach s u → IsSingle u
Reach-IsSingle v here = v
Reach-IsSingle v (next r st) = Step-IsSingle st (Reach-IsSingle v r)

unfoldable pub new_system : ℤ → System
unfolding new_hub
new_system max_bytes = record { hub = new_hub max_bytes; threads = [] }

new_system-IsSingle : (max_bytes : ℤ) → IsSingle (new_system max_bytes)
unfolding new_system active calls_for
new_system-IsSingle max_bytes = record { matched = λ k. refl; one = λ k. omega arith }

-- From a new hub, however requests for any objects interleave and whatever the origin answers, at
-- most one thread has registered a read of a given object, and it has one exactly when the map of
-- reads in flight has an entry for the object.
pub single_flight :
    (max_bytes : ℤ) (u : System) (rel : String)
    → Reach (new_system max_bytes) u
    → (active rel u.threads ≤ 1) × (active rel u.threads ≡ calls_for rel u.hub.inflight)
single_flight max_bytes u rel r =
    let v = Reach-IsSingle (new_system-IsSingle max_bytes) r in
    (omega (arith, v.matched rel, v.one rel), v.matched rel)
