-- ===== src/Hub/Load/Leaders.antt =====
-- Requests that interleave in internal/hub/hub.go: which thread settles a call.
use edge_delta_lab.Prelude.{
  Result, ok, err, ℕ, zero, suc, ◌+◌, ◌≤◌, ◌<◌, ◌≡◌, refl, String, Option, none, some, List, [],
  ◌∷◌, ◌++◌, ◌⊎◌, inl, inr, arith, length, length-append, ◌==◌, if◌then◌else◌, str_eq, get_elem?,
  set, All, Bool-cases, Option-cases, if-elim,
}
use edge_delta_lab.Prelude.Int.{ℤ}
use edge_delta_lab.Hub.Lru
use edge_delta_lab.Hub.Load.{
  Hub, Slice, Thread, start, missed, waiting, reading, read, forgotten, stored, returned, allocate,
  copy_out, try_cache, call_of, join, underlying, remove_call, forget, cache_body, settle, wake,
  await, step, new_hub,
}
use edge_delta_lab.Hub.Load.Single.{System, Step, arrive, move, Reach, here, next, new_system}

-- A thread that will settle the call `c`.
abbrev pub leads : ℕ → Thread → ℕ
leads c (reading _ d) = if c == d then 1 else 0
leads c (read _ d _) = if c == d then 1 else 0
leads c (forgotten _ d _) = if c == d then 1 else 0
leads c (stored d _) = if c == d then 1 else 0
leads c _ = 0

unfoldable pub leaders : ℕ → List Thread → ℕ
leaders c [] = 0
leaders c (t ∷ ts) = leads c t + leaders c ts

abbrev pub is_pending : Option (Option (Result Slice)) → ℕ
is_pending none = 0
is_pending (some none) = 1
is_pending (some (some r)) = 0

-- 1 where the call `c` is registered and not settled
abbrev pub pending : ℕ → List (Option (Result Slice)) → ℕ
pending c calls = is_pending (get_elem? calls c)

-- A waiter waits for a call that was registered.
abbrev pub IsPlaced : ℕ → Thread → Type 0
IsPlaced n (waiting _ c) = c < n
IsPlaced n _ = Unit

abbrev pub IsKnown : ℕ → String × ℕ → Type 0
IsKnown n (k, c) = c < n

pub record IsLed (s : System) : Type 0 where
  pub led : (c : ℕ) → pending c s.hub.calls ≤ leaders c s.threads
  pub placed : All (IsPlaced (length s.hub.calls)) s.threads
  pub registered : All (IsKnown (length s.hub.calls)) s.hub.inflight

pending-append :
    (c : ℕ) (calls : List (Option (Result Slice)))
    → pending c (calls ++ none ∷ []) ≡ pending c calls + (if c == length calls then 1 else 0)
pending-append zero [] = omega arith
pending-append (suc c) [] = ground arith
pending-append zero (o ∷ calls) = ground arith
pending-append (suc c) (o ∷ calls) = ground (arith, pending-append c calls)

pending-set :
    (c d : ℕ) (calls : List (Option (Result Slice))) (r : Result Slice)
    → pending c (set calls d (some r)) ≤ (if c == d then 0 else pending c calls)
pending-set c d [] r = ground arith
pending-set zero zero (o ∷ calls) r = ground arith
pending-set zero (suc d) (o ∷ calls) r = ground arith
pending-set (suc c) zero (o ∷ calls) r = ground arith
pending-set (suc c) (suc d) (o ∷ calls) r = ground (arith, pending-set c d calls r)

length-set :
    (calls : List (Option (Result Slice))) (d : ℕ) (r : Option (Result Slice))
    → length (set calls d r) ≡ length calls
length-set [] d r = refl
length-set (o ∷ calls) zero r = refl
length-set (o ∷ calls) (suc d) r = omega (arith, length-set calls d r)

IsKnown-weaken :
    (m n : ℕ) (es : List (String × ℕ)) → m ≤ n → All (IsKnown m) es → All (IsKnown n) es
IsKnown-weaken m n [] h q = tt
IsKnown-weaken m n ((k, c) ∷ es) h q = (omega (arith, h, q.0), IsKnown-weaken m n es h q.1)

IsPlaced-weaken_one : (m n : ℕ) (t : Thread) → m ≤ n → IsPlaced m t → IsPlaced n t
IsPlaced-weaken_one m n (start k) h q = tt
IsPlaced-weaken_one m n (missed k) h q = tt
IsPlaced-weaken_one m n (waiting k c) h q = omega (arith, h, q)
IsPlaced-weaken_one m n (reading k c) h q = tt
IsPlaced-weaken_one m n (read k c r) h q = tt
IsPlaced-weaken_one m n (forgotten k c r) h q = tt
IsPlaced-weaken_one m n (stored c r) h q = tt
IsPlaced-weaken_one m n (returned r) h q = tt

-- One thread changes, and the bound grows.
IsPlaced-set :
    (m n : ℕ) (ts : List Thread) (i : ℕ) (t' : Thread)
    → m ≤ n
    → All (IsPlaced m) ts
    → IsPlaced n t'
    → All (IsPlaced n) (set ts i t')
IsPlaced-set m n [] i t' h q p = tt
IsPlaced-set m n (t ∷ ts) zero t' h q p = (p, all ts q.1)
  where
    all : (us : List Thread) → All (IsPlaced m) us → All (IsPlaced n) us
    all [] r = tt
    all (u ∷ us) r = (IsPlaced-weaken_one m n u h r.0, all us r.1)
IsPlaced-set m n (t ∷ ts) (suc i) t' h q p =
    (IsPlaced-weaken_one m n t h q.0, IsPlaced-set m n ts i t' h q.1 p)

call_of-IsKnown :
    (n : ℕ) (rel : String) (es : List (String × ℕ)) (c : ℕ)
    → All (IsKnown n) es
    → call_of rel es ≡ some c
    → c < n
unfolding call_of
call_of-IsKnown n rel [] c q h = ground (arith, h)
call_of-IsKnown n rel ((k, d) ∷ es) c q h = ground (arith, q.0, h, call_of-IsKnown n rel es c q.1)

remove_call-IsKnown :
    (n : ℕ) (rel : String) (es : List (String × ℕ))
    → All (IsKnown n) es
    → All (IsKnown n) (remove_call rel es)
unfolding remove_call
remove_call-IsKnown n rel [] q = tt
remove_call-IsKnown n rel ((k, d) ∷ es) q =
    if-elim (All (IsKnown n)) (str_eq k rel) (λ e. remove_call-IsKnown n rel es q.1)
      (λ e. (q.0, remove_call-IsKnown n rel es q.1))

leaders-set :
    (c : ℕ) (ts : List Thread) (i : ℕ) (t t' : Thread)
    → get_elem? ts i ≡ some t
    → leaders c (set ts i t') + leads c t ≡ leaders c ts + leads c t'
unfolding leaders
leaders-set c [] i t t' h = cc
leaders-set c (u ∷ ts) zero t t' h = ground arith
leaders-set c (u ∷ ts) (suc i) t t' h = omega (arith, leaders-set c ts i t t' h)

IsPlaced-at :
    (n : ℕ) (ts : List Thread) (i : ℕ) (t : Thread)
    → All (IsPlaced n) ts
    → get_elem? ts i ≡ some t
    → IsPlaced n t
IsPlaced-at n [] i t q h = cc
IsPlaced-at n (u ∷ ts) zero t q h = let e : u ≡ t = cc in rw⁻¹ e q.0
IsPlaced-at n (u ∷ ts) (suc i) t q h = IsPlaced-at n ts i t q.1 h

-- What one step does to the calls.
record IsFairStep (h : Hub) (t : Thread) (r : Hub × Thread) : Type 0 where
  grown : length h.calls ≤ length r.0.calls
  placed' : IsPlaced (length r.0.calls) r.1
  registered' : All (IsKnown (length r.0.calls)) r.0.inflight
  handed :
      (c : ℕ)
      → (pending c r.0.calls ≡ 0)
        ⊎ (pending c r.0.calls + leads c t ≤ pending c h.calls + leads c r.1)

-- A step that neither registers nor settles a call.
quiet :
    (h h' : Hub) (t t' : Thread)
    → h'.calls ≡ h.calls
    → All (IsKnown (length h.calls)) h'.inflight
    → IsPlaced (length h.calls) t'
    → ((c : ℕ) → leads c t ≤ leads c t')
    → IsFairStep h t (h', t')
quiet h h' t t' e known at lead = record {
  grown = rw e (omega arith);
  placed' = rw e at;
  registered' = rw e known;
  handed = λ c. inr (rw e (omega (arith, lead c)));
}

wake-IsFairStep :
    (h : Hub) (k : String) (c : ℕ) (r : Result Slice)
    → All (IsKnown (length h.calls)) h.inflight
    → IsFairStep h (waiting k c) (wake h k r)
unfolding wake copy_out allocate
wake-IsFairStep h k c (err e) known =
    quiet h h (waiting k c) (returned (err e)) refl known tt (λ d. omega arith)
wake-IsFairStep h k c (ok s) known = elim (Option-cases ((Lru.get h.lru k).1)) [
  | inl e ↦ rw (e, wake) (quiet h _ (waiting k c) _ refl known tt (λ d. omega arith))
  | inr (s', e) ↦ rw (e, wake) (quiet h _ (waiting k c) _ refl known tt (λ d. omega arith))
]

await-IsFairStep :
    (h : Hub) (k : String) (c : ℕ)
    → All (IsKnown (length h.calls)) h.inflight
    → c < length h.calls
    → (o : Option (Option (Result Slice))) → get_elem? h.calls c ≡ o
    → IsFairStep h (waiting k c) (await h k c)
unfolding await
await-IsFairStep h k c known at none e =
    rw (e, await) (quiet h h (waiting k c) (waiting k c) refl known at (λ d. omega arith))
await-IsFairStep h k c known at (some none) e =
    rw (e, await) (quiet h h (waiting k c) (waiting k c) refl known at (λ d. omega arith))
await-IsFairStep h k c known at (some (some r)) e = rw (e, await) (wake-IsFairStep h k c r known)

join-IsFairStep :
    (h : Hub) (k : String) (o : Option ℕ)
    → call_of k h.inflight ≡ o
    → All (IsKnown (length h.calls)) h.inflight
    → IsFairStep h (missed k) (join h k)
unfolding join
join-IsFairStep h k (some c) e known =
    rw (e, join)
      (quiet h _ (missed k) (waiting k c) refl known
        (call_of-IsKnown (length h.calls) k h.inflight c known e) (λ d. omega arith))
join-IsFairStep h k none e known =
    let len = length-append h.calls (none ∷ []) in
    rw (e, join)
      (record {
        grown = omega (arith, len);
        placed' = tt;
        registered' = (
          omega (arith, len),
          IsKnown-weaken (length h.calls) _ h.inflight (omega (arith, len)) known,
        );
        handed = λ c. inr (omega (arith, pending-append c h.calls));
      })

step-IsFairStep :
    (origin : String → Result (List ℕ)) (h : Hub) (t : Thread)
    → All (IsKnown (length h.calls)) h.inflight
    → IsPlaced (length h.calls) t
    → IsFairStep h t (step origin h t)
unfolding step try_cache copy_out allocate underlying forget cache_body settle
step-IsFairStep origin h (start k) known at = elim (Option-cases ((Lru.get h.lru k).1)) [
  | inl e ↦ rw (e, try_cache) (quiet h _ (start k) _ refl known tt (λ d. omega arith))
  | inr (s, e) ↦ rw (e, try_cache) (quiet h _ (start k) _ refl known tt (λ d. omega arith))
]
step-IsFairStep origin h (missed k) known at = join-IsFairStep h k (call_of k h.inflight) refl known
step-IsFairStep origin h (waiting k c) known at =
    await-IsFairStep h k c known at (get_elem? h.calls c) refl
step-IsFairStep origin h (reading k c) known at = begun (origin k)
  where
    begun : (r : Result (List ℕ)) → IsFairStep h (reading k c) (underlying r h k c)
    begun (ok b) = quiet h _ (reading k c) _ refl known tt (λ d. omega arith)
    begun (err e) = quiet h _ (reading k c) _ refl known tt (λ d. omega arith)
step-IsFairStep origin h (read k c r) known at =
    quiet h _ (read k c r) _ refl (remove_call-IsKnown (length h.calls) k h.inflight known) tt
      (λ d. omega arith)
step-IsFairStep origin h (forgotten k c (ok s)) known at =
    quiet h _ (forgotten k c (ok s)) _ refl known tt (λ d. omega arith)
step-IsFairStep origin h (forgotten k c (err e)) known at =
    quiet h _ (forgotten k c (err e)) _ refl known tt (λ d. omega arith)
step-IsFairStep origin h (stored c r) known at =
    let len = length-set h.calls c (some r) in
    record {
      grown = omega (arith, len);
      placed' = tt;
      registered' = IsKnown-weaken (length h.calls) _ h.inflight (omega (arith, len)) known;
      handed = λ d. elim (Bool-cases (d == c)) [
        | inl e ↦ inl (let p = pending-set d c h.calls r in let q = rw e at p in omega (arith, q))
        | inr e ↦
            inr (let p = pending-set d c h.calls r in let q = rw e at p in rw e (omega (arith, q)))
      ];
    }
step-IsFairStep origin h (returned r) known at =
    quiet h h (returned r) (returned r) refl known tt (λ d. omega arith)

pub Step-IsLed : {s u : System} → Step s u → IsLed s → IsLed u
Step-IsLed (arrive rel) v = record {
  led = λ c. unfold leaders in omega (arith, v.led c);
  placed = (tt, v.placed);
  registered = v.registered;
}
Step-IsLed {s} (move i t origin at_i) v =
    let f =
      step-IsFairStep origin s.hub t v.registered
        (IsPlaced-at (length s.hub.calls) s.threads i t v.placed at_i) in
    record {
      led = λ c.
          let m = leaders-set c s.threads i t (step origin s.hub t).1 at_i in
          elim (f.handed c) [ inl e ↦ omega (arith, e) | inr e ↦ omega (arith, e, m, v.led c) ];
      placed =
          IsPlaced-set (length s.hub.calls) _ s.threads i (step origin s.hub t).1 f.grown v.placed
            f.placed';
      registered = f.registered';
    }

pub Reach-IsLed : {s u : System} → IsLed s → Reach s u → IsLed u
Reach-IsLed v here = v
Reach-IsLed v (next r st) = Step-IsLed st (Reach-IsLed v r)

pub new_system-IsLed : (max_bytes : ℤ) → IsLed (new_system max_bytes)
unfolding new_system new_hub leaders
new_system-IsLed max_bytes = record { led = λ c. omega arith; placed = tt; registered = tt }
