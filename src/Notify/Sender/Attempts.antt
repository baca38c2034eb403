-- ===== src/Notify/Sender/Attempts.antt =====
-- How the retries of internal/notify/notify.go end.
use edge_delta_lab.Prelude.{
  ℕ, zero, suc, ◌+◌, ◌-◌, ◌*◌, ◌/◌, ◌^◌, ◌≤◌, ◌<◌, ◌≡◌, ◌≢◌, refl, String, Bool, true, false, ◌&&◌,
  Option, none, some, List, [], ◌∷◌, inl, inr, leb, ltb, ◌==◌, arith, Bool-cases,
}
use edge_delta_lab.Prelude.Int.{ℤ, pos, negsuc, pos_part, ◌≤ℤ◌, leb_ℤ, add64, wrap64, ◌+ℤ◌}
use edge_delta_lab.Lab.Agent.Retry.{half}
use edge_delta_lab.Notify.Sender.{
  Reply, unbuildable, unreachable, answered, delivered, rejected, panicked, Sending, Verdict, stop,
  go_on, seconds64, after_429, judge, pause_before, prepend, send_from, attempts_of, send,
}

-- The destination took the message.
unfoldable pub accepts : Reply → Bool
accepts (unbuildable e) = false
accepts (unreachable e) = false
accepts (answered status retry_after e) = leb 200 status && ltb status 300

-- A destination asks for no more than 10^9 seconds.
unfoldable pub IsPatient : Reply → Type 0
IsPatient (unbuildable e) = Unit
IsPatient (unreachable e) = Unit
IsPatient (answered status none e) = Unit
IsPatient (answered status (some secs) e) = secs ≤ 1000000000

-- How large a backoff may be for the attempts that are left.
limit : ℕ → ℕ
limit zero = 2 ^ 63 - 1
limit (suc n) = limit n / 2

IsSmall : ℕ → ℤ → Type 0
IsSmall zero b = Unit
IsSmall (suc n) b = (pos 0 ≤ℤ b) × (pos_part b ≤ limit n)

IsSmall-weaken : (n : ℕ) (b : ℤ) → IsSmall (suc n) b → IsSmall n b
unfolding IsSmall limit
IsSmall-weaken zero b h = tt
IsSmall-weaken (suc n) b h = (h.0, omega (arith, h.1))

limit_le : (n : ℕ) → limit n ≤ 2 ^ 63 - 1
unfolding limit
limit_le zero = omega arith
limit_le (suc n) = omega (arith, limit_le n)

twice-IsSmall : (n : ℕ) (b : ℤ) → IsSmall (suc n) b → IsSmall n (add64 b b)
unfolding IsSmall limit add64 wrap64 ◌+ℤ◌
twice-IsSmall zero b h = tt
twice-IsSmall (suc n) b h = ground (arith, h.0, h.1, limit_le n)

bound-positive :
    (n : ℕ) (b : ℤ) → IsSmall (suc n) b → leb_ℤ (add64 (half b) (pos 1)) (pos 0) ≡ false
unfolding IsSmall add64 wrap64 ◌+ℤ◌
bound-positive n (pos m) h = ground (arith, h.1, limit_le n)
bound-positive n (negsuc m) h = ground (arith, h.0)

-- For a small backoff the random number has a positive bound.
pause_before-IsSmall :
    (rand : ℕ → ℤ → ℤ) (n k : ℕ) (b : ℤ)
    → IsSmall (suc n) b
    → (p : List ℤ × ℤ) × (pause_before rand k b ≡ some p) × IsSmall n p.1
unfolding pause_before
pause_before-IsSmall rand n zero b h = (([], b), refl, IsSmall-weaken n b h)
pause_before-IsSmall rand n (suc k) b h = (
  (add64 b (rand (suc k) (add64 (half b) (pos 1))) ∷ [], add64 b b),
  rw (bound-positive n b h) refl,
  twice-IsSmall n b h,
)

IsSmall-second : (n secs : ℕ) → n ≤ 3 → secs ≤ 1000000000 → IsSmall n (seconds64 secs)
unfolding IsSmall limit seconds64 wrap64
IsSmall-second zero secs h p = tt
IsSmall-second (suc zero) secs h p = ground (arith, p)
IsSmall-second (suc (suc zero)) secs h p = ground (arith, p)
IsSmall-second (suc (suc (suc zero))) secs h p = ground (arith, p)
IsSmall-second (suc (suc (suc (suc n)))) secs h p = absurd (omega (arith, h))

IsSmall-start : (n : ℕ) → n ≤ 4 → IsSmall n (pos 500000000)
unfolding IsSmall limit
IsSmall-start zero h = tt
IsSmall-start (suc zero) h = ground arith
IsSmall-start (suc (suc zero)) h = ground arith
IsSmall-start (suc (suc (suc zero))) h = ground arith
IsSmall-start (suc (suc (suc (suc zero)))) h = ground arith
IsSmall-start (suc (suc (suc (suc (suc n))))) h = absurd (omega (arith, h))

-- What the loop may do after a request.
IsFair : ℕ → Reply → Verdict → Type 0
IsFair n r (stop delivered) = accepts r ≡ true
IsFair n r (stop (rejected e)) = Unit
IsFair n r (stop panicked) = ⊥
IsFair n r (go_on b e) = IsSmall n b

after_429-IsSmall :
    (n status : ℕ) (retry_after : Option ℕ) (e : String) (b : ℤ)
    → n ≤ 3
    → IsPatient (answered status retry_after e)
    → IsSmall n b
    → IsSmall n (after_429 retry_after b)
unfolding after_429 IsPatient
after_429-IsSmall n status none e b h p s = s
after_429-IsSmall n status (some secs) e b h p s = IsSmall-second n secs h p

judge-IsFair :
    (n : ℕ) (r : Reply) (b : ℤ) → n ≤ 3 → IsPatient r → IsSmall n b → IsFair n r (judge r b)
unfolding judge IsFair accepts
judge-IsFair n (unbuildable e) b h p s = tt
judge-IsFair n (unreachable e) b h p s = s
judge-IsFair n (answered status retry_after e) b h p s =
    elim (Bool-cases (leb 200 status && ltb status 300)) [
      | inl c ↦ rw c c
      | inr c ↦ rw c (elim (Bool-cases (status == 429)) [
        | inl d ↦ rw d (after_429-IsSmall n status retry_after e b h p s)
        | inr d ↦ rw d (elim (Bool-cases (leb 500 status)) [ inl f ↦ rw f s | inr f ↦ rw f tt ])
      ])
    ]

module _ (rand : ℕ → ℤ → ℤ) (reply : ℕ → Reply) (patient : (i : ℕ) → IsPatient (reply i)) where
  record IsSafe (n k : ℕ) (s : Sending) : Type 0 where
    whole : s.ending ≢ panicked
    bounded : s.tries ≤ n
    sound : s.ending ≡ delivered → (i : ℕ) × (k ≤ i) × (i < k + n) × (accepts (reply i) ≡ true)

  IsSafe-prepend : (n k : ℕ) (ds : List ℤ) (s : Sending) → IsSafe n k s → IsSafe n k (prepend ds s)
  IsSafe-prepend n k [] s h = h
  IsSafe-prepend n k (d ∷ ds) s h = record { whole = h.whole; bounded = h.bounded; sound = h.sound }

  send_from-IsSafe :
      (n k : ℕ) (b : ℤ) (last : String)
      → n ≤ 4
      → IsSmall n b
      → IsSafe n k (send_from rand reply n k b last)
  unfolding send_from IsFair
  send_from-IsSafe zero k b last h s = record {
    whole = λ e. ground (arith, e);
    bounded = omega arith;
    sound = λ e. ground (arith, e);
  }
  send_from-IsSafe (suc n) k b last h s =
      let (p, ready, small) = pause_before-IsSmall rand n k b s in
      rw (ready, send_from)
        (judged (judge (reply k) p.1) p.0
          (judge-IsFair n (reply k) p.1 (omega (arith, h)) (patient k) small)
          (λ b' e small'. send_from-IsSafe n (suc k) b' e (omega (arith, h)) small'))
    where
      judged :
          (v : Verdict) (ds : List ℤ)
          → IsFair n (reply k) v
          → ((b' : ℤ) (e : String)
              → IsSmall n b'
              → IsSafe n (suc k) (send_from rand reply n (suc k) b' e))
          → IsSafe (suc n) k (elim v [
            | stop r ↦ prepend ds (record { ending = r; tries = 1; pauses = [] })
            | go_on backoff' e ↦
                let rest = send_from rand reply n (suc k) backoff' e in
                prepend ds (record rest { tries = suc rest.tries })
          ])
      judged (stop delivered) ds f ih = IsSafe-prepend (suc n) k ds _ (record {
        whole = λ e. ground (arith, e);
        bounded = omega arith;
        sound = λ e. (k, omega arith, omega arith, f);
      })
      judged (stop (rejected e)) ds f ih = IsSafe-prepend (suc n) k ds _ (record {
        whole = λ q. ground (arith, q);
        bounded = omega arith;
        sound = λ q. ground (arith, q);
      })
      judged (stop panicked) ds f ih = absurd f
      judged (go_on b' e) ds f ih =
          let r = ih b' e f in
          IsSafe-prepend (suc n) k ds _ (record {
            whole = r.whole;
            bounded = omega (arith, r.bounded);
            sound = λ q.
                let (i, low, high, ok_i) = r.sound q in
                (i, omega (arith, low), omega (arith, high), ok_i);
          })

-- With at most four attempts, and while no destination asks for a longer pause than 10^9 seconds: the
-- loop returns, it makes no more requests than attempts, and it reports a delivery only where the
-- destination accepted a request.
pub send_lem :
    (rand : ℕ → ℤ → ℤ) (reply : ℕ → Reply) (max_attempts : ℤ)
    → ((i : ℕ) → IsPatient (reply i))
    → attempts_of max_attempts ≤ 4
    → ((send rand reply max_attempts).ending ≢ panicked)
      × ((send rand reply max_attempts).tries ≤ attempts_of max_attempts)
      × ((send rand reply max_attempts).ending ≡ delivered
          → (i : ℕ) × (i < attempts_of max_attempts) × (accepts (reply i) ≡ true))
unfolding send
send_lem rand reply max_attempts patient few =
    let r =
      send_from-IsSafe rand reply patient (attempts_of max_attempts) 0 (pos 500000000) "" few
        (IsSmall-start (attempts_of max_attempts) few) in
    (r.whole, r.bounded, λ e. let (i, _, high, ok_i) = r.sound e in (i, omega (arith, high), ok_i))

seconds64-negative :
    (secs : ℕ)
    → 2 ^ 63 ≤ secs * 1000000000
    → secs * 1000000000 < 2 ^ 64 - 1
    → (m : ℕ) × (seconds64 secs ≡ negsuc m) × (1 ≤ m) × (m < 2 ^ 63)
unfolding seconds64 wrap64
seconds64-negative secs low high = (
  2 ^ 64 - 1 - secs * 1000000000,
  ground (arith, low, high),
  omega (arith, low, high),
  omega (arith, low, high),
)

bound-not_positive :
    (m : ℕ) → 1 ≤ m → m < 2 ^ 63 → leb_ℤ (add64 (half (negsuc m)) (pos 1)) (pos 0) ≡ true
unfolding add64 wrap64 ◌+ℤ◌
bound-not_positive m one small = ground (arith, one, small)

second_panics :
    (rand : ℕ → ℤ → ℤ) (reply : ℕ → Reply) (secs : ℕ) (e : String)
    → reply 0 ≡ answered 429 (some secs) e
    → (m : ℕ) → seconds64 secs ≡ negsuc m
    → 1 ≤ m
    → m < 2 ^ 63
    → (n : ℕ) → 2 ≤ n
    → (send_from rand reply n 0 (pos 500000000) "").ending ≡ panicked
unfolding send_from pause_before judge after_429
second_panics rand reply secs e r m negative one small zero two = absurd (omega (arith, two))
second_panics rand reply secs e r m negative one small (suc zero) two = absurd (omega (arith, two))
second_panics rand reply secs e r m negative one small (suc (suc n)) two =
    rw (r, send_from)
      (rw (negative, send_from) (rw (bound-not_positive m one small, send_from) refl))

-- A 429 whose `Retry-After` wraps to a negative duration makes the next attempt panic.
pub huge_retry_after :
    (rand : ℕ → ℤ → ℤ) (reply : ℕ → Reply) (max_attempts : ℤ) (secs : ℕ) (e : String)
    → reply 0 ≡ answered 429 (some secs) e
    → 2 ^ 63 ≤ secs * 1000000000
    → secs * 1000000000 < 2 ^ 64 - 1
    → 2 ≤ attempts_of max_attempts
    → (send rand reply max_attempts).ending ≡ panicked
unfolding send
huge_retry_after rand reply max_attempts secs e r low high two =
    let (m, negative, one, small) = seconds64-negative secs low high in
    second_panics rand reply secs e r m negative one small (attempts_of max_attempts) two
