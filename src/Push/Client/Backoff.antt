-- ===== src/Push/Client/Backoff.antt =====
-- The pauses of the push client of internal/push/push.go.
use edge_delta_lab.Prelude.{
  ℕ, suc, ◌+◌, ◌-◌, ◌/◌, ◌^◌, ◌≤◌, ◌<◌, ◌≡◌, refl, List, [], ◌∷◌, All, arith, Bool-cases, ltb,
  if◌then◌else◌, inl, inr,
}
use edge_delta_lab.Prelude.Int.{ℤ, pos, negsuc, ◌≤ℤ◌, ◌+ℤ◌, wrap64, add64, ltb_ℤ}
use edge_delta_lab.Push.Client.{
  ClientOptions, Dial, refused, connected, initial, cap, jitter, min_duration, next_backoff,
  run_from, run,
}

-- A pause between half of the lowest backoff and all of the highest.
abbrev pub Between : ℕ → ℕ → ℤ → Type 0
Between least most p = (pos (least / 2) ≤ℤ p) × (p ≤ℤ pos most)

-- The lower and the higher of the first backoff and the limit.
abbrev pub lower : ClientOptions → ℕ
lower o =
    let first = initial o.backoff in
    let most = cap first o.max_backoff in if ltb first most then first else most

abbrev pub higher : ClientOptions → ℕ
higher o =
    let first = initial o.backoff in
    let most = cap first o.max_backoff in if ltb first most then most else first

twice : (b : ℕ) → b < 2 ^ 62 → add64 (pos b) (pos b) ≡ pos (b + b)
unfolding add64 wrap64 ◌+ℤ◌
twice b lt = ground (arith, lt)

jitter-Between :
    (int63n : ℕ → ℕ) (least most b : ℕ)
    → ((n : ℕ) → 0 < n → int63n n < n)
    → 0 < b
    → least ≤ b
    → b ≤ most
    → Between least most (jitter int63n (pos b))
unfolding jitter
jitter-Between int63n least most b draw gt lo hi =
    let d = draw (b - b / 2 + 1) (omega arith) in ground (arith, d, gt, lo, hi)

next_backoff_between :
    (least most top b : ℕ)
    → least ≤ b
    → b < 2 ^ 62
    → least ≤ most
    → most ≤ top
    → (c : ℕ) × (next_backoff most (pos b) ≡ pos c) × (least ≤ c) × (c ≤ top)
unfolding next_backoff min_duration
next_backoff_between least most top b lo lt le hi =
    rw (twice b lt) (elim (Bool-cases (ltb_ℤ (pos (b + b)) (pos most))) [
      | inl f ↦ rw f (b + b, refl, omega (arith, lo), ground (arith, f, hi))
      | inr f ↦ rw f (most, refl, le, hi)
    ])

module _ (o : ClientOptions) (draw : (i n : ℕ) → 0 < n → o.int63n i n < n)
    (first most least top : ℕ) (gt : 0 < least) (starts : (least ≤ first) × (first ≤ top))
    (limited : (least ≤ most) × (most ≤ top)) (small : top < 2 ^ 62) where
  run_from-Between :
      (i b : ℕ) (ds : List Dial)
      → least ≤ b
      → b ≤ top
      → All (Between least top) (run_from o first most i (pos b) ds).pauses
  unfolding run_from
  run_from-Between i b [] lo hi = tt
  run_from-Between i b (refused ∷ ds) lo hi =
      let (c, e, lo', hi') =
        next_backoff_between least most top b lo (omega (arith, hi, small)) limited.0 limited.1 in
      (
        jitter-Between (o.int63n i) least top b (draw i) (omega (arith, gt, lo)) lo hi,
        rw e (run_from-Between (suc i) c ds lo' hi'),
      )
  run_from-Between i b (connected msgs ∷ ds) lo hi =
      let (c, e, lo', hi') =
        next_backoff_between least most top first starts.0 (omega (arith, starts.1, small))
          limited.0 limited.1 in
      (
        jitter-Between (o.int63n i) least top first (draw i) (omega (arith, gt, starts.0)) starts.0
            starts.1,
        rw e (run_from-Between (suc i) c ds lo' hi'),
      )

initial-pos : (d : ℤ) → 0 < initial d
unfolding initial
initial-pos (pos n) = ground arith
initial-pos (negsuc n) = omega arith

cap-pos : (first : ℕ) (d : ℤ) → 0 < first → 0 < cap first d
unfolding cap
cap-pos first (pos n) gt = ground (arith, gt)
cap-pos first (negsuc n) gt = omega arith

-- Over any dials and connections, each pause of Run is at least half of the lower, and at most all of
-- the higher, of the first backoff and the limit with their defaults, where the higher is below 2^62
-- nanoseconds and rand.Int63n gives numbers below its bound.
pub pauses_lem :
    (o : ClientOptions) (ds : List Dial)
    → higher o < 2 ^ 62
    → ((i n : ℕ) → 0 < n → o.int63n i n < n)
    → All (Between (lower o) (higher o)) (run o ds).pauses
unfolding run
pauses_lem o ds small draw =
    let first = initial o.backoff in
    let most = cap first o.max_backoff in
    let gt = initial-pos o.backoff in
    let gt' = cap-pos first o.max_backoff gt in
    run_from-Between o draw first most (lower o) (higher o) (ground (arith, gt, gt'))
      (ground arith, ground arith) (ground arith, ground arith) small 0 first ds (ground arith)
      (ground arith)
