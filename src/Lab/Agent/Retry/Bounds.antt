-- ===== src/Lab/Agent/Retry/Bounds.antt =====
-- How often and how long `retry` of internal/lab/agent.go waits.
use edge_delta_lab.Prelude.{
  ℕ, suc, ◌+◌, ◌≤◌, ◌≡◌, false, List, [], ◌∷◌, All, length, arith, Bool-cases, inl, inr,
}
use edge_delta_lab.Prelude.Int.{ℤ, pos, ◌≤ℤ◌}
use edge_delta_lab.Lab.Agent.{AgentOptions}
use edge_delta_lab.Lab.Agent.Retry.{
  Call, succeeds, refused, again, pause_of, next_delay, is_exhausted, retry_from, retry,
}

-- The server asks for no longer a pause than the largest backoff.
abbrev pub IsPatient : AgentOptions → Call → Type 0
IsPatient o succeeds = Unit
IsPatient o (refused e) = Unit
IsPatient o (again after e) = after ≤ℤ o.max_backoff

module _ (o : AgentOptions) (jitter : ℕ → ℤ → ℤ) where
  pause_of_le : (j after : ℤ) → after ≤ℤ o.max_backoff → pause_of o j after ≤ℤ o.max_backoff
  unfolding pause_of
  pause_of_le j after h = ground arith

  pauses_le :
      (calls : List Call) (attempt : ℕ) (delay : ℤ)
      → All (IsPatient o) calls
      → All (λ p. p ≤ℤ o.max_backoff) (retry_from o jitter attempt delay calls).pauses
  unfolding retry_from
  pauses_le [] attempt delay h = tt
  pauses_le (succeeds ∷ calls) attempt delay h = tt
  pauses_le (refused e ∷ calls) attempt delay h = tt
  pauses_le (again after e ∷ calls) attempt delay h = elim (Bool-cases (is_exhausted o attempt)) [
    | inl x ↦ rw x tt
    | inr x ↦ rw x (
      pause_of_le (jitter attempt delay) after h.0,
      pauses_le calls (suc attempt) (next_delay o delay) h.1,
    )
  ]

  not_exhausted :
      (n attempt : ℕ)
      → o.max_attempts ≡ pos (suc n)
      → is_exhausted o attempt ≡ false
      → suc attempt ≤ suc n
  unfolding is_exhausted
  not_exhausted n attempt m h = ground (arith, m, h)

  count_le :
      (n : ℕ) (calls : List Call) (attempt : ℕ) (delay : ℤ)
      → o.max_attempts ≡ pos (suc n)
      → attempt ≤ suc n
      → length (retry_from o jitter attempt delay calls).pauses + attempt ≤ suc n
  unfolding retry_from
  count_le n [] attempt delay m h = omega (arith, h)
  count_le n (succeeds ∷ calls) attempt delay m h = omega (arith, h)
  count_le n (refused e ∷ calls) attempt delay m h = omega (arith, h)
  count_le n (again after e ∷ calls) attempt delay m h =
      elim (Bool-cases (is_exhausted o attempt)) [
        | inl x ↦ rw x (omega (arith, h))
        | inr x ↦ rw x (
            omega (
              arith,
              count_le n calls (suc attempt) (next_delay o delay) m (not_exhausted n attempt m x),
            ))
      ]

  -- With a limit on the attempts there are fewer pauses than attempts allowed, and where the server
  -- asks for no longer pauses no pause is longer than the largest backoff, whatever the random
  -- factors and the results of the calls.
  retry_lem :
      (n : ℕ) (calls : List Call)
      → o.max_attempts ≡ pos (suc n)
      → All (IsPatient o) calls
      → (length (retry o jitter calls).pauses ≤ n)
        × All (λ p. p ≤ℤ o.max_backoff) (retry o jitter calls).pauses
  unfolding retry
  retry_lem n calls m h =
      (omega (arith, count_le n calls 1 o.backoff m (omega arith)), pauses_le calls 1 o.backoff h)
