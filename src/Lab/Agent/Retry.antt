-- ===== src/Lab/Agent/Retry.antt =====
-- `retry` of internal/lab/agent.go. The calls of the function come as a list of what each gives; the
-- context is cancelled when the list ends. The random factor of a pause is an argument.
pub mod Bounds
use edge_delta_lab.Prelude.{
  ℕ, suc, ◌/◌, ◌-◌, String, Bool, true, false, ◌&&◌, List, [], ◌∷◌, if◌then◌else◌, Result, ok, err,
  ◌==◌,
}
use edge_delta_lab.Prelude.Int.{ℤ, pos, negsuc, ltb_ℤ, leb_ℤ, add64}
use edge_delta_lab.Lab.Agent.{AgentOptions}

-- One call: success, an error that ends the retries, or one to try again `after` this long at least.
pub data Call : Type 0 where
  succeeds : Call
  refused : String → Call
  again : ℤ → String → Call

-- How the loop ended, and the pauses that it made.
pub record Retried : Type 0 where
  pub result : Result (Unit {0})
  pub pauses : List ℤ

-- `d / 2` on int64
abbrev pub half : ℤ → ℤ
half (pos n) = pos (n / 2)
half (negsuc n) = if suc n / 2 == 0 then pos 0 else negsuc (suc n / 2 - 1)

-- The pause before the next attempt, from the delay with its random factor.
unfoldable pub pause_of : AgentOptions → ℤ → ℤ → ℤ
pause_of o jittered after =
    let d = if ltb_ℤ o.max_backoff jittered then o.max_backoff else jittered in
    if ltb_ℤ d after then after else d

unfoldable pub next_delay : AgentOptions → ℤ → ℤ
next_delay o delay = if ltb_ℤ delay (half o.max_backoff) then add64 delay delay else o.max_backoff

-- `o.MaxAttempts > 0 && attempt >= o.MaxAttempts`
unfoldable pub is_exhausted : AgentOptions → ℕ → Bool
is_exhausted o attempt = ltb_ℤ (pos 0) o.max_attempts && leb_ℤ o.max_attempts (pos attempt)

module _ (o : AgentOptions) (jitter : ℕ → ℤ → ℤ) where
  unfoldable pub retry_from : ℕ → ℤ → List Call → Retried
  retry_from attempt delay [] = record { result = err "cancelled"; pauses = [] }
  retry_from attempt delay (succeeds ∷ calls) = record { result = ok tt; pauses = [] }
  retry_from attempt delay (refused e ∷ calls) = record { result = err e; pauses = [] }
  retry_from attempt delay (again after e ∷ calls) =
      let rest = retry_from (suc attempt) (next_delay o delay) calls in
      if is_exhausted o attempt
      then record { result = err e; pauses = [] }
      else record rest { pauses = pause_of o (jitter attempt delay) after ∷ rest.pauses }

  unfoldable pub retry : List Call → Retried
  unfolding retry_from
  retry calls = retry_from 1 o.backoff calls
