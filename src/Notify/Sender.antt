-- ===== src/Notify/Sender.antt =====
-- `httpSender.attempt` of internal/notify/notify.go. What a request comes to is an argument, for each
-- attempt, as is the random number. The context is never cancelled, as in the dispatcher. Durations
-- are int64 nanoseconds with the wrap-around of Go.
pub mod Attempts
use edge_delta_lab.Prelude.{
  ℕ, zero, suc, ◌+◌, ◌*◌, String, Bool, true, false, ◌&&◌, Option, none, some, List, [], ◌∷◌,
  if◌then◌else◌, leb, ltb, ◌==◌,
}
use edge_delta_lab.Prelude.Int.{ℤ, pos, negsuc, leb_ℤ, add64, wrap64}
use edge_delta_lab.Lab.Agent.Retry.{half}

-- What one request came to; an answer has its status and its `Retry-After`, if that is a number of
-- seconds that is not negative.
pub data Reply : Type 0 where
  unbuildable : String → Reply
  unreachable : String → Reply
  answered : ℕ → Option ℕ → String → Reply

-- `rand.Int63n` panics where its bound is not positive.
pub data Ending : Type 0 where
  delivered : Ending
  rejected : String → Ending
  panicked : Ending

pub record Sending : Type 0 where
  pub ending : Ending
  pub tries : ℕ
  pub pauses : List ℤ

-- What the loop does after a request.
pub data Verdict : Type 0 where
  stop : Ending → Verdict
  go_on : ℤ → String → Verdict

-- `time.Duration(secs) * time.Second`
unfoldable pub seconds64 : ℕ → ℤ
unfolding wrap64
seconds64 secs = wrap64 (pos (secs * 1000000000))

unfoldable pub after_429 : Option ℕ → ℤ → ℤ
unfolding seconds64
after_429 none backoff = backoff
after_429 (some secs) backoff = seconds64 secs

unfoldable pub judge : Reply → ℤ → Verdict
unfolding after_429
judge (unbuildable e) backoff = stop (rejected e)
judge (unreachable e) backoff = go_on backoff e
judge (answered status retry_after e) backoff =
    if leb 200 status && ltb status 300
    then stop delivered
    else if status == 429
    then go_on (after_429 retry_after backoff) e
    else if leb 500 status
    then go_on backoff e
    else stop (rejected e)

-- The pause before an attempt that is not the first: none where `rand.Int63n` panics.
unfoldable pub pause_before : (ℕ → ℤ → ℤ) → ℕ → ℤ → Option (List ℤ × ℤ)
pause_before rand zero backoff = some ([], backoff)
pause_before rand (suc k) backoff =
    let bound = add64 (half backoff) (pos 1) in
    if leb_ℤ bound (pos 0)
    then none
    else some (add64 backoff (rand (suc k) bound) ∷ [], add64 backoff backoff)

abbrev pub prepend : List ℤ → Sending → Sending
prepend [] s = s
prepend (d ∷ ds) s = record s { pauses = d ∷ s.pauses }

-- `max <= 0` is the default of four attempts.
unfoldable pub attempts_of : ℤ → ℕ
attempts_of (pos zero) = 4
attempts_of (pos (suc n)) = suc n
attempts_of (negsuc n) = 4

module _ (rand : ℕ → ℤ → ℤ) (reply : ℕ → Reply) where
  -- The loop, with the attempts that are left, the number of this one, and `lastErr`.
  unfoldable pub send_from : ℕ → ℕ → ℤ → String → Sending
  unfolding pause_before judge
  send_from zero k backoff last = record { ending = rejected last; tries = 0; pauses = [] }
  send_from (suc n) k backoff last = elim (pause_before rand k backoff) [
    | none ↦ record { ending = panicked; tries = 0; pauses = [] }
    | some p ↦ elim (judge (reply k) p.1) [
      | stop r ↦ prepend p.0 (record { ending = r; tries = 1; pauses = [] })
      | go_on backoff' e ↦
          let rest = send_from n (suc k) backoff' e in
          prepend p.0 (record rest { tries = suc rest.tries })
    ]
  ]

  unfoldable pub send : ℤ → Sending
  unfolding send_from attempts_of
  send max_attempts = send_from (attempts_of max_attempts) 0 (pos 500000000) ""
