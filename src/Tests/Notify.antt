-- ===== src/Tests/Notify.antt =====
-- Runs of the notifications.
use edge_delta_lab.Prelude.{
  ℕ, zero, suc, ◌≤◌, ◌<◌, ◌≡◌, ◌≢◌, arith, true, false, none, some, [], ◌∷◌,
}
use edge_delta_lab.Prelude.Int.{ℤ, pos}
use edge_delta_lab.Notify.Event.{Event}
use edge_delta_lab.Notify.Sender.{
  Reply, unreachable, answered, delivered, panicked, send, attempts_of,
}
use edge_delta_lab.Notify.Sender.Attempts.{IsPatient, accepts, send_lem}
use edge_delta_lab.Notify.Dispatcher.{Dispatcher, new_dispatcher, dispatch, take, finish, busy_at}
use edge_delta_lab.Notify.Dispatcher.Accounts.{
  Reach, start, asked, taken, finished, queues_of, named, Accounted, accounts,
}

abbrev no_noise : ℕ → ℤ → ℤ
no_noise i bound = pos 0

-- The first request is lost, the second is put off by 2 s, the others are accepted.
abbrev flaky : ℕ → Reply
flaky zero = unreachable "refused"
flaky (suc zero) = answered 429 (some 2) "slow down"
flaky (suc (suc i)) = answered 204 none ""

flaky-IsPatient : (i : ℕ) → IsPatient (flaky i)
unfolding IsPatient
flaky-IsPatient zero = tt
flaky-IsPatient (suc zero) = omega arith
flaky-IsPatient (suc (suc i)) = tt

four_le : attempts_of (pos 4) ≤ 4
unfolding attempts_of
four_le = omega arith

two_le : 2 ≤ attempts_of (pos 4)
unfolding attempts_of
two_le = omega arith

send_lem_example :
    ((send no_noise flaky (pos 4)).ending ≢ panicked)
    × ((send no_noise flaky (pos 4)).tries ≤ attempts_of (pos 4))
    × ((send no_noise flaky (pos 4)).ending ≡ delivered
        → (i : ℕ) × (i < attempts_of (pos 4)) × (accepts (flaky i) ≡ true))
send_lem_example = send_lem no_noise flaky (pos 4) flaky-IsPatient four_le

abbrev far_away : ℕ → Reply
far_away i = answered 429 (some 10000000000) "much later"

abbrev offline_event : Event
offline_event = record {
  kind = "device_offline";
  repo = "";
  tag = "";
  digest = "";
  release = "r1";
  detail = "";
  time = 7;
}

abbrev fresh : Dispatcher
fresh = new_dispatcher (pos 1) ("ops" ∷ "chat" ∷ [])

-- Two events for two notifiers with room for one; the first notifier fails on its first event.
abbrev two_events : Dispatcher
two_events = finish 0 false (dispatch offline_event (take 0 (dispatch offline_event fresh).1)).1

two_events-Reach : Reach "ops" (pos 1) ("ops" ∷ "chat" ∷ []) two_events 2 0 1
unfolding new_dispatcher dispatch take queues_of named busy_at
two_events-Reach = finished 0 false (asked offline_event (taken 0 (asked offline_event start)))

accounts_example : Accounted "ops" two_events 2 0 1
accounts_example = accounts "ops" two_events-Reach
