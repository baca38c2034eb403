-- ===== src/Notify/Dispatcher.antt =====
-- The dispatcher of internal/notify/notify.go. A queue is the list of what its channel holds, with the
-- event that its goroutine is delivering; each operation under the lock is one step. The counters do
-- not reach 2 ^ 64.
pub mod Accounts
use edge_delta_lab.Prelude.{
  ℕ, zero, suc, ◌+◌, String, Bool, true, false, not, ◌&&◌, ◌||◌, Option, none, some, List, [], ◌∷◌,
  ◌++◌, if◌then◌else◌, length, ltb, ◌==◌,
}
use edge_delta_lab.Prelude.Int.{ℤ, pos, negsuc}
use edge_delta_lab.Prelude.Dict.{Dict, lookup, insert, count_of}
use edge_delta_lab.Notify.Event.{Event}

pub record NotifierQueue : Type 0 where
  pub name : String
  pub ch : List Event
  pub busy : Option Event

pub record Dispatcher : Type 0 where
  pub queues : List NotifierQueue
  pub depth : ℕ
  pub dropped : Dict ℕ
  pub sent : Dict ℕ
  pub failed : Dict ℕ
  pub closed : Bool

unfoldable pub bump : String → Dict ℕ → Dict ℕ
unfolding count_of
bump name m = insert name (suc (count_of (lookup name m))) m

unfoldable pub depth_of : ℤ → ℕ
depth_of (pos zero) = 64
depth_of (pos (suc n)) = suc n
depth_of (negsuc n) = 64

unfoldable pub new_queues : List String → List NotifierQueue
new_queues [] = []
new_queues (n ∷ ns) = record { name = n; ch = []; busy = none } ∷ new_queues ns

unfoldable pub new_dispatcher : ℤ → List String → Dispatcher
unfolding depth_of new_queues
new_dispatcher queue_depth names = record {
  queues = new_queues names;
  depth = depth_of queue_depth;
  dropped = [];
  sent = [];
  failed = [];
  closed = false;
}

pub record Offered : Type 0 where
  pub queues : List NotifierQueue
  pub dropped : Dict ℕ
  pub all_taken : Bool

-- The loop of `Dispatch`
unfoldable pub offer_event : ℕ → Event → List NotifierQueue → Dict ℕ → Offered
unfolding bump
offer_event depth e [] dropped = record { queues = []; dropped = dropped; all_taken = true }
offer_event depth e (q ∷ qs) dropped =
    let room = ltb (length q.ch) depth in
    let rest = offer_event depth e qs (if room then dropped else bump q.name dropped) in
    record {
      queues = (if room then record q { ch = q.ch ++ e ∷ [] } else q) ∷ rest.queues;
      dropped = rest.dropped;
      all_taken = room && rest.all_taken;
    }

unfoldable pub dispatch : Event → Dispatcher → Bool × Dispatcher
unfolding offer_event
dispatch e d =
    let r = offer_event d.depth e d.queues d.dropped in
    if d.closed || length d.queues == 0
    then (true, d)
    else (r.all_taken, record d { queues = r.queues; dropped = r.dropped })

-- A goroutine of `consume` that is idle takes the next event of its channel.
unfoldable pub take_event : NotifierQueue → List Event → Option Event → NotifierQueue
take_event q (e ∷ ch) none = record q { ch = ch; busy = some e }
take_event q [] none = q
take_event q ch (some e) = q

unfoldable pub take_at : ℕ → List NotifierQueue → List NotifierQueue
unfolding take_event
take_at i [] = []
take_at zero (q ∷ qs) = take_event q q.ch q.busy ∷ qs
take_at (suc i) (q ∷ qs) = q ∷ take_at i qs

unfoldable pub take : ℕ → Dispatcher → Dispatcher
unfolding take_at
take i d = record d { queues = take_at i d.queues }

-- The name of the notifier at `i`, where its goroutine is delivering.
unfoldable pub busy_at : ℕ → List NotifierQueue → Option String
busy_at i [] = none
busy_at zero (q ∷ qs) = named q.busy
  where
    named : Option Event → Option String
    named none = none
    named (some e) = some q.name
busy_at (suc i) (q ∷ qs) = busy_at i qs

unfoldable pub idle_at : ℕ → List NotifierQueue → List NotifierQueue
idle_at i [] = []
idle_at zero (q ∷ qs) = record q { busy = none } ∷ qs
idle_at (suc i) (q ∷ qs) = q ∷ idle_at i qs

unfoldable pub count_delivery : Option String → Bool → Dispatcher → Dispatcher
unfolding bump
count_delivery none delivered d = d
count_delivery (some name) true d = record d { sent = bump name d.sent }
count_delivery (some name) false d = record d { failed = bump name d.failed }

-- `Notify` returned, without an error or with one.
unfoldable pub finish : ℕ → Bool → Dispatcher → Dispatcher
unfolding count_delivery idle_at busy_at
finish i delivered d =
    count_delivery (busy_at i d.queues) delivered (record d { queues = idle_at i d.queues })

-- `Close`, up to its wait for the goroutines.
unfoldable pub close : Dispatcher → Dispatcher
close d = record d { closed = true }

pub record NotifierStats : Type 0 where
  pub sent : ℕ
  pub failed : ℕ
  pub dropped : ℕ

unfoldable pub stats_from : Dispatcher → List NotifierQueue → Dict NotifierStats
unfolding count_of
stats_from d [] = []
stats_from d (q ∷ qs) =
    insert q.name
      (record {
        sent = count_of (lookup q.name d.sent);
        failed = count_of (lookup q.name d.failed);
        dropped = count_of (lookup q.name d.dropped);
      })
      (stats_from d qs)

-- `Stats`, with the numbers in place of their text
unfoldable pub stats : Dispatcher → Dict NotifierStats
unfolding stats_from
stats d = stats_from d d.queues
