-- ===== src/Notify/Dispatcher/Accounts.antt =====
-- The dispatcher of internal/notify/notify.go loses no event without counting it, for each name of a
-- notifier.
use edge_delta_lab.Prelude.{
  ℕ, zero, suc, ◌+◌, ◌≡◌, refl, String, Bool, true, false, Option, none, some, List, [], ◌∷◌, inl,
  inr, length, length-append, ltb, ◌==◌, arith, Bool-cases, Option-cases, ==_iff, str_eq, eq_iff,
  if◌then◌else◌,
}
use edge_delta_lab.Prelude.Int.{ℤ}
use edge_delta_lab.Prelude.Dict.{Dict, lookup, count_of, lookup-insert}
use edge_delta_lab.Notify.Event.{Event}
use edge_delta_lab.Notify.Dispatcher.{
  NotifierQueue, Dispatcher, bump, new_queues, new_dispatcher, offer_event, dispatch, take_event,
  take_at, take, busy_at, idle_at, count_delivery, finish, close,
}

-- The counter of a name
abbrev pub counter : String → Dict ℕ → ℕ
counter name m = count_of (lookup name m)

-- 1 where the names are the same
abbrev same : String → String → ℕ
same name other = if str_eq other name then 1 else 0

busy_count : Option Event → ℕ
busy_count none = 0
busy_count (some e) = 1

module _ (name : String) where
  -- The events that wait in a channel of that name or are being delivered from it.
  unfoldable pub held : List NotifierQueue → ℕ
  unfolding busy_count
  held [] = 0
  held (q ∷ qs) =
      let rest = held qs in
      if str_eq q.name name then length q.ch + busy_count q.busy + rest else rest

  -- The queues of that name
  unfoldable pub queues_of : List NotifierQueue → ℕ
  queues_of [] = 0
  queues_of (q ∷ qs) = same name q.name + queues_of qs

  -- 1 for a delivery by a notifier of the name
  unfoldable pub named : Option String → ℕ
  named none = 0
  named (some n) = same name n

  counter-bump :
      (other : String) (m : Dict ℕ) → counter name (bump other m) ≡ same name other + counter name m
  unfolding bump count_of
  counter-bump other m =
      rw (lookup-insert other name (suc (count_of (lookup other m))) m)
        (elim (Bool-cases (str_eq other name)) [
          | inl e ↦ let eq = (eq_iff other name).0 e in rw (e, eq) (omega arith)
          | inr e ↦ rw e (omega arith)
        ])

  offer-held :
      (depth : ℕ) (e : Event) (qs : List NotifierQueue) (m : Dict ℕ)
      → held (offer_event depth e qs m).queues + counter name (offer_event depth e qs m).dropped
        ≡ held qs + counter name m + queues_of qs
  unfolding held queues_of offer_event
  offer-held depth e [] m = omega arith
  offer-held depth e (q ∷ qs) m = elim (Bool-cases (ltb (length q.ch) depth)) [
    | inl room ↦
        let rest = offer-held depth e qs m in
        rw room (ground (arith, rest, length-append q.ch (e ∷ [])))
    | inr full ↦
        let rest = offer-held depth e qs (bump q.name m) in
        rw full (ground (arith, rest, counter-bump q.name m))
  ]

  take_event-held :
      (q : NotifierQueue) (ch : List Event) (busy : Option Event)
      → q.ch ≡ ch
      → q.busy ≡ busy
      → (length (take_event q ch busy).ch + busy_count (take_event q ch busy).busy
          ≡ length q.ch + busy_count q.busy)
        × ((take_event q ch busy).name ≡ q.name)
  unfolding take_event busy_count
  take_event-held q (e ∷ ch) none ech eb = (rw (ech, eb) (omega arith), refl)
  take_event-held q [] none ech eb = (refl, refl)
  take_event-held q ch (some e) ech eb = (refl, refl)

  take_at-held : (i : ℕ) (qs : List NotifierQueue) → held (take_at i qs) ≡ held qs
  unfolding held take_at
  take_at-held i [] = refl
  take_at-held zero (q ∷ qs) =
      let taken = take_event-held q q.ch q.busy refl refl in rw taken.1 (ground (arith, taken.0))
  take_at-held (suc i) (q ∷ qs) = let rest = take_at-held i qs in rw rest refl

  idle_at-held :
      (i : ℕ) (qs : List NotifierQueue) → held (idle_at i qs) + named (busy_at i qs) ≡ held qs
  unfolding held idle_at busy_at named busy_count
  idle_at-held i [] = refl
  idle_at-held zero (q ∷ qs) = elim (Option-cases q.busy) [
    | inl e ↦ rw e (omega arith)
    | inr (b, e) ↦ rw e (ground arith)
  ]
  idle_at-held (suc i) (q ∷ qs) = let rest = idle_at-held i qs in ground (arith, rest)

  -- The dispatchers that are reached from a new one, in any order of the operations; with how often a
  -- notifier of the name was to get an event while the dispatcher was open, and how often one returned
  -- without an error and with one.
  pub data Reach (queue_depth : ℤ) (names : List String) : Dispatcher → ℕ → ℕ → ℕ → Type 0 where
    start : Reach queue_depth names (new_dispatcher queue_depth names) 0 0 0
    asked :
        {d : Dispatcher} {n good bad : ℕ}
        → (e : Event) → Reach queue_depth names d n good bad
        → Reach queue_depth names
            (dispatch e d).1
            (n + (if d.closed then 0 else queues_of d.queues))
            good
            bad
    taken :
        {d : Dispatcher} {n good bad : ℕ}
        → (i : ℕ) → Reach queue_depth names d n good bad
        → Reach queue_depth names (take i d) n good bad
    finished :
        {d : Dispatcher} {n good bad : ℕ}
        → (i : ℕ) (delivered : Bool) → Reach queue_depth names d n good bad
        → Reach queue_depth names
            (finish i delivered d)
            n
            ((if delivered then named (busy_at i d.queues) else 0) + good)
            ((if delivered then 0 else named (busy_at i d.queues)) + bad)
    shut :
        {d : Dispatcher} {n good bad : ℕ}
        → Reach queue_depth names d n good bad
        → Reach queue_depth names (close d) n good bad

  new_queues-held : (names : List String) → held (new_queues names) ≡ 0
  unfolding held new_queues busy_count
  new_queues-held [] = refl
  new_queues-held (n ∷ ns) = let rest = new_queues-held ns in ground (arith, rest)

  queues_of-empty : (qs : List NotifierQueue) → length qs ≡ 0 → queues_of qs ≡ 0
  unfolding queues_of
  queues_of-empty [] h = refl
  queues_of-empty (q ∷ qs) h = absurd (omega (arith, h))

  -- What a state has to say of the name
  pub record Accounted (d : Dispatcher) (n good bad : ℕ) : Type 0 where
    pub sent_eq : counter name d.sent ≡ good
    pub failed_eq : counter name d.failed ≡ bad
    pub balance :
        held d.queues + (counter name d.sent + counter name d.failed + counter name d.dropped) ≡ n

  dispatch-Accounted :
      (e : Event) (d : Dispatcher) (n good bad : ℕ)
      → Accounted d n good bad
      → Accounted (dispatch e d).1 (n + (if d.closed then 0 else queues_of d.queues)) good bad
  unfolding dispatch
  dispatch-Accounted e d n good bad a = elim (Bool-cases d.closed) [
    | inl is_shut ↦
        rw (is_shut, dispatch)
          (record {
            sent_eq = a.sent_eq;
            failed_eq = a.failed_eq;
            balance = omega (arith, a.balance);
          })
    | inr live ↦
        rw (live, dispatch)
          (elim (Bool-cases (length d.queues == 0)) [
            | inl z ↦
                rw (z, dispatch)
                  (record {
                    sent_eq = a.sent_eq;
                    failed_eq = a.failed_eq;
                    balance = omega (
                      arith,
                      a.balance,
                      queues_of-empty d.queues ((==_iff (length d.queues) 0).0 z),
                    );
                  })
            | inr z ↦
                rw (z, dispatch)
                  (record {
                    sent_eq = a.sent_eq;
                    failed_eq = a.failed_eq;
                    balance = omega (arith, a.balance, offer-held d.depth e d.queues d.dropped);
                  })
          ])
  ]

  -- The counters after a delivery, for the name or none that was busy
  counted :
      (busy : Option String) (delivered : Bool) (d : Dispatcher)
      → (counter name (count_delivery busy delivered d).sent
          ≡ (if delivered then named busy else 0) + counter name d.sent)
        × (counter name (count_delivery busy delivered d).failed
            ≡ (if delivered then 0 else named busy) + counter name d.failed)
        × ((count_delivery busy delivered d).dropped ≡ d.dropped)
        × ((count_delivery busy delivered d).queues ≡ d.queues)
  unfolding count_delivery named
  counted none true d = (omega arith, omega arith, refl, refl)
  counted none false d = (omega arith, omega arith, refl, refl)
  counted (some n) true d = (counter-bump n d.sent, omega arith, refl, refl)
  counted (some n) false d = (omega arith, counter-bump n d.failed, refl, refl)

  finish-Accounted :
      (i : ℕ) (delivered : Bool) (d : Dispatcher) (n good bad : ℕ)
      → Accounted d n good bad
      → Accounted
          (finish i delivered d)
          n
          ((if delivered then named (busy_at i d.queues) else 0) + good)
          ((if delivered then 0 else named (busy_at i d.queues)) + bad)
  unfolding finish
  finish-Accounted i delivered d n good bad a =
      let idle = record d { queues = idle_at i d.queues } in
      let (s, f, dr, qs) = counted (busy_at i d.queues) delivered idle in
      let h = idle_at-held i d.queues in
      record {
        sent_eq = omega (arith, s, a.sent_eq);
        failed_eq = omega (arith, f, a.failed_eq);
        balance = rw (dr, qs) (ground (arith, s, f, h, a.balance));
      }

  -- In whatever order events are dispatched, taken and delivered and the dispatcher is closed, and for
  -- every name: `sent` counts the deliveries of its notifiers without an error and `failed` those with one,
  -- and each event that they were to get while the dispatcher was open is waiting or being delivered, or
  -- counted once as sent, failed or dropped.
  pub accounts :
      {queue_depth : ℤ} {names : List String} {d : Dispatcher} {n good bad : ℕ}
      → Reach queue_depth names d n good bad
      → Accounted d n good bad
  unfolding new_dispatcher take close
  accounts {names = names} start =
      unfold lookup in
      unfold count_of in
      record { sent_eq = refl; failed_eq = refl; balance = omega (arith, new_queues-held names) }
  accounts (asked {d = d} {n = n} {good = good} {bad = bad} e r) =
      dispatch-Accounted e d n good bad (accounts r)
  accounts (taken {d = d} i r) =
      let a = accounts r in
      record {
        sent_eq = a.sent_eq;
        failed_eq = a.failed_eq;
        balance = omega (arith, a.balance, take_at-held i d.queues);
      }
  accounts (finished {d = d} {n = n} {good = good} {bad = bad} i delivered r) =
      finish-Accounted i delivered d n good bad (accounts r)
  accounts (shut r) =
      let a = accounts r in
      record { sent_eq = a.sent_eq; failed_eq = a.failed_eq; balance = a.balance }
