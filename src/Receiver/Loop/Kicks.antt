-- ===== src/Receiver/Loop/Kicks.antt =====
-- The loop of internal/receiverloop/run.go misses no announcement.
use edge_delta_lab.Prelude.{
  ℕ, suc, ◌<◌, ◌≡◌, ◌≢◌, String, refl, Bool, true, false, Result, ok, err, arith,
}
use edge_delta_lab.Lab.Agent.{Summary}
use edge_delta_lab.Receiver.Loop.{
  Place, syncing, waiting, returned, Loop, new_loop, on_announce, finish, Wake, timer, kicked, wake,
}

-- The cases of the `select` that can be taken: there is a kick, or the time is over.
pub data IsReady (l : Loop) : Wake → Type 0 where
  by_time : IsReady l timer
  by_kick : l.kick ≡ true → IsReady l kicked

-- What can happen, with the number of rounds begun and of the announcements accepted since the last
-- round began.
pub data Reach : Loop → ℕ → ℕ → Type 0 where
  start : Reach new_loop 1 0
  refused :
      {l : Loop} {rounds unseen : ℕ} (e : String)
      → Reach l rounds unseen
      → Reach (on_announce (err e) l) rounds unseen
  accepted :
      {l : Loop} {rounds unseen : ℕ}
      → Reach l rounds unseen
      → Reach (on_announce (ok tt) l) rounds (suc unseen)
  finished :
      {l : Loop} {rounds unseen : ℕ} (stop : Bool) (synced : Result Summary)
      (written : Result (Unit {0}))
      → l.place ≡ syncing
      → Reach l rounds unseen
      → Reach (finish stop synced written l) rounds unseen
  begun :
      {l : Loop} {rounds unseen : ℕ} {w : Wake}
      → l.place ≡ waiting
      → IsReady l w
      → Reach l rounds unseen
      → Reach (wake w false l) (suc rounds) 0
  stopped :
      {l : Loop} {rounds unseen : ℕ} (w : Wake) (stop : Bool)
      → l.place ≡ waiting
      → (wake w stop l).place ≡ returned
      → Reach l rounds unseen
      → Reach (wake w stop l) rounds unseen

-- An announcement that no round has begun after is in the channel, but where the loop has returned.
Reach-kick :
    {l : Loop} {rounds unseen : ℕ}
    → Reach l rounds unseen
    → l.place ≢ returned
    → 0 < unseen
    → l.kick ≡ true
unfolding on_announce finish wake
Reach-kick start live h = absurd (omega (arith, h))
Reach-kick (refused e r) live h = Reach-kick r live h
Reach-kick (accepted r) live h = refl
Reach-kick (finished true synced written p r) live h = absurd (live refl)
Reach-kick (finished false synced written p r) live h = Reach-kick r (λ e. cc) h
Reach-kick (begun p q r) live h = absurd (omega (arith, h))
Reach-kick (stopped w stop p q r) live h = absurd (live q)

-- The loop at its next `select`: a round that runs is ended first; `synced` and `written` are what it
-- comes to.
unfoldable pub at_select : Result Summary → Result (Unit {0}) → Place → Loop → Loop
unfolding finish
at_select synced written syncing l = finish false synced written l
at_select synced written waiting l = l
at_select synced written returned l = l

-- At its next `select` the loop has the kick, and taking it begins a round.
abbrev pub IsKicked : Loop → ℕ → Type 0
IsKicked l rounds =
    IsReady l kicked
    × Reach (wake kicked false l) (suc rounds) 0
    × ((wake kicked false l).place ≡ syncing)

at_select-IsKicked :
    (synced : Result Summary) (written : Result (Unit {0})) (place : Place) (l : Loop)
    (rounds unseen : ℕ)
    → l.place ≡ place
    → Reach l rounds unseen
    → place ≢ returned
    → 0 < unseen
    → IsKicked (at_select synced written place l) rounds
unfolding at_select finish wake
at_select-IsKicked synced written syncing l rounds unseen p r live h =
    let done = finished false synced written p r in
    let kick = by_kick (Reach-kick done (λ e. cc) h) in (kick, begun refl kick done, refl)
at_select-IsKicked synced written waiting l rounds unseen p r live h =
    let kick = by_kick (Reach-kick r (λ e. cc) h) in (kick, begun p kick r, refl)
at_select-IsKicked synced written returned l rounds unseen p r live h = absurd (live refl)

-- Over any order of announcements, rounds, timers and cancellations: after an announcement was accepted
-- that no round has begun after, and where the loop has not returned, the kick is in the channel at the
-- loop's next `select`, whatever a round that still runs comes to, and taking it begins a further round.
pub never_missed :
    {l : Loop} {rounds unseen : ℕ} (synced : Result Summary) (written : Result (Unit {0}))
    → Reach l rounds unseen
    → l.place ≢ returned
    → 0 < unseen
    → IsKicked (at_select synced written l.place l) rounds
never_missed {l} {rounds} {unseen} synced written r live h =
    at_select-IsKicked synced written l.place l rounds unseen refl r live h
