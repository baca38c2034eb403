-- ===== src/Tests/Receiver.antt =====
-- An announcement that is accepted while the receiver's loop is in a round.
use edge_delta_lab.Prelude.{◌≢◌, ok, err, arith}
use edge_delta_lab.Receiver.Loop.{Place, new_loop, on_announce}
use edge_delta_lab.Receiver.Loop.Kicks.{
  Reach, start, accepted, refused, IsKicked, at_select, never_missed,
}

announced : Reach (on_announce (ok tt) (on_announce (err "unsigned") new_loop)) 1 1
announced = accepted (refused "unsigned" start)

still_live : (on_announce (ok tt) (on_announce (err "unsigned") new_loop)).place ≢ Place.returned
unfolding on_announce
still_live e = cc

never_missed_example :
    IsKicked
      (at_select
        (err "offline")
        (ok tt)
        (on_announce (ok tt) (on_announce (err "unsigned") new_loop)).place
        (on_announce (ok tt) (on_announce (err "unsigned") new_loop)))
      1
never_missed_example = never_missed (err "offline") (ok tt) announced still_live (omega arith)
