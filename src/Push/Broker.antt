-- ===== src/Push/Broker.antt =====
-- internal/push/push.go: the broker. A subscriber's channel is the list of what it holds, and a
-- subscriber has a number in place of its address. The lock makes each operation one step; the
-- websocket around the broker is left out.
pub mod Laws
use edge_delta_lab.Prelude.{
  ℕ, suc, ◌+◌, String, Bool, true, false, List, [], ◌∷◌, ◌++◌, if◌then◌else◌, length, ltb, ◌==◌,
  Option, none, some,
}

pub record Announce : Type 0 where
  pub kind : String
  pub release : String
  pub sequence : ℕ
  pub digest : String
  pub envelope : List ℕ

pub record Sub : Type 0 where
  pub id : ℕ
  pub ch : List Announce

-- `next` numbers the subscribers.
pub record Broker : Type 0 where
  pub subs : List Sub
  pub dropped : ℕ
  pub announced : ℕ
  pub next : ℕ

pub record Stats : Type 0 where
  pub subscribers : ℕ
  pub announced : ℕ
  pub dropped : ℕ

abbrev pub sub_buffer : ℕ
sub_buffer = 32

abbrev pub new_broker : Broker
new_broker = record { subs = []; dropped = 0; announced = 0; next = 0 }

-- `select { case s.ch <- a: default: }`
unfoldable pub offer : Announce → Sub → Sub
offer a s = if ltb (length s.ch) sub_buffer then record s { ch = s.ch ++ a ∷ [] } else s

unfoldable pub is_full : Sub → Bool
is_full s = if ltb (length s.ch) sub_buffer then false else true

unfoldable pub offer_all : Announce → List Sub → List Sub
offer_all a [] = []
offer_all a (s ∷ ss) = offer a s ∷ offer_all a ss

unfoldable pub count_full : List Sub → ℕ
count_full [] = 0
count_full (s ∷ ss) = let n = count_full ss in if is_full s then suc n else n

unfoldable pub announce : Announce → Broker → Broker
announce a b = record b {
  subs = offer_all a b.subs;
  dropped = b.dropped + count_full b.subs;
  announced = suc b.announced;
}

-- It returns the number of the subscriber.
unfoldable pub subscribe : Broker → ℕ × Broker
subscribe b =
    (b.next, record b { subs = record { id = b.next; ch = [] } ∷ b.subs; next = suc b.next })

unfoldable pub without : ℕ → List Sub → List Sub
without i [] = []
without i (s ∷ ss) = let rest = without i ss in if s.id == i then rest else s ∷ rest

unfoldable pub cancel : ℕ → Broker → Broker
unfolding without
cancel i b = record b { subs = without i b.subs }

-- The first announcement in the channel of a subscriber, for its reader.
unfoldable pub received : ℕ → List Sub → Option Announce
received i [] = none
received i (s ∷ ss) = if s.id == i then head s.ch else received i ss
  where
    head : List Announce → Option Announce
    head [] = none
    head (a ∷ as') = some a

taken : Sub → Sub
taken s = record s { ch = tail s.ch }
  where
    tail : List Announce → List Announce
    tail [] = []
    tail (a ∷ as') = as'

unfoldable pub take_one : ℕ → List Sub → List Sub
unfolding taken
take_one i [] = []
take_one i (s ∷ ss) = if s.id == i then taken s ∷ ss else s ∷ take_one i ss

-- What a reader does to the broker by `<-ch`.
unfoldable pub receive : ℕ → Broker → Broker
unfolding take_one
receive i b = record b { subs = take_one i b.subs }

unfoldable pub count : Broker → ℕ
count b = length b.subs

unfoldable pub snapshot : Broker → Stats
snapshot b = record { subscribers = length b.subs; announced = b.announced; dropped = b.dropped }
