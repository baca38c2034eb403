-- ===== src/Push/Broker/Laws.antt =====
-- The buffers of the broker of internal/push/push.go, over any sequence of its operations.
use edge_delta_lab.Prelude.{
  ℕ, suc, ◌+◌, ◌≤◌, ◌≡◌, refl, true, List, [], ◌∷◌, length, ltb, ◌==◌, All, arith, length-append,
  Bool-cases, inl, inr,
}
use edge_delta_lab.Push.Broker.{
  Announce, Sub, Broker, sub_buffer, new_broker, offer, is_full, offer_all, count_full, announce,
  subscribe, without, cancel, taken, take_one, receive, snapshot,
}

-- What can happen to a broker.
pub data Step : Broker → Broker → Type 0 where
  announces : (a : Announce) (b : Broker) → Step b (announce a b)
  subscribes : (b : Broker) → Step b (subscribe b).1
  cancels : (i : ℕ) (b : Broker) → Step b (cancel i b)
  receives : (i : ℕ) (b : Broker) → Step b (receive i b)

pub data Reach : Broker → Type 0 where
  start : Reach new_broker
  next : {b b' : Broker} → Reach b → Step b b' → Reach b'

abbrev pub Fits : Sub → Type 0
Fits s = length s.ch ≤ sub_buffer

-- Announcements that wait in the buffers.
unfoldable pub waiting : List Sub → ℕ
waiting [] = 0
waiting (s ∷ ss) = length s.ch + waiting ss

offer_all-Fits : (a : Announce) (ss : List Sub) → All Fits ss → All Fits (offer_all a ss)
unfolding offer_all offer
offer_all-Fits a [] h = tt
offer_all-Fits a (s ∷ ss) h = (
  elim (Bool-cases (ltb (length s.ch) sub_buffer)) [
    | inl e ↦ rw e (omega (arith, length-append s.ch (a ∷ []), lt s e))
    | inr e ↦ rw e h.0
  ],
  offer_all-Fits a ss h.1,
)
  where
    lt : (s : Sub) → ltb (length s.ch) sub_buffer ≡ true → suc (length s.ch) ≤ sub_buffer
    lt s e = ground (arith, e)

without-Fits : (i : ℕ) (ss : List Sub) → All Fits ss → All Fits (without i ss)
unfolding without
without-Fits i [] h = tt
without-Fits i (s ∷ ss) h = elim (Bool-cases (s.id == i)) [
  | inl e ↦ rw e (without-Fits i ss h.1)
  | inr e ↦ rw e (h.0, without-Fits i ss h.1)
]

take_one-Fits : (i : ℕ) (ss : List Sub) → All Fits ss → All Fits (take_one i ss)
unfolding take_one
take_one-Fits i [] h = tt
take_one-Fits i (s ∷ ss) h = elim (Bool-cases (s.id == i)) [
  | inl e ↦ rw e (taken-Fits s.ch s.id h.0, h.1)
  | inr e ↦ rw e (h.0, take_one-Fits i ss h.1)
]
  where
    taken-Fits :
        (ch : List Announce) (id : ℕ)
        → length ch ≤ sub_buffer
        → Fits (taken (record { id = id; ch = ch }))
    taken-Fits [] id h = h
    taken-Fits (a ∷ as') id h = omega (arith, h)

Reach-Fits : {b : Broker} → Reach b → All Fits b.subs
unfolding announce subscribe cancel receive
Reach-Fits start = tt
Reach-Fits (next r (announces a b)) = offer_all-Fits a b.subs (Reach-Fits r)
Reach-Fits (next r (subscribes b)) = (omega arith, Reach-Fits r)
Reach-Fits (next r (cancels i b)) = without-Fits i b.subs (Reach-Fits r)
Reach-Fits (next r (receives i b)) = take_one-Fits i b.subs (Reach-Fits r)

offered :
    (a : Announce) (ss : List Sub)
    → waiting (offer_all a ss) + count_full ss ≡ waiting ss + length ss
unfolding waiting offer_all count_full offer is_full
offered a [] = refl
offered a (s ∷ ss) = elim (Bool-cases (ltb (length s.ch) sub_buffer)) [
  | inl e ↦ rw e (omega (arith, offered a ss, length-append s.ch (a ∷ [])))
  | inr e ↦ rw e (omega (arith, offered a ss))
]

length-offer_all : (a : Announce) (ss : List Sub) → length (offer_all a ss) ≡ length ss
unfolding offer_all
length-offer_all a [] = refl
length-offer_all a (s ∷ ss) = omega (arith, length-offer_all a ss)

announce-accounts :
    (a : Announce) (b : Broker)
    → ((snapshot (announce a b)).announced ≡ suc (snapshot b).announced)
      × (waiting (announce a b).subs + (snapshot (announce a b)).dropped
          ≡ waiting b.subs + (snapshot b).dropped + (snapshot b).subscribers)
      × ((snapshot (announce a b)).subscribers ≡ (snapshot b).subscribers)
unfolding announce snapshot
announce-accounts a b = (refl, omega (arith, offered a b.subs), length-offer_all a b.subs)

-- In every broker that any sequence of announcements, subscriptions, cancellations and reads reaches, no
-- subscriber's buffer holds more than 32 announcements, and a further announcement is counted once: the
-- announcements that wait in buffers and the drops counted grow together by the number of subscribers, and
-- that number stays.
pub broker_lem :
    {b : Broker}
    → Reach b
    → All Fits b.subs
      × ((a : Announce)
          → ((snapshot (announce a b)).announced ≡ suc (snapshot b).announced)
            × (waiting (announce a b).subs + (snapshot (announce a b)).dropped
                ≡ waiting b.subs + (snapshot b).dropped + (snapshot b).subscribers)
            × ((snapshot (announce a b)).subscribers ≡ (snapshot b).subscribers))
broker_lem {b} r = (Reach-Fits r, λ a. announce-accounts a b)
