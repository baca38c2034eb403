-- ===== src/Push/Client.antt =====
-- internal/push/push.go: the client that stays subscribed (Run). The dials and what each connection
-- brings are given; the context ends when they are used up, just before the next dial. The timers of
-- pings and reads are left out.
pub mod Backoff
use edge_delta_lab.Prelude.{
  ℕ, suc, ◌+◌, ◌-◌, ◌*◌, ◌/◌, ◌^◌, List, [], ◌∷◌, ◌++◌, Option, none, some, if◌then◌else◌, ltb,
  ◌==◌,
}
use edge_delta_lab.Prelude.Int.{ℤ, pos, negsuc, add64, ltb_ℤ}
use edge_delta_lab.Push.Broker.{Announce}

-- The durations of `ClientOptions`, in nanoseconds, and what the client calls: `json.Unmarshal`, and
-- `rand.Int63n` for the pause with this number.
pub record ClientOptions : Type 0 where
  pub backoff : ℤ
  pub max_backoff : ℤ
  pub unmarshal : List ℕ → Option Announce
  pub int63n : ℕ → ℕ → ℕ

-- A dial that fails, or a connection with the messages up to the first error
pub data Dial : Type 0 where
  refused : Dial
  connected : List (List ℕ) → Dial

-- The calls of `OnAnnounce` and of `sleep`
pub record Trace : Type 0 where
  pub announced : List Announce
  pub pauses : List ℤ

unfoldable pub initial : ℤ → ℕ
initial (pos n) = if n == 0 then 1000000000 else n
initial (negsuc n) = 1000000000

unfoldable pub cap : ℕ → ℤ → ℕ
cap first (pos n) = if ltb n first then 30000000000 else n
cap first (negsuc n) = 30000000000

unfoldable pub jitter : (ℕ → ℕ) → ℤ → ℤ
jitter int63n (negsuc n) = negsuc n
jitter int63n (pos n) = if n == 0 then pos n else pos (n / 2 + int63n (n - n / 2 + 1))

unfoldable pub min_duration : ℤ → ℤ → ℤ
min_duration a b = if ltb_ℤ a b then a else b

-- `minDuration(backoff*2, o.MaxBackoff)`
unfoldable pub next_backoff : ℕ → ℤ → ℤ
unfolding min_duration
next_backoff most d = min_duration (add64 d d) (pos most)

-- The loop over the messages of a connection
unfoldable pub read_all : (List ℕ → Option Announce) → List (List ℕ) → List Announce
read_all unmarshal [] = []
read_all unmarshal (msg ∷ msgs) =
    let rest = read_all unmarshal msgs in elim (unmarshal msg) [ none ↦ rest | some a ↦ a ∷ rest ]

abbrev pub then_sleep : List Announce → ℤ → Trace → Trace
then_sleep found d t = record { announced = found ++ t.announced; pauses = d ∷ t.pauses }

-- The loop of `Run`, from pause `i` on
unfoldable pub run_from : ClientOptions → (first most i : ℕ) → ℤ → List Dial → Trace
unfolding jitter next_backoff read_all
run_from o first most i d [] = record { announced = []; pauses = [] }
run_from o first most i d (refused ∷ ds) =
    then_sleep [] (jitter (o.int63n i) d) (run_from o first most (suc i) (next_backoff most d) ds)
run_from o first most i d (connected msgs ∷ ds) =
    then_sleep (read_all o.unmarshal msgs) (jitter (o.int63n i) (pos first))
      (run_from o first most (suc i) (next_backoff most (pos first)) ds)

unfoldable pub run : ClientOptions → List Dial → Trace
unfolding run_from initial cap
run o ds =
    let first = initial o.backoff in run_from o first (cap first o.max_backoff) 0 (pos first) ds
