-- ===== src/Admin/EventLog/Read.antt =====
-- `lastSeq` and `Query` of internal/admin/admin.go.
use edge_delta_lab.Prelude.{
  ℕ, ◌-◌, ◌*◌, ◌^◌, String, ◌||◌, Option, none, some, List, [], ◌∷◌, ◌++◌, length, drop, ltb, leb,
  ◌==◌, if◌then◌else◌, Result, ok, err,
}
use edge_delta_lab.Prelude.Int.{ℤ, pos, pos_part, leb_ℤ, ltb_ℤ}
use edge_delta_lab.Admin.EventLog.State.{Bytes, Event, Json, Files}

unfoldable pub push_first : ℕ → List Bytes → List Bytes
push_first c [] = (c ∷ []) ∷ []
push_first c (l ∷ ls) = (c ∷ l) ∷ ls

-- `bytes.Split(b, "\n")`. A scanner gives the same lines, but for an empty part at the end, which both
-- loops pass over.
unfoldable pub split_lines : Bytes → List Bytes
unfolding push_first
split_lines [] = [] ∷ []
split_lines (c ∷ cs) = let rest = split_lines cs in if c == 10 then [] ∷ rest else push_first c rest

abbrev pub tail_bytes : ℕ
tail_bytes = 64 * 2 ^ 10

unfoldable pub tail_of : Bytes → Bytes
tail_of b = drop (length b - tail_bytes) b

unfoldable pub event_of : Json → Bytes → Option Event
event_of json [] = none
event_of json (c ∷ cs) = json.unmarshal (c ∷ cs)

unfoldable pub higher_seq : Option Event → ℕ → ℕ
higher_seq none seq = seq
higher_seq (some ev) seq = if ltb seq ev.seq then ev.seq else seq

-- The loop of `lastSeq`
unfoldable pub last_seq_from : Json → ℕ → List Bytes → ℕ
unfolding event_of higher_seq
last_seq_from json seq [] = seq
last_seq_from json seq (l ∷ ls) = last_seq_from json (higher_seq (event_of json l) seq) ls

unfoldable pub last_seq : Json → Option Bytes → ℕ
unfolding last_seq_from split_lines tail_of
last_seq json none = 0
last_seq json (some b) = last_seq_from json 0 (split_lines (tail_of b))

-- What a scanner leaves of a line that ends in a carriage return
unfoldable pub drop_cr : Bytes → Bytes
drop_cr [] = []
drop_cr (c ∷ []) = if c == 13 then [] else c ∷ []
drop_cr (c ∷ d ∷ cs) = c ∷ drop_cr (d ∷ cs)

-- A scanner with a buffer of 1 MiB gives up on such a line.
abbrev pub max_line : ℕ
max_line = 2 ^ 20

-- The results `events` and `oldest` of `Query`
pub record Page : Type 0 where
  pub events : List Event
  pub oldest : ℕ

-- The loops of `Query`: they go on, have reached the limit, or end with an error.
pub data Scan : Type 0 where
  more : Page → Scan
  full : Page → Scan
  broken : Page → String → Scan

unfoldable pub continue : Scan → (Page → Scan) → Scan
continue (more p) f = f p
continue (full p) f = full p
continue (broken p e) f = broken p e

unfoldable pub oldest_with : ℕ → ℕ → ℕ
oldest_with seq oldest = if oldest == 0 || ltb seq oldest then seq else oldest

unfoldable pub append_until : ℕ → Event → Page → Scan
append_until limit ev p =
    let p' : Page = record p { events = p.events ++ ev ∷ [] } in
    if leb limit (length p'.events) then full p' else more p'

unfoldable pub scan_event : ℤ → ℕ → Event → Page → Scan
unfolding oldest_with append_until
scan_event after limit ev p =
    let p' : Page = record p { oldest = oldest_with ev.seq p.oldest } in
    if leb_ℤ (pos ev.seq) after then more p' else append_until limit ev p'

unfoldable pub scan_found : ℤ → ℕ → Option Event → Page → Scan
unfolding scan_event
scan_found after limit none p = more p
scan_found after limit (some ev) p = scan_event after limit ev p

unfoldable pub scan_line : Json → ℤ → ℕ → Bytes → Page → Scan
unfolding scan_found event_of drop_cr
scan_line json after limit l p =
    if leb max_line (length l)
    then broken p "token too long"
    else scan_found after limit (event_of json (json.trim_space (drop_cr l))) p

unfoldable pub scan_lines : Json → ℤ → ℕ → List Bytes → Page → Scan
unfolding scan_line continue
scan_lines json after limit [] p = more p
scan_lines json after limit (l ∷ ls) p =
    continue (scan_line json after limit l p) (scan_lines json after limit ls)

-- One round of the loop over the files, with what opening the file gives
unfoldable pub read_file : Json → ℤ → ℕ → Result (Option Bytes) → Page → Scan
unfolding scan_lines split_lines
read_file json after limit (err e) p = broken p e
read_file json after limit (ok none) p = more p
read_file json after limit (ok (some b)) p = scan_lines json after limit (split_lines b) p

unfoldable pub page_limit : ℤ → ℕ
page_limit limit =
    if leb_ℤ limit (pos 0) then 200 else if ltb_ℤ (pos 1000) limit then 1000 else pos_part limit

unfoldable pub answer : Scan → Page × Result (Unit {0})
answer (more p) = (p, ok tt)
answer (full p) = (p, ok tt)
answer (broken p e) = (p, err e)

-- `Query`, where the files can be opened
unfoldable pub query : Json → ℤ → ℤ → Files → Page × Result (Unit {0})
unfolding page_limit read_file continue answer
query json after limit fs =
    let none_yet : Page = record { events = []; oldest = 0 } in
    let scan = read_file json after (page_limit limit) in
    answer (continue (scan (ok fs.previous) none_yet) (scan (ok fs.current)))
