-- ===== src/Tests/Events.antt =====
-- The event log on a small encoding of events, in the place of JSON.
use Prim.Native.Nat.{◌-◌}
use edge_delta_lab.Prelude.{
  ℕ, ◌+◌, ◌<◌, ◌≤◌, ◌≡◌, refl, ap, String, Option, none, some, List, [], ◌∷◌, ◌++◌, length, take,
  map, All, ok, arith, ◌==◌, if◌then◌else◌, inr,
}
use edge_delta_lab.Prelude.Int.{ℤ, pos}
use edge_delta_lab.Lab.Storage.{done}
use edge_delta_lab.Tests.Coding.{encode, decode, decode-encode}
use edge_delta_lab.Admin.EventLog.State.{Bytes, Event, Json, World, contents, works, breaks}
use edge_delta_lab.Admin.EventLog.Write.{emit, open_log, limit_of}
use edge_delta_lab.Admin.EventLog.Read.{query, page_limit, event_of, drop_cr}
use edge_delta_lab.Admin.EventLog.Held.{JsonLaw, Consecutive}
use edge_delta_lab.Admin.EventLog.Query.{newer, first_seq, page}
use edge_delta_lab.Admin.EventLog.Keeps.{Held, IsLog, Ends, EitherKept, Either, Written, Kept, Good}
use edge_delta_lab.Admin.EventLog.Emits.{Entry, event_at, Fits, emit_lem}
use edge_delta_lab.Admin.EventLog.Runs.{Logged, emit_all, emit_all-Refines}
use edge_delta_lab.Admin.EventLog.Restart.{open_log-Ends}
use edge_delta_lab.Admin.EventLog.Torn.{IsLost, IsUnseen, at_file, opened, lost_after_torn}
use edge_delta_lab.Admin.EventLog.Forgets.{restart_forgets}
use edge_delta_lab.Admin.Csv.{csv_row}
use edge_delta_lab.Admin.Csv.RoundTrip.{has_return, read_row, read_row-csv_row}

shift : List ℕ → List ℕ
shift [] = []
shift (n ∷ ns) = (n + 40) ∷ shift ns

unshift : List ℕ → List ℕ
unshift [] = []
unshift (n ∷ ns) = (n - 40) ∷ unshift ns

unshift-shift : (ns : List ℕ) → unshift (shift ns) ≡ ns
unfolding shift unshift
unshift-shift [] = refl
unshift-shift (n ∷ ns) =
    let e : n + 40 - 40 ≡ n = omega arith in rw e (ap (◌∷◌ n) (unshift-shift ns))

shift-printable : (ns : List ℕ) → All (λ c. 31 < c) (shift ns)
unfolding shift
shift-printable [] = tt
shift-printable (n ∷ ns) = (omega arith, shift-printable ns)

-- A line starts with a 123, as a JSON object does.
pub write_event : Event → Bytes
write_event ev = 123 ∷ (ev.seq + 40) ∷ shift (encode (ev.time ∷ ev.kind ∷ ev.detail ∷ []))

event_of_texts : ℕ → List String → Option Event
event_of_texts n (a ∷ b ∷ c ∷ []) = some (record { seq = n; time = a; kind = b; detail = c })
event_of_texts n _ = none

pub read_event : Bytes → Option Event
read_event [] = none
read_event (c ∷ []) = none
read_event (c ∷ n ∷ rest) =
    if c == 123 then event_of_texts (n - 40) (decode (unshift rest)) else none

read-write_event : (ev : Event) → read_event (write_event ev) ≡ some ev
unfolding read_event write_event event_of_texts
read-write_event ev =
    let e : ev.seq + 40 - 40 ≡ ev.seq = omega arith in
    rw
      (
        e,
        unshift-shift (encode (ev.time ∷ ev.kind ∷ ev.detail ∷ [])),
        decode-encode (ev.time ∷ ev.kind ∷ ev.detail ∷ []),
      )
      refl

abbrev pub json : Json
json = record { marshal = λ ev. ok (write_event ev); unmarshal = read_event; trim_space = λ b. b }

marshalled : (ev : Event) (b : Bytes) → ok (write_event ev) ≡ ok b → write_event ev ≡ b
marshalled ev b e = cc

pub json-JsonLaw : JsonLaw json
unfolding write_event read_event
json-JsonLaw = record {
  read_back = λ ev b e. rw (← marshalled ev b e) (read-write_event ev);
  printable = λ ev b e.
      rw (← marshalled ev b e)
        (omega arith, (omega arith, shift-printable (encode (ev.time ∷ ev.kind ∷ ev.detail ∷ []))));
  trimmed = λ ev b e. refl;
  trim_empty = refl;
  empty = refl;
}

abbrev pub first : Entry
first = record { time = "t"; kind = "sync"; detail = "a" }

abbrev pub second : Entry
second = record { time = "u"; kind = "sync"; detail = "b" }

pub first-Fits : Fits json first
unfolding write_event shift encode
first-Fits n b e = rw (← marshalled (event_at n first) b e) (omega arith)

pub second-Fits : Fits json second
unfolding write_event shift encode
second-Fits n b e = rw (← marshalled (event_at n second) b e) (omega arith)

-- A new log, where the second call fails
abbrev new_log : World
new_log = record {
  log = opened 1000 0 0 ("notify" ∷ []);
  files = record { current = some []; previous = none };
  faults = works ∷ breaks 0 ∷ [];
}

new_log-IsLog : IsLog json new_log []
unfolding contents
new_log-IsLog = record {
  held = record {
    dropped = [];
    before = [];
    now = [];
    split = refl;
    previous_holds = refl;
    current_holds = refl;
    numbered = tt;
  };
  counted = refl;
  clean = (tt, (refl, tt));
}

emit_lem_example :
    Ends
      (EitherKept json [] (event_at 0 first))
      (Either json [] (event_at 0 first))
      (Written json [] (event_at 0 first))
      (emit json "t" "sync" "a" new_log)
emit_lem_example = emit_lem json [] first first-Fits new_log new_log-IsLog

emit_all-Refines_example :
    (es : List Event) × (dropped : List Event) × (retained : List Event) × Logged
      (first ∷ second ∷ [])
      es
    × ([] ++ es ≡ dropped ++ retained)
    × Consecutive 0 ([] ++ es)
    × ((after limit : ℤ)
        → query json after limit (emit_all json (first ∷ second ∷ []) new_log).files
          ≡ (page (take (page_limit limit) (newer after retained)) (first_seq retained), ok tt))
emit_all-Refines_example =
    emit_all-Refines json json-JsonLaw (first ∷ second ∷ []) [] new_log new_log-IsLog
      (first-Fits, (second-Fits, tt))

-- The files of a process that had emitted one event
abbrev one_line : Bytes
one_line = write_event (event_at 0 first) ++ 10 ∷ []

abbrev stopped : World
stopped = at_file (opened 1000 0 0 []) none one_line

one_line_short : length one_line < 60
unfolding write_event shift encode
one_line_short = omega arith

abbrev one_event : List Event
one_event = event_at 0 first ∷ []

stopped-Held : Held json stopped.files one_event
unfolding contents
stopped-Held = record {
  dropped = [];
  before = [];
  now = one_event;
  split = refl;
  previous_holds = refl;
  current_holds = (
    write_event (event_at 0 first),
    [],
    refl,
    first-Fits 0 (write_event (event_at 0 first)) refl,
    refl,
    refl,
  );
  numbered = (refl, tt);
}

open_log-Ends_example :
    Ends
      (Kept json one_event)
      (Kept json one_event)
      (Good json one_event)
      (open_log json (pos 1000) stopped)
unfolding stopped-Held contents
open_log-Ends_example =
    open_log-Ends json json-JsonLaw one_event (pos 1000) stopped stopped-Held (λ e. cc)
      (omega (arith, one_line_short)) tt

full_file : limit_of (pos 5) ≤ length one_line
unfolding limit_of write_event shift encode
full_file = omega arith

restart_forgets_example :
    ((open_log json
        (pos 5)
        (open_log json (pos 5) (at_file (opened 5 0 0 []) none one_line)).1).1.log.seq
      ≡ 0)
    × ((open_log json
          (pos 5)
          (open_log json (pos 5) (at_file (opened 5 0 0 []) none one_line)).1).1.files.previous
        ≡ some one_line)
restart_forgets_example = restart_forgets json (pos 5) (opened 5 0 0 []) one_line none full_file

abbrev torn : Bytes
torn = 99 ∷ []

torn_line-IsLost : IsLost json (torn ++ write_event (event_at 1 second))
unfolding event_of drop_cr read_event write_event shift encode
torn_line-IsLost = (omega arith, refl)

abbrev whole : Bytes
whole = write_event (event_at 0 first) ++ 10 ∷ []

lost_after_torn_example :
    let r = emit json "u" "sync" "b" (at_file (opened 1000 0 1 []) none (whole ++ torn)) in
    (r.0 ≡ done (map (λ h. (h, event_at 1 second)) []))
    × (r.1.files.previous ≡ none)
    × ((written : Bytes) × (r.1.files.current ≡ some written)
        × IsUnseen json whole torn (inr (write_event (event_at 0 first), refl)) written)
lost_after_torn_example =
    lost_after_torn json whole torn (inr (write_event (event_at 0 first), refl)) json-JsonLaw 1000 0
      1 [] none second (write_event (event_at 1 second)) (omega arith) refl (omega arith)
      torn_line-IsLost

read_row-csv_row_example :
    read_row (csv_row ((b'a' ∷ b'"' ∷ b',' ∷ []) ∷ [] ∷ (10 ∷ []) ∷ []) ++ b'x' ∷ [])
    ≡ some ((b'a' ∷ b'"' ∷ b',' ∷ []) ∷ [] ∷ (10 ∷ []) ∷ [], b'x' ∷ [])
unfolding has_return
read_row-csv_row_example =
    read_row-csv_row (b'a' ∷ b'"' ∷ b',' ∷ []) ([] ∷ (10 ∷ []) ∷ []) (b'x' ∷ [])
      (λ e. refl, (λ e. refl, (λ e. refl, tt)))
