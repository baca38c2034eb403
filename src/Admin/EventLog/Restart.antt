-- ===== src/Admin/EventLog/Restart.antt =====
-- `OpenEventLog` and `lastSeq` of internal/admin/admin.go on the files of an earlier process.
use edge_delta_lab.Prelude.{
  ℕ, suc, ◌+◌, ◌-◌, ◌≤◌, ◌≡◌, ◌≢◌, ◌∙◌, refl, ap, sym, String, Option, none, some, List, [], ◌∷◌,
  ◌++◌, length, All, ok, arith, length-append,
}
use mathlib.Core.List.{append_assoc, append-nil}
use edge_delta_lab.Prelude.Int.{ℤ}
use edge_delta_lab.Lab.Storage.{Outcome}
use edge_delta_lab.Admin.EventLog.State.{
  Bytes, Event, Json, Files, World, Io, ◌>>◌, syscall, set_log, set_files, append_to_current,
  contents,
}
use edge_delta_lab.Admin.EventLog.Write.{open_log, open_append, read_log, rotate_when_full}
use edge_delta_lab.Admin.EventLog.Read.{
  tail_bytes, tail_of, last_seq, last_seq_from, higher_seq, event_of, split_lines,
}
use edge_delta_lab.Admin.EventLog.Held.{
  line-not-nil, JsonLaw, Encodes, Holds, Consecutive, Consecutive-drop, split_lines-line,
  event_of-line,
}
use edge_delta_lab.Admin.EventLog.Keeps.{
  Good, Kept, syscall-Ends, Held, IsClean, Ends, weaken-Ends, bind-Ends, call-Ends, later-IsClean,
  append_nothing-Held, rotate_when_full-Ends,
}

higher-next : (ev : Event) (seq n : ℕ) → ev.seq ≡ suc n → seq ≤ n → higher_seq (some ev) seq ≡ suc n
unfolding higher_seq
higher-next ev seq n e le = ground (arith, e, le)

module _ (json : Json) (law : JsonLaw json) where
  last_seq_from-nil : (seq : ℕ) → last_seq_from json seq (split_lines []) ≡ seq
  unfolding last_seq_from split_lines event_of higher_seq
  last_seq_from-nil seq = refl

  last_seq_from-line :
      (seq : ℕ) (ev : Event) (b rest : Bytes)
      → json.marshal ev ≡ ok b
      → last_seq_from json seq (split_lines (b ++ 10 ∷ rest))
        ≡ last_seq_from json (higher_seq (some ev) seq) (split_lines rest)
  unfolding last_seq_from
  last_seq_from-line seq ev b rest q = rw (split_lines-line b rest (law.printable ev b q)) (
      ap (λ o. last_seq_from json (higher_seq o seq) (split_lines rest))
        (event_of-line json law ev b q))

  -- The loop of `lastSeq` goes up with the numbers of the events.
  last_seq_from-events :
      (es : List Event) (bytes : Bytes) (n seq : ℕ)
      → Encodes json es bytes
      → Consecutive n es
      → seq ≡ n
      → last_seq_from json seq (split_lines bytes) ≡ n + length es
  last_seq_from-events [] bytes n seq h c e = rw (h, last_seq_from-nil seq) (omega (arith, e))
  last_seq_from-events (ev ∷ es) bytes n seq (b, rest, q, lt, eq, h) (e', c) e =
      rw (eq, last_seq_from-line seq ev b rest q)
        (last_seq_from-events es rest (suc n) (higher_seq (some ev) seq) h c
            (higher-next ev seq n e' (omega (arith, e)))
          ∙ omega arith)

  -- The whole file is read where it is no longer than the tail.
  last_seq-events :
      (file : Option Bytes) (ev : Event) (es : List Event) (n : ℕ)
      → Holds json file (ev ∷ es)
      → Consecutive n (ev ∷ es)
      → length (contents file) ≤ tail_bytes
      → last_seq json file ≡ n + length (ev ∷ es)
  unfolding last_seq tail_of contents
  last_seq-events none ev es n (b, rest, q, lt, eq, h) c le = absurd (line-not-nil b rest eq)
  last_seq-events (some bytes) ev es n (b, rest, q, lt, eq, h) (e, c) le =
      let whole : length bytes - tail_bytes ≡ 0 = omega (arith, le) in
      rw (whole, eq, last_seq_from-line 0 ev b rest q)
        (last_seq_from-events es rest (suc n) (higher_seq (some ev) 0) h c
            (higher-next ev 0 n e (omega arith))
          ∙ omega arith)

  last_seq-append_nothing :
      (fs : Files) → last_seq json (append_to_current [] fs).current ≡ last_seq json fs.current
  unfolding append_to_current last_seq tail_of contents last_seq_from split_lines event_of
      higher_seq
  last_seq-append_nothing fs = go fs.current
    where
      go : (file : Option Bytes) → last_seq json (some (contents file ++ [])) ≡ last_seq json file
      go none = refl
      go (some b) = rw (append-nil b) refl

  -- What stays so until the log is read
  abbrev Ready : List Event → World → Type 0
  Ready history w =
      Held json w.files history
      × (last_seq json w.files.current ≡ length history)
      × All IsClean w.faults

  last_seq-held :
      (history : List Event) (file : Option Bytes) (dropped before now : List Event)
      → history ≡ dropped ++ (before ++ now)
      → Consecutive 0 history
      → Holds json file now
      → now ≢ []
      → length (contents file) ≤ tail_bytes
      → last_seq json file ≡ length history
  last_seq-held history file dropped before [] split c h some_now le = absurd (some_now refl)
  last_seq-held history file dropped before (ev ∷ es) split c h some_now le =
      let first : List Event = dropped ++ before in
      let parts : history ≡ first ++ ev ∷ es =
        split ∙ sym (append_assoc dropped before (ev ∷ es)) in
      let now_c = Consecutive-drop 0 first (ev ∷ es) (rw parts at c) in
      last_seq-events file ev es (0 + length first) h now_c le
      ∙ omega (arith, ap length parts, length-append first (ev ∷ es))

  syscall-Ready :
      (history : List Event) (what : String) (w : World)
      → Ready history w
      → Ends (Kept json history) (Kept json history) (Ready history) (syscall what w)
  unfolding syscall
  syscall-Ready history what w (h, e, clean) =
      call-Ends (Kept json history) (Kept json history) (Ready history) what (λ w. w) (λ n w. w) w
        clean (h, e, later-IsClean w.faults clean) h h

  open_append-Ready :
      (history : List Event) (w : World)
      → Ready history w
      → Ends (Kept json history) (Kept json history) (Ready history) (open_append w)
  unfolding open_append set_files
  open_append-Ready history w (h, e, clean) =
      call-Ends (Kept json history) (Kept json history) (Ready history) "open"
        (set_files (append_to_current [])) (λ n w. w) w clean
        (
          append_nothing-Held json history w.files h,
          last_seq-append_nothing w.files ∙ e,
          later-IsClean w.faults clean,
        )
        h h

  -- However `OpenEventLog` ends on the files of an earlier process, they hold the history; and where it
  -- returns a log, that goes on after the last event, where the current file is not empty and no longer
  -- than the part that is read.
  pub open_log-Ends :
      (history : List Event) (max_bytes : ℤ) (w : World) (h : Held json w.files history)
      → h.now ≢ []
      → length (contents w.files.current) ≤ tail_bytes
      → All IsClean w.faults
      → Ends (Kept json history) (Kept json history) (Good json history) (open_log json max_bytes w)
  unfolding open_log read_log set_log
  open_log-Ends history max_bytes w h some_now le clean =
      let kept = Kept json history in
      let good = Good json history in
      let ready : Ready history w = (
        h,
        last_seq-held history w.files.current h.dropped h.before h.now h.split h.numbered
            h.current_holds some_now le,
        clean,
      ) in
      let rest2 : Io (Unit {0}) = syscall "read the tail" >> rotate_when_full in
      let rest1 : Io (Unit {0}) = read_log json max_bytes >> rest2 in
      let rest0 : Io (Unit {0}) = syscall "stat" >> rest1 in
      bind-Ends kept kept (Ready history) good (syscall "mkdir") (λ _. open_append >> rest0) w
        (syscall-Ready history "mkdir" w ready)
        λ _ w1 h1.
          bind-Ends kept kept (Ready history) good open_append (λ _. rest0) w1
            (open_append-Ready history w1 h1)
            λ _ w2 h2.
              bind-Ends kept kept (Ready history) good (syscall "stat") (λ _. rest1) w2
                (syscall-Ready history "stat" w2 h2)
                λ _ w3 h3.
                  bind-Ends kept kept good good (read_log json max_bytes) (λ _. rest2) w3
                    (record { held = h3.0; counted = h3.1; clean = h3.2 })
                    λ _ w4 h4.
                      bind-Ends kept kept good good (syscall "read the tail")
                        (λ _. rotate_when_full) w4
                        (or_none (syscall "read the tail" w4) (syscall-Ends json history _ w4 h4))
                        λ _ w5 h5.
                          or_none (rotate_when_full w5) (rotate_when_full-Ends json history w5 h5)
    where
      or_none :
          (r : Outcome (Unit {0}) × World)
          → Ends (Kept json history) (Good json history) (Good json history) r
          → Ends (Kept json history) (Kept json history) (Good json history) r
      or_none r =
          weaken-Ends (Kept json history) (Good json history) (Good json history)
            (Kept json history) (Kept json history) (Good json history) r (λ w k. k) (λ w k. k.held)
            (λ w k. k)
