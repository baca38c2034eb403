-- ===== src/Admin/EventLog/Emits.antt =====
-- `Emit` of internal/admin/admin.go: what one call and a run of calls leave in the files.
use edge_delta_lab.Prelude.{
  ℕ, suc, ◌+◌, ◌<◌, ◌≡◌, inl, inr, refl, ap, String, List, [], ◌∷◌, ◌++◌, length, length-append,
  Result, ok, err, arith, take, if-elim, map,
}
use mathlib.Core.Path.{subst}
use edge_delta_lab.Lab.Storage.{Outcome, done, failed, crashed}
use edge_delta_lab.Admin.EventLog.State.{
  Bytes, Event, Json, World, Io, ◌>>◌, syscall, set_log, set_files, append_to_current, write_line,
}
use edge_delta_lab.Admin.EventLog.Write.{rotate_when_full, undo_seq, append_event, emit_next, emit}
use edge_delta_lab.Admin.EventLog.Read.{max_line}
use edge_delta_lab.Admin.EventLog.Keeps.{
  Ends, weaken-Ends, bind-Ends, call-Ends, later-IsClean, Good, Kept, syscall-Ends,
  rotate_when_full-Ends, later_history, Written, Either, EitherKept, IsCounting,
  append_to_current-Held, append_nothing-Held,
}

pub record Entry : Type 0 where
  pub time : String
  pub kind : String
  pub detail : String

abbrev pub event_at : ℕ → Entry → Event
event_at n x = record { seq = suc n; time = x.time; kind = x.kind; detail = x.detail }

-- The line of the entry is one that `Query` can scan.
abbrev pub Fits : Json → Entry → Type 0
Fits json x = (n : ℕ) (b : Bytes) → json.marshal (event_at n x) ≡ ok b → length b < max_line

module _ (json : Json) (history : List Event) (n : ℕ) (x : Entry)
    (counted : n ≡ length history) where
  abbrev ev : Event
  ev = event_at n x

  undo_seq-Ends :
      (r : Outcome (Unit {0}) × World)
      → Ends (Kept json history) (IsCounting json history ev) (Written json history ev) r
      → Ends
          (EitherKept json history ev)
          (Either json history ev)
          (Written json history ev)
          (undo_seq n r)
  unfolding undo_seq set_log
  undo_seq-Ends (done a, w) h = h
  undo_seq-Ends (failed e, w) h = inl (record { held = h.0; counted = counted; clean = h.2 })
  undo_seq-Ends (crashed, w) h = inl h

  write_line-Ends :
      (w : World) (b : Bytes)
      → IsCounting json history ev w
      → json.marshal ev ≡ ok b
      → length b < max_line
      → Ends
          (Kept json history)
          (IsCounting json history ev)
          (Written json history ev)
          (write_line (b ++ 10 ∷ []) w)
  unfolding write_line set_files
  write_line-Ends w b (held, seq, clean) e lt =
      let line : Bytes = b ++ 10 ∷ [] in
      let good : World → World = set_files (append_to_current line) in
      let broken : ℕ → World → World = λ k. set_files (append_to_current (take k line)) in
      let rest = later-IsClean w.faults clean in
      let nothing = append_nothing-Held json history w.files held in
      if-elim (Ends (Kept json history) (IsCounting json history ev) (Written json history ev))
        w.log.file_open
        (λ _.
          call-Ends (Kept json history) (IsCounting json history ev) (Written json history ev)
            "write" good broken w clean
            (record {
              held = append_to_current-Held json history ev w.files b held (ap suc counted) e lt;
              counted = omega (arith, seq, length-append history (ev ∷ []));
              clean = rest;
            })
            (nothing, seq, rest) nothing)
        (λ _. (held, seq, clean))

  count_line : ℕ → Io (List (String × Event))
  unfolding set_log
  count_line size w =
      (done (map (λ h. (h, ev)) w.log.hooks), set_log (λ l. record l { size = l.size + size }) w)

  sync_and_count : ℕ → Io (List (String × Event))
  unfolding count_line
  sync_and_count size = syscall "sync" >> count_line size

  sync_and_count-Ends :
      (w : World) (size : ℕ)
      → Written json history ev w
      → Ends
          (EitherKept json history ev)
          (Either json history ev)
          (Written json history ev)
          (sync_and_count size w)
  unfolding sync_and_count count_line set_log
  sync_and_count-Ends w size h =
      let goal = Written json history ev in
      bind-Ends (EitherKept json history ev) (Either json history ev) goal goal (syscall "sync")
        (λ _. count_line size) w
        (weaken-Ends (Kept json (later_history json history ev)) goal goal
          (EitherKept json history ev) (Either json history ev) goal (syscall "sync" w)
          (λ w' k. inr k) (λ w' k. inr k) (λ w' k. k)
          (syscall-Ends json (later_history json history ev) "sync" w h))
        λ _ w' k. record { held = k.held; counted = k.counted; clean = k.clean }

  append_event-Ends :
      (w : World) (m : Result Bytes)
      → IsCounting json history ev w
      → json.marshal ev ≡ m
      → ((b : Bytes) → json.marshal ev ≡ ok b → length b < max_line)
      → Ends
          (EitherKept json history ev)
          (Either json history ev)
          (Written json history ev)
          (append_event n ev m w)
  unfolding append_event set_log sync_and_count count_line
  append_event-Ends w (err e) (held, seq, clean) q fits =
      inl (record { held = held; counted = counted; clean = clean })
  append_event-Ends w (ok b) h q fits =
      let goal = Written json history ev in
      bind-Ends (EitherKept json history ev) (Either json history ev) goal goal
        (λ w. undo_seq n (write_line (b ++ 10 ∷ []) w))
        (λ _. sync_and_count (length (b ++ 10 ∷ []))) w
        (undo_seq-Ends (write_line (b ++ 10 ∷ []) w) (write_line-Ends w b h q (fits b q)))
        λ _ w' k. sync_and_count-Ends w' (length (b ++ 10 ∷ [])) k

module _ (json : Json) (history : List Event) (x : Entry) (fits : Fits json x) where
  abbrev next_event : Event
  next_event = event_at (length history) x

  emit_next-Ends :
      (w : World)
      → Good json history w
      → Ends
          (EitherKept json history next_event)
          (Either json history next_event)
          (Written json history next_event)
          (emit_next json x.time x.kind x.detail w)
  unfolding emit_next set_log
  emit_next-Ends w h =
      subst
        (λ n.
          Ends (EitherKept json history (event_at n x)) (Either json history (event_at n x))
            (Written json history (event_at n x)) (emit_next json x.time x.kind x.detail w))
        h.counted
        (append_event-Ends json history w.log.seq x h.counted
          (record w { log = record w.log { seq = suc w.log.seq } })
          (json.marshal (event_at w.log.seq x)) (h.held, ap suc h.counted, h.clean) refl
          (fits w.log.seq))

  -- Whichever calls of `Emit` fail or stop, the files hold the history, with the new event or without
  -- it, under the next sequence number; the log goes on from there; and they hold it with the new event
  -- where `Emit` returns no error.
  pub emit_lem :
      (w : World)
      → Good json history w
      → Ends
          (EitherKept json history next_event)
          (Either json history next_event)
          (Written json history next_event)
          (emit json x.time x.kind x.detail w)
  unfolding emit
  emit_lem w h =
      let goal = Written json history next_event in
      if-elim (Ends (EitherKept json history next_event) (Either json history next_event) goal)
        w.log.closed (λ _. inl h)
        (λ _.
          bind-Ends (EitherKept json history next_event) (Either json history next_event)
            (Good json history) goal rotate_when_full (λ _. emit_next json x.time x.kind x.detail) w
            (weaken-Ends (Kept json history) (Good json history) (Good json history)
              (EitherKept json history next_event) (Either json history next_event)
              (Good json history) (rotate_when_full w) (λ w' k. inl k) (λ w' k. inl k) (λ w' k. k)
              (rotate_when_full-Ends json history w h))
            λ _ w' k. emit_next-Ends w' k)
