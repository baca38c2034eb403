-- ===== src/Admin/EventLog/Keeps.antt =====
-- The calls of the event log, whichever of them fail, as long as no part of a line is left.
use edge_delta_lab.Prelude.{
  ℕ, suc, ◌<◌, ◌≡◌, ◌⊎◌, refl, ap, sym, ◌∙◌, String, Option, none, some, List, [], ◌∷◌, ◌++◌,
  length, All, ok, arith, leb, if-elim, false,
}
use mathlib.Core.List.{append_assoc, append-nil}
use edge_delta_lab.Lab.Storage.{Outcome, done, failed, crashed}
use edge_delta_lab.Admin.EventLog.State.{
  Bytes, Event, Json, Fault, works, breaks, stops, Files, World, Io, ◌>>=◌, ◌>>◌, later_faults,
  call, syscall, set_log, set_files, close_file, rename_files, rename_to_previous, contents,
  append_to_current,
}
use edge_delta_lab.Admin.EventLog.Write.{emptied, open_empty, rotate, rotate_when_full}
use edge_delta_lab.Admin.EventLog.Read.{max_line}
use edge_delta_lab.Admin.EventLog.Held.{Holds, Consecutive, Consecutive-append, Encodes-append}

-- A write that fails leaves nothing.
abbrev pub IsClean : Fault → Type 0
IsClean works = Unit {0}
IsClean (breaks n) = n ≡ 0
IsClean (stops n) = n ≡ 0

-- The files hold the history, but for a first part that was rotated away.
pub record Held (json : Json) (fs : Files) (history : List Event) : Type 0 where
  pub dropped : List Event
  pub before : List Event
  pub now : List Event
  pub split : history ≡ dropped ++ (before ++ now)
  pub previous_holds : Holds json fs.previous before
  pub current_holds : Holds json fs.current now
  pub numbered : Consecutive 0 history

pub record IsLog (json : Json) (w : World) (history : List Event) : Type 0 where
  pub held : Held json w.files history
  pub counted : w.log.seq ≡ length history
  pub clean : All IsClean w.faults

-- What holds after a call that stops, fails, or works
abbrev pub Ends :
    {A : Type 0}
    → (World → Type 0)
    → (World → Type 0)
    → (World → Type 0)
    → Outcome A × World
    → Type 0
Ends C P Q (done a, w) = Q w
Ends C P Q (failed e, w) = P w
Ends C P Q (crashed, w) = C w

pub bind-Ends :
    {A B : Type 0} (C P Q R : World → Type 0) (m : Io A) (f : A → Io B) (w : World)
    → Ends C P Q (m w)
    → ((a : A) (w' : World) → Q w' → Ends C P R (f a w'))
    → Ends C P R ((m >>= f) w)
bind-Ends C P Q R m f w h k = go (m w) h
  where
    go : (r : Outcome _ × World) → Ends C P Q r → Ends C P R (◌>>=◌ (λ _. r) f w)
    go (done a, w') q = k a w' q
    go (failed e, w') p = p
    go (crashed, w') c = c

pub weaken-Ends :
    {A : Type 0} (C P Q C' P' Q' : World → Type 0) (r : Outcome A × World)
    → ((w : World) → C w → C' w)
    → ((w : World) → P w → P' w)
    → ((w : World) → Q w → Q' w)
    → Ends C P Q r
    → Ends C' P' Q' r
weaken-Ends C P Q C' P' Q' (done a, w) c p q h = q w h
weaken-Ends C P Q C' P' Q' (failed e, w) c p q h = p w h
weaken-Ends C P Q C' P' Q' (crashed, w) c p q h = c w h

pub later-IsClean : (fs : List Fault) → All IsClean fs → All IsClean (later_faults fs)
unfolding later_faults
later-IsClean [] h = tt
later-IsClean (f ∷ fs) h = h.1

pub call-Ends :
    (C P Q : World → Type 0) (what : String) (good : World → World) (broken : ℕ → World → World)
    (w : World)
    → All IsClean w.faults
    → Q (good (record w { faults = later_faults w.faults }))
    → P (broken 0 (record w { faults = later_faults w.faults }))
    → C (broken 0 (record w { faults = later_faults w.faults }))
    → Ends C P Q (call what good broken w)
unfolding call
call-Ends C P Q what good broken w clean q p c = go w.faults clean q p c
  where
    go :
        (fs : List Fault)
        → All IsClean fs
        → Q (good (record w { faults = later_faults fs }))
        → P (broken 0 (record w { faults = later_faults fs }))
        → C (broken 0 (record w { faults = later_faults fs }))
        → Ends C P Q (call what good broken (record w { faults = fs }))
    go [] h q p c = q
    go (works ∷ fs) h q p c = q
    go (breaks n ∷ fs) h q p c = rw h.0 p
    go (stops n ∷ fs) h q p c = rw h.0 c

module _ (json : Json) (history : List Event) where
  abbrev pub Good : World → Type 0
  Good w = IsLog json w history

  abbrev pub Kept : World → Type 0
  Kept w = Held json w.files history

  -- Between the two calls of a rotation that change files
  abbrev IsMoved : World → Type 0
  IsMoved w = Good w × (w.files.current ≡ none)

  pub later : (w : World) → Good w → Good (record w { faults = later_faults w.faults })
  later w h = record { held = h.held; counted = h.counted; clean = later-IsClean w.faults h.clean }

  close_file-Ends : (w : World) → Good w → Ends Kept Good Good (close_file w)
  unfolding close_file set_log
  close_file-Ends w h =
      let shut : World → World = set_log (λ l. record l { file_open = false }) in
      let l = later w h in
      let g : Good (shut (record w { faults = later_faults w.faults })) = record {
        held = l.held;
        counted = l.counted;
        clean = l.clean;
      } in
      if-elim (Ends Kept Good Good) w.log.file_open
        (λ _. call-Ends Kept Good Good "close" shut (λ n. shut) w h.clean g g g.held) (λ _. h)

  rename_files-Held :
      (current previous : Option Bytes)
      → Held json (record { current = current; previous = previous }) history
      → Held json (rename_files (record { current = current; previous = previous })) history
        × ((rename_files (record { current = current; previous = previous })).current ≡ none)
  unfolding rename_files contents
  rename_files-Held none previous h = (h, refl)
  rename_files-Held (some b) previous h = (
    record {
      dropped = h.dropped ++ h.before;
      before = h.now;
      now = [];
      split = h.split ∙ rw (append-nil h.now) (sym (append_assoc h.dropped h.before h.now));
      previous_holds = h.current_holds;
      current_holds = refl;
      numbered = h.numbered;
    },
    refl,
  )

  rename-Ends : (w : World) → Good w → Ends Kept Good IsMoved (rename_to_previous w)
  unfolding rename_to_previous set_files
  rename-Ends w h =
      let l = later w h in
      let m = rename_files-Held w.files.current w.files.previous h.held in
      call-Ends Kept Good IsMoved "rename" (set_files rename_files) (λ n w. w) w h.clean
        (record { held = m.0; counted = h.counted; clean = l.clean }, m.1) l l.held

  open_empty-Ends : (w : World) → IsMoved w → Ends Kept Good Good (open_empty w)
  unfolding open_empty emptied set_log set_files contents
  open_empty-Ends w (h, e) =
      let l = later w h in
      let now_empty : Holds json (some []) h.held.now = rw e at h.held.current_holds in
      call-Ends Kept Good Good "open" emptied (λ n w. w) w h.clean
        (record {
          held = record {
            dropped = h.held.dropped;
            before = h.held.before;
            now = h.held.now;
            split = h.held.split;
            previous_holds = h.held.previous_holds;
            current_holds = now_empty;
            numbered = h.held.numbered;
          };
          counted = h.counted;
          clean = l.clean;
        })
        l l.held

  pub syscall-Ends : (what : String) (w : World) → Good w → Ends Kept Good Good (syscall what w)
  unfolding syscall
  syscall-Ends what w h =
      let l = later w h in call-Ends Kept Good Good what (λ w. w) (λ n w. w) w h.clean l l l.held

  rotate-Ends : (w : World) → Good w → Ends Kept Good Good (rotate w)
  unfolding rotate
  rotate-Ends w h =
      let sync : Io (Unit {0}) = syscall "sync dir" in
      let reopen : Io (Unit {0}) = open_empty >> sync in
      bind-Ends Kept Good Good Good close_file (λ _. rename_to_previous >> reopen) w
        (close_file-Ends w h)
        λ _ w1 h1.
          bind-Ends Kept Good IsMoved Good rename_to_previous (λ _. reopen) w1 (rename-Ends w1 h1)
            λ _ w2 h2.
              bind-Ends Kept Good Good Good open_empty (λ _. sync) w2 (open_empty-Ends w2 h2)
                λ _ w3 h3. syscall-Ends "sync dir" w3 h3

  pub rotate_when_full-Ends : (w : World) → Good w → Ends Kept Good Good (rotate_when_full w)
  unfolding rotate_when_full
  rotate_when_full-Ends w h =
      if-elim (Ends Kept Good Good) (leb w.log.max_bytes w.log.size) (λ _. rotate-Ends w h) (λ _. h)

  pub append_nothing-Held :
      (fs : Files) → Held json fs history → Held json (append_to_current [] fs) history
  unfolding append_to_current contents
  append_nothing-Held fs h = record {
    dropped = h.dropped;
    before = h.before;
    now = h.now;
    split = h.split;
    previous_holds = h.previous_holds;
    current_holds = rw (append-nil (contents fs.current)) h.current_holds;
    numbered = h.numbered;
  }

module _ (json : Json) (history : List Event) (ev : Event) where
  abbrev pub later_history : List Event
  later_history = history ++ ev ∷ []

  -- Once the line is in the file
  abbrev pub Written : World → Type 0
  Written w = IsLog json w later_history

  abbrev pub Either : World → Type 0
  Either w = IsLog json w history ⊎ Written w

  abbrev pub EitherKept : World → Type 0
  EitherKept w = Held json w.files history ⊎ Held json w.files later_history

  -- A log but for the sequence number, which is that of `ev` already
  abbrev pub IsCounting : World → Type 0
  IsCounting w =
      Held json w.files history × (w.log.seq ≡ suc (length history)) × All IsClean w.faults

  pub append_to_current-Held :
      (fs : Files) (b : Bytes)
      → Held json fs history
      → ev.seq ≡ suc (length history)
      → json.marshal ev ≡ ok b
      → length b < max_line
      → Held json (append_to_current (b ++ 10 ∷ []) fs) later_history
  unfolding append_to_current contents
  append_to_current-Held fs b h q e lt = record {
    dropped = h.dropped;
    before = h.before;
    now = h.now ++ ev ∷ [];
    split =
        ap (λ t. t ++ ev ∷ []) h.split
        ∙ rw
            (
              append_assoc h.dropped (h.before ++ h.now) (ev ∷ []),
              append_assoc h.before h.now (ev ∷ []),
            )
            refl;
    previous_holds = h.previous_holds;
    current_holds = Encodes-append json h.now (contents fs.current) ev b h.current_holds e lt;
    numbered = Consecutive-append 0 history ev h.numbered (omega (arith, q));
  }
