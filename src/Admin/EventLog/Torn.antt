-- ===== src/Admin/EventLog/Torn.antt =====
-- An event that `Emit` of internal/admin/admin.go writes behind a part of a line.
use edge_delta_lab.Prelude.{
  ℕ, ◌<◌, ◌≡◌, ◌∙◌, refl, ap, sym, true, false, Option, none, some, List, [], ◌∷◌, ◌++◌, length,
  leb, arith, All, All-append, String, ok, map, Bool-cases, inl, inr, ◌⊎◌, ◌==◌,
}
use mathlib.Core.List.{append_assoc}
use edge_delta_lab.Prelude.Int.{ℤ}
use edge_delta_lab.Lab.Storage.{done}
use edge_delta_lab.Admin.EventLog.State.{
  Bytes, Json, Files, World, EventLog, contents, ◌>>=◌, later_faults, next_fault, syscall, call,
  append_to_current, set_log, set_files, write_line,
}
use edge_delta_lab.Admin.EventLog.Write.{emit, emit_next, append_event, undo_seq, rotate_when_full}
use edge_delta_lab.Admin.EventLog.Read.{
  Page, Scan, more, full, broken, continue, push_first, split_lines, event_of, drop_cr, max_line,
  scan_line, scan_lines, scan_found, read_file, page_limit, query, answer,
}
use edge_delta_lab.Admin.EventLog.Held.{JsonLaw, split_lines-line, continue-ext, continue_assoc}
use edge_delta_lab.Admin.EventLog.Emits.{Entry, event_at}

split_lines-cons : (p : Bytes) → (l : Bytes) × (ls : List Bytes) × (split_lines p ≡ l ∷ ls)
unfolding split_lines push_first
split_lines-cons [] = ([], [], refl)
split_lines-cons (c ∷ p) =
    let (l, ls, e) = split_lines-cons p in
    elim (Bool-cases (c == 10)) [
      | inl q ↦ ([], split_lines p, rw q refl)
      | inr q ↦ (c ∷ l, ls, rw (q, e) refl)
    ]

push_first-append :
    (c : ℕ) (p : Bytes) (ys : List Bytes)
    → push_first c (split_lines p ++ ys) ≡ push_first c (split_lines p) ++ ys
unfolding push_first
push_first-append c p ys = rw (split_lines-cons p).2 refl

-- The lines before a newline and those after it.
split_lines-append : (p r : Bytes) → split_lines (p ++ 10 ∷ r) ≡ split_lines p ++ split_lines r
unfolding split_lines
split_lines-append [] r = refl
split_lines-append (c ∷ p) r =
    rw (split_lines-append p r, push_first-append c p (split_lines r))
      (elim (Bool-cases (c == 10)) [ inl q ↦ rw q refl | inr q ↦ rw q refl ])

-- The one line of bytes without a newline.
split_lines-part : (b : Bytes) → All (λ c. 31 < c) b → split_lines b ≡ b ∷ []
unfolding split_lines push_first
split_lines-part [] h = refl
split_lines-part (c ∷ b) (gt, h) = let one = split_lines-part b h in rw one (ground (arith, gt))

-- A line that is shorter than the limit of the scanner, and no event.
abbrev pub IsLost : Json → Bytes → Type 0
IsLost json l = (length l < max_line) × (event_of json (json.trim_space (drop_cr l)) ≡ none)

continue-more : (s : Scan) → continue s more ≡ s
unfolding continue
continue-more (more p) = refl
continue-more (full p) = refl
continue-more (broken p e) = refl

module _ (json : Json) (after : ℤ) (limit : ℕ) where
  scan_line-lost : (l : Bytes) (p : Page) → IsLost json l → scan_line json after limit l p ≡ more p
  unfolding scan_line scan_found
  scan_line-lost l p (lt, e) =
      let fits : leb max_line (length l) ≡ false = ground (arith, lt) in rw (fits, e) refl

  scan_lines-append :
      (xs ys : List Bytes) (p : Page)
      → scan_lines json after limit (xs ++ ys) p
        ≡ continue (scan_lines json after limit xs p) (scan_lines json after limit ys)
  unfolding scan_lines continue
  scan_lines-append [] ys p = refl
  scan_lines-append (x ∷ xs) ys p =
      continue-ext (scan_line json after limit x p) _ _ (scan_lines-append xs ys)
      ∙ sym (continue_assoc (scan_line json after limit x p) _ _)

  -- A line that is no event adds nothing.
  scan_lines-lost :
      (ls : List Bytes) (l : Bytes) (later : List Bytes) (p : Page)
      → IsLost json l
      → scan_lines json after limit (ls ++ l ∷ later) p
        ≡ scan_lines json after limit (ls ++ later) p
  unfolding scan_lines continue
  scan_lines-lost ls l later p h =
      scan_lines-append ls (l ∷ later) p
      ∙ continue-ext (scan_lines json after limit ls p) _ _ (λ p'. rw (scan_line-lost l p' h) refl)
      ∙ sym (scan_lines-append ls later p)

-- An open log
abbrev pub opened : ℕ → ℕ → ℕ → List String → EventLog
opened max_bytes size seq hooks = record {
  max_bytes = max_bytes;
  size = size;
  seq = seq;
  file_open = true;
  closed = false;
  hooks = hooks;
}

abbrev pub at_file : EventLog → Option Bytes → Bytes → World
at_file l previous bytes = record {
  log = l;
  files = record { current = some bytes; previous = previous };
  faults = [];
}

not_rotated : (w : World) → w.log.size < w.log.max_bytes → rotate_when_full w ≡ (done tt, w)
unfolding rotate_when_full
not_rotated w room =
    let no_rotation : leb w.log.max_bytes w.log.size ≡ false = ground (arith, room) in
    rw no_rotation refl

module _ (json : Json) (max_bytes size seq : ℕ) (hooks : List String) (previous : Option Bytes)
    (x : Entry) (b bytes : Bytes) where
  abbrev start : World
  start = at_file (opened max_bytes size seq hooks) previous bytes

  emit-next :
      size < max_bytes
      → emit json x.time x.kind x.detail start ≡ emit_next json x.time x.kind x.detail start
  unfolding emit
  emit-next room =
      ap (λ r. ◌>>=◌ (λ _. r) (λ _. emit_next json x.time x.kind x.detail) start)
        (not_rotated start room)

  -- Where all calls work and the file is not to be rotated, `Emit` adds the line.
  emit-at_file :
      size < max_bytes
      → json.marshal (event_at seq x) ≡ ok b
      → (let r = emit json x.time x.kind x.detail start in
          (r.0 ≡ done (map (λ h. (h, event_at seq x)) hooks))
          × (r.1.files ≡ record { current = some (bytes ++ (b ++ 10 ∷ [])); previous = previous }))
  unfolding emit_next append_event undo_seq write_line syscall call next_fault later_faults set_log
      set_files append_to_current contents
  emit-at_file room e = rw (emit-next room) (rw e (refl, refl))

-- Bytes that are empty or end in a newline
abbrev pub IsWhole : Bytes → Type 0
IsWhole before = (before ≡ []) ⊎ ((b : Bytes) × (before ≡ b ++ 10 ∷ []))

-- The lines of such bytes are those of what follows them, with others before.
whole_lines :
    (before : Bytes)
    → IsWhole before
    → (ls : List Bytes) × ((r : Bytes) → split_lines (before ++ r) ≡ ls ++ split_lines r)
whole_lines before (inl e) = ([], λ r. rw e refl)
whole_lines before (inr (b, e)) = (
  split_lines b,
  λ r. rw e (ap split_lines (append_assoc b (10 ∷ []) r) ∙ split_lines-append b r),
)

module _ (json : Json) (before torn : Bytes) (ends : IsWhole before) where
  -- Whatever follows the line, the file is scanned as though it were not there.
  same_scan :
      (after : ℤ) (limit : ℕ) (b later : Bytes) (p : Page)
      → All (λ c. 31 < c) torn
      → All (λ c. 31 < c) b
      → IsLost json (torn ++ b)
      → scan_lines json after limit (split_lines ((before ++ torn) ++ (b ++ 10 ∷ later))) p
        ≡ scan_lines json after limit (split_lines (before ++ later)) p
  same_scan after limit b later p gt gt' lost =
      let (ls, lines) = whole_lines before ends in
      let regroup : (before ++ torn) ++ (b ++ 10 ∷ later) ≡ before ++ ((torn ++ b) ++ 10 ∷ later) =
        append_assoc before torn (b ++ 10 ∷ later)
        ∙ ap (λ t. before ++ t) (sym (append_assoc torn b (10 ∷ later))) in
      rw
        (
          regroup,
          lines ((torn ++ b) ++ 10 ∷ later),
          lines later,
          split_lines-line (torn ++ b) later (All-append _ torn b gt gt'),
        )
        (scan_lines-lost json after limit ls (torn ++ b) (split_lines later) p lost)

  -- As the current file, and after a rotation as the file before
  abbrev pub IsUnseen : Bytes → Type 0
  IsUnseen written =
      (later : Bytes) (after limit : ℤ) (other : Option Bytes)
      → (query json after limit (record { current = some (written ++ later); previous = other })
          ≡ query json after limit (record { current = some (before ++ later); previous = other }))
        × (query json after limit (record { current = other; previous = some (written ++ later) })
            ≡ query json after limit
                (record { current = other; previous = some (before ++ later) }))

  unseen :
      (b : Bytes)
      → All (λ c. 31 < c) torn
      → All (λ c. 31 < c) b
      → IsLost json (torn ++ b)
      → IsUnseen ((before ++ torn) ++ (b ++ 10 ∷ []))
  unfolding query read_file
  unseen b gt gt' lost later after limit other =
      let lim = page_limit limit in
      let none_yet : Page = record { events = []; oldest = 0 } in
      let regroup : ((before ++ torn) ++ (b ++ 10 ∷ [])) ++ later
          ≡ (before ++ torn) ++ (b ++ 10 ∷ later) =
        append_assoc (before ++ torn) (b ++ 10 ∷ []) later
        ∙ ap (λ t. (before ++ torn) ++ t) (append_assoc b (10 ∷ []) later) in
      rw regroup (
        ap answer (
            continue-ext (read_file json after lim (ok other) none_yet) _ _
              λ p. same_scan after lim b later p gt gt' lost),
        ap (λ s. answer (continue s (read_file json after lim (ok other))))
            (same_scan after lim b later none_yet gt gt' lost),
      )

  -- Where the file ends in a part of a line, without the newline, be it its first line or a later one, and
  -- all calls work: `Emit` returns no error, and no query ever finds the event, whatever is written to the
  -- file later, also once the file was rotated away: queries see the file as though neither the part nor
  -- the line were there. The joined line is no event, and the file is not to be rotated.
  pub lost_after_torn :
      (law : JsonLaw json) (max_bytes size seq : ℕ) (hooks : List String) (previous : Option Bytes)
      (x : Entry) (b : Bytes)
      → size < max_bytes
      → json.marshal (event_at seq x) ≡ ok b
      → All (λ c. 31 < c) torn
      → IsLost json (torn ++ b)
      → (let r =
            emit json x.time x.kind x.detail
              (at_file (opened max_bytes size seq hooks) previous (before ++ torn)) in
          (r.0 ≡ done (map (λ h. (h, event_at seq x)) hooks))
          × (r.1.files.previous ≡ previous)
          × ((written : Bytes) × (r.1.files.current ≡ some written) × IsUnseen written))
  lost_after_torn law max_bytes size seq hooks previous x b room e gt lost =
      let emitted =
        emit-at_file json max_bytes size seq hooks previous x b (before ++ torn) room e in
      (
        emitted.0,
        ap (λ (f : Files). f.previous) emitted.1,
        (
          (before ++ torn) ++ (b ++ 10 ∷ []),
          ap (λ (f : Files). f.current) emitted.1,
          unseen b gt (law.printable (event_at seq x) b e) lost,
        ),
      )
