-- ===== src/Admin/EventLog/Held.antt =====
-- Files of the event log that hold a list of events, line by line.
use edge_delta_lab.Prelude.{
  ℕ, suc, ◌+◌, ◌<◌, ◌≡◌, refl, ap, false, Option, none, some, List, [], ◌∷◌, ◌++◌, length, ok, All,
  arith, leb,
}
use mathlib.Core.List.{append_assoc}
use edge_delta_lab.Admin.EventLog.State.{Bytes, Event, Json, contents}
use edge_delta_lab.Admin.EventLog.Read.{
  split_lines, event_of, drop_cr, max_line, Page, Scan, more, full, broken, continue, scan_event,
  scan_found, scan_line, scan_lines,
}
use edge_delta_lab.Prelude.Int.{ℤ}

-- What the log relies on of encoding/json: a marshalled event is text without control characters, from
-- which the event can be read again, and no event is read from nothing.
pub record JsonLaw (json : Json) : Type 0 where
  pub read_back : (ev : Event) (b : Bytes) → json.marshal ev ≡ ok b → json.unmarshal b ≡ some ev
  pub printable : (ev : Event) (b : Bytes) → json.marshal ev ≡ ok b → All (λ c. 31 < c) b
  pub trimmed : (ev : Event) (b : Bytes) → json.marshal ev ≡ ok b → json.trim_space b ≡ b
  pub trim_empty : json.trim_space [] ≡ []
  pub empty : json.unmarshal [] ≡ none

-- The bytes are the events, one to a line that a scanner accepts.
abbrev pub Encodes : Json → List Event → Bytes → Type 0
Encodes json [] bytes = bytes ≡ []
Encodes json (ev ∷ es) bytes =
    (b : Bytes) × (rest : Bytes) × (json.marshal ev ≡ ok b)
    × (length b < max_line)
    × (bytes ≡ b ++ 10 ∷ rest)
    × Encodes json es rest

abbrev pub Holds : Json → Option Bytes → List Event → Type 0
Holds json file es = Encodes json es (contents file)

-- The sequence numbers go up by one from `n`.
abbrev pub Consecutive : ℕ → List Event → Type 0
Consecutive n [] = Unit
Consecutive n (ev ∷ es) = (ev.seq ≡ suc n) × Consecutive (suc n) es

pub Consecutive-append :
    (n : ℕ) (es : List Event) (ev : Event)
    → Consecutive n es
    → ev.seq ≡ suc (n + length es)
    → Consecutive n (es ++ ev ∷ [])
Consecutive-append n [] ev h e = (omega (arith, e), tt)
Consecutive-append n (x ∷ es) ev h e =
    (h.0, Consecutive-append (suc n) es ev h.1 (omega (arith, e)))

pub line-not-nil : (b rest : Bytes) → [] ≡ b ++ 10 ∷ rest → ⊥
line-not-nil [] rest e = cc
line-not-nil (c ∷ b) rest e = cc

pub Consecutive-drop :
    (n : ℕ) (es later : List Event)
    → Consecutive n (es ++ later)
    → Consecutive (n + length es) later
Consecutive-drop n [] later h = let e : n + 0 ≡ n = omega arith in rw e h
Consecutive-drop n (ev ∷ es) later h =
    let e : n + suc (length es) ≡ suc n + length es = omega arith in
    rw e (Consecutive-drop (suc n) es later h.1)

pub Encodes-append :
    (json : Json) (es : List Event) (bytes : Bytes) (ev : Event) (b : Bytes)
    → Encodes json es bytes
    → json.marshal ev ≡ ok b
    → length b < max_line
    → Encodes json (es ++ ev ∷ []) (bytes ++ (b ++ 10 ∷ []))
Encodes-append json [] bytes ev b h e lt = (b, [], e, lt, rw h refl, refl)
Encodes-append json (x ∷ es) bytes ev b (b', rest, q, lt', eq, t) e lt = (
  b',
  rest ++ (b ++ 10 ∷ []),
  q,
  lt',
  rw eq (append_assoc b' (10 ∷ rest) (b ++ 10 ∷ [])),
  Encodes-append json es rest ev b t e lt,
)

-- A line without a newline is the first part.
pub split_lines-line :
    (b rest : Bytes) → All (λ c. 31 < c) b → split_lines (b ++ 10 ∷ rest) ≡ b ∷ split_lines rest
unfolding split_lines
split_lines-line [] rest h = refl
split_lines-line (c ∷ b) rest (gt, h) =
    let first = split_lines-line b rest h in rw first (ground (arith, gt))

pub drop_cr-line : (b : Bytes) → All (λ c. 31 < c) b → drop_cr b ≡ b
unfolding drop_cr
drop_cr-line [] h = refl
drop_cr-line (c ∷ []) h = ground (arith, h.0)
drop_cr-line (c ∷ d ∷ cs) h = ap (λ t. c ∷ t) (drop_cr-line (d ∷ cs) h.1)

pub continue-ext :
    (s : Scan) (f g : Page → Scan) → ((p : Page) → f p ≡ g p) → continue s f ≡ continue s g
unfolding continue
continue-ext (more p) f g h = h p
continue-ext (full p) f g h = refl
continue-ext (broken p e) f g h = refl

pub continue_assoc :
    (s : Scan) (f g : Page → Scan) → continue (continue s f) g ≡ continue s (λ p. continue (f p) g)
unfolding continue
continue_assoc (more p) f g = refl
continue_assoc (full p) f g = refl
continue_assoc (broken p e) f g = refl

-- The loops of `Query` on events
unfoldable pub scan_events : ℤ → ℕ → List Event → Page → Scan
scan_events after limit [] p = more p
scan_events after limit (ev ∷ es) p =
    continue (scan_event after limit ev p) (scan_events after limit es)

module _ (json : Json) (law : JsonLaw json) where
  pub event_of-line : (ev : Event) (b : Bytes) → json.marshal ev ≡ ok b → event_of json b ≡ some ev
  unfolding event_of
  event_of-line ev [] e =
      let absent : json.unmarshal [] ≡ some ev = law.read_back ev [] e in cc (absent, law.empty)
  event_of-line ev (c ∷ cs) e = law.read_back ev (c ∷ cs) e

module _ (json : Json) (law : JsonLaw json) (after : ℤ) (limit : ℕ) where
  scan_line-line :
      (ev : Event) (b : Bytes) (p : Page)
      → json.marshal ev ≡ ok b
      → length b < max_line
      → scan_line json after limit b p ≡ scan_event after limit ev p
  unfolding scan_line scan_found
  scan_line-line ev b p e lt =
      let fits : leb max_line (length b) ≡ false = ground (arith, lt) in
      let line = drop_cr-line b (law.printable ev b e) in
      rw (fits, line, law.trimmed ev b e, event_of-line json law ev b e) refl

  scan_lines-empty : (p : Page) → scan_lines json after limit (split_lines []) p ≡ more p
  unfolding scan_lines split_lines scan_line
  scan_lines-empty p = rw law.trim_empty refl

  pub scan_lines-events :
      (es : List Event) (bytes : Bytes) (p : Page)
      → Encodes json es bytes
      → scan_lines json after limit (split_lines bytes) p ≡ scan_events after limit es p
  unfolding scan_lines scan_events
  scan_lines-events [] bytes p h = rw h (scan_lines-empty p)
  scan_lines-events (ev ∷ es) bytes p (b, rest, e, lt, eq, t) =
      rw (eq, split_lines-line b rest (law.printable ev b e), scan_line-line ev b p e lt)
        (continue-ext (scan_event after limit ev p) _ _ λ p'. scan_lines-events es rest p' t)
