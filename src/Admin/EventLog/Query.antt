-- ===== src/Admin/EventLog/Query.antt =====
-- `Query` of internal/admin/admin.go on files that hold a list of events.
use edge_delta_lab.Prelude.{
  ℕ, zero, suc, ◌<◌, ◌≤◌, ◌≡◌, refl, ap, true, Option, none, some, List, [], ◌∷◌, ◌++◌, length,
  take, if◌then◌else◌, ok, arith, leb, leb→le, leb→gt, Bool-cases, inl, inr, length-append,
}
use mathlib.Core.List.{append_assoc, append-nil}
use edge_delta_lab.Prelude.Int.{ℤ, pos, negsuc, leb_ℤ}
use edge_delta_lab.Admin.EventLog.State.{Event, Json, Files, Bytes, contents}
use edge_delta_lab.Admin.EventLog.Read.{
  Page, continue, oldest_with, append_until, scan_event, page_limit, answer, read_file, query,
}
use edge_delta_lab.Admin.EventLog.Held.{
  line-not-nil, JsonLaw, Holds, Consecutive, scan_events, scan_lines-events, continue-ext,
  continue_assoc,
}

-- The events with a higher sequence number.
abbrev pub newer : ℤ → List Event → List Event
newer after [] = []
newer after (ev ∷ es) =
    let rest = newer after es in if leb_ℤ (pos ev.seq) after then rest else ev ∷ rest

abbrev pub first_seq : List Event → ℕ
first_seq [] = 0
first_seq (ev ∷ es) = ev.seq

take-short {ℓ} : {A : Type ℓ} (n : ℕ) (xs : List A) → length xs ≤ n → take n xs ≡ xs
take-short zero [] h = refl
take-short zero (x ∷ xs) h = absurd (omega (arith, h))
take-short (suc n) [] h = refl
take-short (suc n) (x ∷ xs) h = ap (λ t. x ∷ t) (take-short n xs (omega (arith, h)))

take-full {ℓ} : {A : Type ℓ} (xs ys : List A) → take (length xs) (xs ++ ys) ≡ xs
take-full [] ys = refl
take-full (x ∷ xs) ys = ap (λ t. x ∷ t) (take-full xs ys)

oldest-kept : (seq old : ℕ) → 0 < old → old ≤ seq → oldest_with seq old ≡ old
unfolding oldest_with
oldest-kept seq old gt le = ground (arith, gt, le)

regroup {ℓ} : {A : Type ℓ} (xs : List A) (x : A) (ys : List A) → xs ++ x ∷ [] ++ ys ≡ xs ++ x ∷ ys
regroup xs x ys = append_assoc xs (x ∷ []) ys

take-reached {ℓ} :
    {A : Type ℓ} (limit : ℕ) (xs : List A) (x : A) (ys : List A)
    → length xs < limit
    → leb limit (length (xs ++ x ∷ [])) ≡ true
    → take limit (xs ++ x ∷ ys) ≡ xs ++ x ∷ []
take-reached limit xs x ys lt f =
    let e : limit ≡ length (xs ++ x ∷ []) =
      omega (arith, leb→le limit _ f, length-append xs (x ∷ [])) in
    rw (e, ← regroup xs x ys) (take-full (xs ++ x ∷ []) ys)

abbrev pub page : List Event → ℕ → Page
page evs old = record { events = evs; oldest = old }

module _ (after : ℤ) (limit : ℕ) where
  -- An event that is taken, and the events after it.
  append_until-later :
      (es : List Event) (evs : List Event) (old : ℕ) (ev : Event)
      → length evs < limit
      → (length (evs ++ ev ∷ []) < limit
          → answer (scan_events after limit es (page (evs ++ ev ∷ []) old))
            ≡ (page (take limit (evs ++ ev ∷ [] ++ newer after es)) old, ok tt))
      → answer (continue (append_until limit ev (page evs old)) (λ p. scan_events after limit es p))
        ≡ (page (take limit (evs ++ ev ∷ newer after es)) old, ok tt)
  unfolding append_until continue answer
  append_until-later es evs old ev lt later =
      elim (Bool-cases (leb limit (length (evs ++ ev ∷ [])))) [
        | inl f ↦ rw (f, take-reached limit evs ev (newer after es) lt f) refl
        | inr f ↦ rw (f, ← regroup evs ev (newer after es)) (later (leb→gt limit _ f))
      ]

  -- What the loops come to once they have seen an event.
  scan_events-later :
      (es : List Event) (n : ℕ) (evs : List Event) (old : ℕ)
      → Consecutive n es
      → 0 < old
      → old ≤ suc n
      → length evs < limit
      → answer (scan_events after limit es (page evs old))
        ≡ (page (take limit (evs ++ newer after es)) old, ok tt)
  unfolding scan_events continue answer scan_event
  scan_events-later [] n evs old h gt le lt =
      rw (append-nil evs, take-short limit evs (omega (arith, lt))) refl
  scan_events-later (ev ∷ es) n evs old (e, h) gt le lt =
      let same = oldest-kept ev.seq old gt (omega (arith, e, le)) in
      rw same (elim (Bool-cases (leb_ℤ (pos ev.seq) after)) [
        | inl q ↦ rw q (scan_events-later es (suc n) evs old h gt (omega (arith, le)) lt)
        | inr q ↦ rw q (
            append_until-later es evs old ev lt
              (scan_events-later es (suc n) (evs ++ ev ∷ []) old h gt (omega (arith, le))))
      ])

  -- The loops over all events, from the start.
  scan_events_lem :
      (es : List Event) (n : ℕ)
      → Consecutive n es
      → 0 < limit
      → answer (scan_events after limit es (page [] 0))
        ≡ (page (take limit (newer after es)) (first_seq es), ok tt)
  unfolding scan_events continue answer scan_event oldest_with append_until
  scan_events_lem [] n h lt = rw (take-short {A = Event} limit [] (omega (arith, lt))) refl
  scan_events_lem (ev ∷ es) n (e, h) lt = elim (Bool-cases (leb_ℤ (pos ev.seq) after)) [
    | inl q ↦
        rw q (scan_events-later es (suc n) [] ev.seq h (omega (arith, e)) (omega (arith, e)) lt)
    | inr q ↦ rw q (
        append_until-later es [] ev.seq ev lt
          (scan_events-later es (suc n) (ev ∷ []) ev.seq h (omega (arith, e)) (omega (arith, e))))
  ]

  scan_events-append :
      (es later : List Event) (p : Page)
      → scan_events after limit (es ++ later) p
        ≡ continue (scan_events after limit es p) (scan_events after limit later)
  unfolding scan_events continue
  scan_events-append [] later p = refl
  scan_events-append (ev ∷ es) later p =
      rw continue_assoc
        (continue-ext (scan_event after limit ev p) _ _ (scan_events-append es later))

pub page_limit-pos : (limit : ℤ) → 0 < page_limit limit
unfolding page_limit
page_limit-pos (pos n) = ground arith
page_limit-pos (negsuc n) = ground arith

module _ (json : Json) (law : JsonLaw json) where
  read_file-events :
      (after : ℤ) (limit : ℕ) (file : Option Bytes) (es : List Event) (p : Page)
      → Holds json file es
      → read_file json after limit (ok file) p ≡ scan_events after limit es p
  unfolding read_file contents scan_events
  read_file-events after limit none [] p h = refl
  read_file-events after limit none (ev ∷ es) p (b, rest, e, l, eq, t) =
      absurd (line-not-nil b rest eq)
  read_file-events after limit (some b) es p h = scan_lines-events json law after limit es b p h

  -- On files that hold the events of one run of sequence numbers, `Query` gives the first events above
  -- `after`, up to the limit, and the lowest sequence number.
  pub query-events :
      (after limit : ℤ) (fs : Files) (before now : List Event) (n : ℕ)
      → Holds json fs.previous before
      → Holds json fs.current now
      → Consecutive n (before ++ now)
      → query json after limit fs ≡ (
        page (take (page_limit limit) (newer after (before ++ now))) (first_seq (before ++ now)),
        ok tt,
      )
  unfolding query
  query-events after limit fs before now n hb hn h =
      let lim = page_limit limit in
      rw
        (
          read_file-events after lim fs.previous before (page [] 0) hb,
          continue-ext (scan_events after lim before (page [] 0)) _ _
              (λ p. read_file-events after lim fs.current now p hn),
          ← scan_events-append after lim before now (page [] 0),
        )
        (scan_events_lem after lim (before ++ now) n h (page_limit-pos limit))
