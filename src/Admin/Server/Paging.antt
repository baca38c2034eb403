-- ===== src/Admin/Server/Paging.antt =====
-- Reading the whole event log of internal/admin/server.go page by page.
use edge_delta_lab.Prelude.{
  ℕ, zero, suc, ◌+◌, ◌^◌, ◌<◌, ◌≤◌, ◌≡◌, ◌≢◌, refl, sym, ap, ◌∙◌, true, false, some, List, [], ◌∷◌,
  ◌++◌, length, take, drop, ok, arith, leb, leb→le, leb→gt, Bool-cases, inl, inr, length-append,
  length-drop,
}
use mathlib.Core.Path.{subst}
use mathlib.Core.List.{append_assoc}
use edge_delta_lab.Prelude.Int.{ℤ, pos, leb_ℤ}
use edge_delta_lab.Admin.EventLog.State.{Bytes, Event, Files}
use edge_delta_lab.Admin.EventLog.Read.{page_limit}
use edge_delta_lab.Admin.EventLog.Held.{JsonLaw, Holds, Consecutive, Consecutive-drop}
use edge_delta_lab.Admin.EventLog.Query.{newer, query-events, page_limit-pos}
use edge_delta_lab.Admin.Server.{
  Server, Handled, events, latest_seq, page_reply, events_in, handle_events, handle,
}

-- The events of an answer and its field `latest`.
abbrev pub page_of : {Stats : Type 0} → Handled Stats → List Event × ℕ
page_of (inl (events evs oldest latest)) = (evs, latest)
page_of _ = ([], 0)

-- What a client has read after a page: nothing where it is empty, else it goes on from `latest`.
abbrev pub read_on : List Event × ℕ → (ℕ → List Event) → List Event
read_on ([], latest) go_on = []
read_on (ev ∷ evs, latest) go_on = ev ∷ evs ++ go_on latest

-- A client that asks for the events after the last one it was given, until a page is empty; `ask`
-- writes the parameters, and at most so many pages are read.
abbrev pub pages : {Stats : Type 0} → Server Stats → (ℕ → Bytes) → ℕ → ℕ → List Event
pages s ask zero after = []
pages s ask (suc n) after =
    read_on (page_of (handle s "events" (ask after))) (λ latest. pages s ask n latest)

test-seq : (m a : ℕ) → m ≤ a → leb_ℤ (pos m) (pos a) ≡ true
test-seq m a le = ground (arith, le)

test-seq-false : (m a : ℕ) → a < m → leb_ℤ (pos m) (pos a) ≡ false
test-seq-false m a lt = ground (arith, lt)

newer-all : (a n : ℕ) (es : List Event) → Consecutive n es → a ≤ n → newer (pos a) es ≡ es
newer-all a n [] h le = refl
newer-all a n (ev ∷ es) (e, h) le =
    rw (test-seq-false ev.seq a (omega (arith, e, le)))
      (ap (λ t. ev ∷ t) (newer-all a (suc n) es h (omega (arith, le))))

newer-append :
    (c n : ℕ) (seen es : List Event)
    → Consecutive n (seen ++ es)
    → c ≡ n + length seen
    → newer (pos c) (seen ++ es) ≡ es
newer-append c n [] es h same = newer-all c n es h (omega (arith, same))
newer-append c n (ev ∷ seen) es (e, h) same =
    rw (test-seq ev.seq c (omega (arith, e, same)))
      (newer-append c (suc n) seen es h (omega (arith, same)))

latest_seq_lem :
    (n : ℕ) (ev : Event) (es later : List Event)
    → Consecutive n (ev ∷ es ++ later)
    → latest_seq (ev ∷ es) ≡ n + suc (length es)
unfolding latest_seq
latest_seq_lem n ev [] later (e, h) = omega (arith, e)
latest_seq_lem n ev (ev' ∷ es) later (e, h) =
    let rest = latest_seq_lem (suc n) ev' es later h in omega (arith, rest)

-- The events above a number are those after some first ones.
newer-suffix :
    (a n : ℕ) (es : List Event)
    → Consecutive n es
    → (seen : List Event) × (es ≡ seen ++ newer (pos a) es)
newer-suffix a n [] h = ([], refl)
newer-suffix a n (ev ∷ es) (e, h) = elim (Bool-cases (leb ev.seq a)) [
  | inl f ↦
      let (seen, eq) = newer-suffix a (suc n) es h in
      (ev ∷ seen, rw (test-seq ev.seq a (leb→le ev.seq a f)) (ap (λ t. ev ∷ t) eq))
  | inr f ↦
      let lt : a < ev.seq = leb→gt ev.seq a f in
      ([], sym (newer-all a n (ev ∷ es) (e, h) (omega (arith, e, lt))))
]

append-take-drop {ℓ} : {A : Type ℓ} (n : ℕ) (xs : List A) → take n xs ++ drop n xs ≡ xs
append-take-drop zero xs = refl
append-take-drop (suc n) [] = refl
append-take-drop (suc n) (x ∷ xs) = ap (λ t. x ∷ t) (append-take-drop n xs)

pos-suc : (n : ℕ) → 0 < n → (k : ℕ) × (n ≡ suc k)
pos-suc zero lt = absurd (omega (arith, lt))
pos-suc (suc n) lt = (n, refl)

-- The last number of a page, and so the next cursor, is not above that of the last event.
latest_seq-at_most :
    (n : ℕ) (seen : List Event) (ev : Event) (es later : List Event)
    → Consecutive n ((seen ++ ev ∷ es) ++ later)
    → latest_seq (ev ∷ es) ≤ n + length ((seen ++ ev ∷ es) ++ later)
latest_seq-at_most n seen ev es later h =
    let rest =
      Consecutive-drop n seen (ev ∷ es ++ later)
        (subst (λ t. Consecutive n t) (append_assoc seen (ev ∷ es) later) h) in
    omega (
      arith,
      latest_seq_lem (n + length seen) ev es later rest,
      length-append seen (ev ∷ es),
      length-append (seen ++ ev ∷ es) later,
    )

-- The last number of a page is the cursor of what follows it.
newer-page :
    (n : ℕ) (seen : List Event) (ev : Event) (es later : List Event)
    → Consecutive n ((seen ++ ev ∷ es) ++ later)
    → newer (pos (latest_seq (ev ∷ es))) ((seen ++ ev ∷ es) ++ later) ≡ later
newer-page n seen ev es later h =
    let rest =
      Consecutive-drop n seen (ev ∷ es ++ later)
        (subst (λ t. Consecutive n t) (append_assoc seen (ev ∷ es) later) h) in
    newer-append (latest_seq (ev ∷ es)) n (seen ++ ev ∷ es) later h (
      omega
        (arith, latest_seq_lem (n + length seen) ev es later rest, length-append seen (ev ∷ es)))

module _ {Stats : Type 0} (s : Server Stats) (law : JsonLaw s.json) (files : Files)
    (before now : List Event) (n : ℕ) (hb : Holds s.json files.previous before)
    (hn : Holds s.json files.current now) (numbered : Consecutive n (before ++ now))
    (logged : s.log ≡ some files) (limit : ℤ) (ask : ℕ → Bytes)
    (asked : (a : ℕ) → a < 2 ^ 63 → (ask a ≢ []) × (s.parse_window (ask a) ≡ ok (pos a, limit)))
    (fits : n + length (before ++ now) < 2 ^ 63) where
  abbrev es : List Event
  es = before ++ now

  window_of :
      (ps : Bytes)
      → ps ≢ []
      → elim ps [ [] ↦ ok (pos 0, pos 0) | b ∷ bs ↦ s.parse_window (b ∷ bs) ] ≡ s.parse_window ps
  window_of [] h = absurd (h refl)
  window_of (b ∷ bs) h = refl

  handle-events :
      (a : ℕ)
      → a < 2 ^ 63
      → page_of (handle s "events" (ask a)) ≡ (
        take (page_limit limit) (newer (pos a) es),
        latest_seq (take (page_limit limit) (newer (pos a) es)),
      )
  unfolding handle handle_events events_in page_reply
  handle-events a small =
      rw
        (
          window_of (ask a) ((asked a small).0),
          (asked a small).1,
          logged,
          query-events s.json law (pos a) limit files before now n hb hn numbered,
        )
        refl

  pages-later :
      (m a : ℕ) (seen xs : List Event)
      → es ≡ seen ++ xs
      → newer (pos a) es ≡ xs
      → a < 2 ^ 63
      → length xs ≤ m
      → pages s ask m a ≡ xs
  pages-later zero a seen [] eq new small le = refl
  pages-later zero a seen (x ∷ xs) eq new small le = absurd (omega (arith, le))
  pages-later (suc m) a seen [] eq new small le =
      let (l, e) = pos-suc (page_limit limit) (page_limit-pos limit) in
      ap (λ p. read_on p (λ latest. pages s ask m latest)) (handle-events a small)
      ∙ rw (new, e) refl
  pages-later (suc m) a seen (x ∷ xs) eq new small le =
      let (l, e) = pos-suc (page_limit limit) (page_limit-pos limit) in
      let split : es ≡ (seen ++ x ∷ take l xs) ++ drop l xs =
        eq
        ∙ ap (λ t. seen ++ x ∷ t) (sym (append-take-drop l xs))
        ∙ sym (append_assoc seen (x ∷ take l xs) (drop l xs)) in
      let next =
        newer-page n seen x (take l xs) (drop l xs) (subst (λ t. Consecutive n t) split numbered) in
      let at_most =
        latest_seq-at_most n seen x (take l xs) (drop l xs)
          (subst (λ t. Consecutive n t) split numbered) in
      let rest =
        pages-later m (latest_seq (x ∷ take l xs)) (seen ++ x ∷ take l xs) (drop l xs) split
          (subst (λ t. newer (pos (latest_seq (x ∷ take l xs))) t ≡ drop l xs) (sym split) next)
          (omega (arith, fits, at_most, ap (λ t. length t) split))
          (omega (arith, le, length-drop l xs)) in
      ap (λ p. read_on p (λ latest. pages s ask m latest)) (handle-events a small)
      ∙ rw (new, e, rest) (ap (λ t. x ∷ t) (append-take-drop l xs))

  -- On a log whose two files hold events with consecutive sequence numbers, a client that asks for
  -- `events`, each time with the last number it was given, until a page is empty, gets every event
  -- above the number it starts at once and in order, whatever the limit of a page, where the parameters
  -- that it writes are read back, as many pages are allowed as there are events, and the numbers are below
  -- 2^63.
  pub pages_lem :
      (a m : ℕ)
      → a < 2 ^ 63
      → length (before ++ now) ≤ m
      → pages s ask m a ≡ newer (pos a) (before ++ now)
  pages_lem a m small le =
      let (seen, eq) = newer-suffix a n es numbered in
      pages-later m a seen (newer (pos a) es) eq refl small
        (omega (arith, le, ap (λ t. length t) eq, length-append seen (newer (pos a) es)))
