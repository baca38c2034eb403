-- ===== src/Admin/EventLog/Runs.antt =====
-- A run of `Emit` calls and `Query` after it, against the history of the events.
use edge_delta_lab.Prelude.{
  ℕ, ◌+◌, ◌≡◌, take, inl, inr, String, List, [], ◌∷◌, ◌++◌, length, All, ok,
}
use mathlib.Core.List.{append_assoc, append-nil}
use edge_delta_lab.Prelude.Int.{ℤ}
use edge_delta_lab.Lab.Storage.{Outcome, done, failed, crashed}
use edge_delta_lab.Admin.EventLog.State.{Event, Json, World}
use edge_delta_lab.Admin.EventLog.Write.{emit}
use edge_delta_lab.Admin.EventLog.Read.{page_limit, query}
use edge_delta_lab.Admin.EventLog.Held.{JsonLaw, Consecutive, Consecutive-drop}
use edge_delta_lab.Admin.EventLog.Query.{newer, first_seq, page, query-events}
use edge_delta_lab.Admin.EventLog.Keeps.{Held, IsLog, Ends, Written, Either, EitherKept}
use edge_delta_lab.Admin.EventLog.Emits.{Entry, event_at, Fits, emit_lem}

-- The process that calls `Emit` goes on after an error, but not once it was stopped.
unfoldable pub go_on : {A : Type 0} → Outcome A × World → (World → World) → World
go_on (done a, w) f = f w
go_on (failed e, w) f = f w
go_on (crashed, w) f = w

unfoldable pub emit_all : Json → List Entry → World → World
unfolding go_on
emit_all json [] w = w
emit_all json (x ∷ xs) w = go_on (emit json x.time x.kind x.detail w) (emit_all json xs)

-- The events are for some of the entries, in their order.
pub data Logged : List Entry → List Event → Type 0 where
  nil : Logged [] []
  lost : {x : Entry} {xs : List Entry} {es : List Event} → Logged xs es → Logged (x ∷ xs) es
  kept :
      {x : Entry} {xs : List Entry} {es : List Event} (n : ℕ)
      → Logged xs es
      → Logged (x ∷ xs) (event_at n x ∷ es)

Logged-nil : (xs : List Entry) → Logged xs []
Logged-nil [] = nil
Logged-nil (x ∷ xs) = lost (Logged-nil xs)

-- What the files hold after a run.
abbrev Ran : Json → List Event → List Entry → World → Type 0
Ran json history xs w = (es : List Event) × Logged xs es × Held json w.files (history ++ es)

module _ (json : Json) where
  Ran-kept :
      (history : List Event) (x : Entry) (xs : List Entry) (w : World)
      → Ran json (history ++ event_at (length history) x ∷ []) xs w
      → Ran json history (x ∷ xs) w
  Ran-kept history x xs w (es, l, h) = (
    event_at (length history) x ∷ es,
    kept (length history) l,
    rw (append_assoc history (event_at (length history) x ∷ []) es) at h,
  )

  Ran-lost :
      (history : List Event) (x : Entry) (xs : List Entry) (w : World)
      → Ran json history xs w
      → Ran json history (x ∷ xs) w
  Ran-lost history x xs w (es, l, h) = (es, lost l, h)

  Ran-nil :
      (history : List Event) (xs : List Entry) (w : World)
      → Held json w.files history
      → Ran json history xs w
  Ran-nil history xs w h = ([], Logged-nil xs, rw (append-nil history) h)

  go_on-Ran :
      (history : List Event) (x : Entry) (xs : List Entry)
      (r : Outcome (List (String × Event)) × World)
      → Ends
          (EitherKept json history (event_at (length history) x))
          (Either json history (event_at (length history) x))
          (Written json history (event_at (length history) x))
          r
      → ((h : List Event) (w : World) → IsLog json w h → Ran json h xs (emit_all json xs w))
      → Ran json history (x ∷ xs) (go_on r (emit_all json xs))
  unfolding go_on
  go_on-Ran history x xs (done a, w) h ih = Ran-kept history x xs (emit_all json xs w) (ih _ w h)
  go_on-Ran history x xs (failed e, w) (inl h) ih =
      Ran-lost history x xs (emit_all json xs w) (ih _ w h)
  go_on-Ran history x xs (failed e, w) (inr h) ih =
      Ran-kept history x xs (emit_all json xs w) (ih _ w h)
  go_on-Ran history x xs (crashed, w) (inl h) ih = Ran-lost history x xs w (Ran-nil history xs w h)
  go_on-Ran history x xs (crashed, w) (inr h) ih = Ran-kept history x xs w (Ran-nil _ xs w h)

  emit_all-Ran :
      (xs : List Entry) (history : List Event) (w : World)
      → IsLog json w history
      → All (Fits json) xs
      → Ran json history xs (emit_all json xs w)
  unfolding emit_all
  emit_all-Ran [] history w h fits = Ran-nil history [] w h.held
  emit_all-Ran (x ∷ xs) history w h fits =
      go_on-Ran history x xs (emit json x.time x.kind x.detail w)
        (emit_lem json history x fits.0 w h) (λ hs w' h'. emit_all-Ran xs hs w' h' fits.1)

  -- Over any run of `Emit` calls, whichever of their calls fail or stop without leaving part of a
  -- line, there is a history: the one before, and then events for some of the entries, in their
  -- order, all numbered from 1 without a gap; and whatever is asked, `Query`, which can open its
  -- files, answers without an error and with the first events above `after`, up to the limit, of the
  -- history without a first part, and with the lowest sequence number of that.
  pub emit_all-Refines :
      (law : JsonLaw json) (xs : List Entry) (history : List Event) (w : World)
      → IsLog json w history
      → All (Fits json) xs
      → (es : List Event) × (dropped : List Event) × (retained : List Event) × Logged xs es
        × (history ++ es ≡ dropped ++ retained)
        × Consecutive 0 (history ++ es)
        × ((after limit : ℤ)
            → query json after limit (emit_all json xs w).files
              ≡ (page (take (page_limit limit) (newer after retained)) (first_seq retained), ok tt))
  emit_all-Refines law xs history w h fits =
      let (es, logged, held) = emit_all-Ran xs history w h fits in
      let now =
        Consecutive-drop 0 held.dropped (held.before ++ held.now)
          (rw held.split at held.numbered) in
      (
        es,
        held.dropped,
        held.before ++ held.now,
        logged,
        held.split,
        held.numbered,
        λ after limit.
            query-events json law after limit (emit_all json xs w).files held.before held.now
              (0 + length held.dropped) held.previous_holds held.current_holds now,
      )
