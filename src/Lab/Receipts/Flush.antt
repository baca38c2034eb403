-- ===== src/Lab/Receipts/Flush.antt =====
-- `FlushReceipts` of internal/lab/telemetry.go loses no receipt.
use edge_delta_lab.Prelude.{
  ℕ, ◌≡◌, ◌≢◌, ◌∙◌, refl, sym, String, Bool, not, ◌||◌, Option, none, some, List, [], ◌∷◌, Result,
  ok, err, inl, inr, Bool-cases, Option-cases, str_eq, eq_iff, if-elim,
}
use mathlib.Core.Path.{subst}
use edge_delta_lab.Prelude.Dict.{lookup, remove, lookup-remove}
use edge_delta_lab.Lab.Storage
use edge_delta_lab.Lab.Storage.{
  Fault, works, breaks, stops, Disk, Outcome, done, failed, crashed, unlink, syscall, fault,
}
use edge_delta_lab.Lab.Storage.Triple.{Files, unlink-keeps}
use edge_delta_lab.Lab.Agent.{World, allowed_url}
use edge_delta_lab.Lab.Server.Transfer.{Env}
use edge_delta_lab.Lab.Receipts.{
  Codec, receipt_path, Line, post, on_client, acknowledged, flush_body, Entry, flush_entry,
  flush_after, flush_entries, flush_listed, flush_allowed, flush_receipts,
}
use edge_delta_lab.Lab.Receipts.Delivery.{DeliveredTo, IsSafe, Posted, post-Posted}

syscall-files : (what : String) (d : Disk) → (syscall what d).1.files ≡ d.files
unfolding syscall fault
syscall-files what d = go d.faults
  where
    go : (fs : List Fault) → (fault what fs d.files d.files).1.files ≡ d.files
    go [] = refl
    go (works ∷ fs) = refl
    go (breaks ∷ fs) = refl
    go (stops ∷ fs) = refl

-- The removal of a file and the sync of its directory leave the files or drop that one.
unlink_and_sync-keeps :
    (path : String) (P : Files → Type 0) (d : Disk)
    → P d.files
    → P (remove path d.files)
    → P (Storage.◌>>◌ (unlink path) (syscall "sync dir") d).1.files
unfolding Storage.◌>>=◌
unlink_and_sync-keeps path P d p q = go (unlink path d) (unlink-keeps path P d.files d.faults p q)
  where
    go :
        (r : Outcome (Unit {0}) × Disk)
        → P r.1.files
        → P (Storage.◌>>◌ (λ _. r) (syscall "sync dir") d).1.files
    go (done u, d') h = subst P (sym (syscall-files "sync dir" d')) h
    go (failed e, d') h = h
    go (crashed, d') h = h

module _ (env : Env) (c : Codec) (tmp : String)
    (own_temp : (id : String) → receipt_path id ≢ tmp) where
  abbrev Safe : String → List ℕ → Line → Type 0
  Safe = IsSafe env c tmp own_temp

  abbrev Delivered : List ℕ → Disk → Type 0
  Delivered = DeliveredTo env c tmp own_temp

  Posted-IsSafe :
      (p : String) (body b : List ℕ) (l : Line) (r : Option ℕ × Line)
      → Posted env c tmp own_temp body l r
      → Safe p b l
      → Safe p b r.1
  Posted-IsSafe p body b l r posted (inl h) =
      inl (subst (λ (d : Disk). lookup p d.files ≡ some b) (sym posted.0) h)
  Posted-IsSafe p body b l r posted (inr d) = inr (posted.1 b d)

  -- The file is dropped only once its receipt was delivered.
  dropped-IsSafe :
      (path p : String) (body b : List ℕ) (l : Line)
      → lookup path l.client.files ≡ some body
      → Delivered body l.server
      → Safe p b l
      → Safe p b (on_client (Storage.◌>>◌ (unlink path) (syscall "sync dir")) l).1
  unfolding on_client
  dropped-IsSafe path p body b l held sent (inr d) = inr d
  dropped-IsSafe path p body b l held sent (inl h) = elim (Bool-cases (str_eq path p)) [
    | inl q ↦
        let here : lookup p l.client.files ≡ some body =
          subst (λ t. lookup t l.client.files ≡ some body) ((eq_iff path p).0 q) held in
        let content : body ≡ b = cc (here, h) in
        inr (subst (λ t. Delivered t l.server) content sent)
    | inr q ↦ inl (
        unlink_and_sync-keeps path (λ fs. lookup p fs ≡ some b) l.client h
          (lookup-remove path p l.client.files ∙ rw q h))
  ]

  flush_body-IsSafe :
      (path p : String) (body b : List ℕ) (l : Line)
      → lookup path l.client.files ≡ some body
      → Safe p b l
      → Safe p b (flush_body env c tmp path body l).1
  unfolding flush_body
  flush_body-IsSafe path p body b l held safe =
      let r = post env c tmp body l in
      let posted = post-Posted env c tmp own_temp body l in
      let after = Posted-IsSafe p body b l r posted safe in
      let held' : lookup path r.1.client.files ≡ some body =
        subst (λ (d : Disk). lookup path d.files ≡ some body) (sym posted.0) held in
      if-elim (λ (q : Outcome (Unit {0}) × Line). Safe p b q.1) (acknowledged r.0)
        (λ success. dropped-IsSafe path p body b r.1 held' (posted.2 success) after)
        (λ failure. after)

  flush_entry-IsSafe :
      (p : String) (b : List ℕ) (e : Entry) (l : Line)
      → Safe p b l
      → Safe p b (flush_entry env c tmp e l).1
  unfolding flush_entry
  flush_entry-IsSafe p b e l safe =
      if-elim (λ (q : Outcome (Unit {0}) × Line). Safe p b q.1) (e.is_dir || not e.is_json)
        (λ _. safe)
        (λ _. elim (Option-cases (lookup e.path l.client.files)) [
          | inl none_there ↦ rw none_there safe
          | inr (body, there) ↦ rw there (flush_body-IsSafe e.path p body b l there safe)
        ])

  flush_entries-IsSafe :
      (p : String) (b : List ℕ) (es : List Entry) (l : Line)
      → Safe p b l
      → Safe p b (flush_entries env c tmp es l).1
  unfolding flush_entries flush_after
  flush_entries-IsSafe p b [] l safe = safe
  flush_entries-IsSafe p b (e ∷ es) l safe =
      go (flush_entries-IsSafe p b es) (flush_entry env c tmp e l) (flush_entry-IsSafe p b e l safe)
    where
      go :
          ((l' : Line) → Safe p b l' → Safe p b (flush_entries env c tmp es l').1)
          → (r : Outcome (Unit {0}) × Line) → Safe p b r.1
          → Safe p b (flush_after r (flush_entries env c tmp es)).1
      go later (done u, l') h = later l' h
      go later (failed e, l') h = h
      go later (crashed, l') h = h

  flush_listed-IsSafe :
      (p : String) (b : List ℕ) (listing : Result (Option (List Entry))) (made : Result (Unit {0}))
      (l : Line)
      → Safe p b l
      → Safe p b (flush_listed env c tmp listing made l).1
  unfolding flush_listed
  flush_listed-IsSafe p b (err e) made l h = h
  flush_listed-IsSafe p b (ok none) made l h = h
  flush_listed-IsSafe p b (ok (some es)) (err e) l h = h
  flush_listed-IsSafe p b (ok (some es)) (ok u) l h = flush_entries-IsSafe p b es l h

  flush_allowed-IsSafe :
      (p : String) (b : List ℕ) (allowed : Result (Unit {0}))
      (listing : Result (Option (List Entry))) (made : Result (Unit {0})) (l : Line)
      → Safe p b l
      → Safe p b (flush_allowed allowed (flush_listed env c tmp listing made) l).1
  unfolding flush_allowed
  flush_allowed-IsSafe p b (err e) listing made l h = h
  flush_allowed-IsSafe p b (ok u) listing made l h = flush_listed-IsSafe p b listing made l h

  -- Whichever requests and responses are lost, whatever the origin's plan is, and whichever calls fail or
  -- stop a machine on either side: after `FlushReceipts` each file of the agent is there with its content,
  -- or it held a valid receipt, and the origin has a valid receipt with that ID at the path of the ID,
  -- where the temporary file of the origin has its own name.
  pub flush_receipts-IsSafe :
      (w : World) (url : String) (allow_http offline : Bool)
      (listing : Result (Option (List Entry))) (made : Result (Unit {0})) (l : Line) (p : String)
      (b : List ℕ)
      → lookup p l.client.files ≡ some b
      → Safe p b (flush_receipts w env c tmp url allow_http offline listing made l).1
  unfolding flush_receipts
  flush_receipts-IsSafe w url allow_http offline listing made l p b h =
      if-elim (λ (q : Outcome (Unit {0}) × Line). Safe p b q.1) (str_eq url "" || offline)
        (λ _. inl h)
        (λ _. flush_allowed-IsSafe p b (allowed_url w url allow_http) listing made l (inl h))
