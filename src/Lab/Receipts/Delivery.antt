-- ===== src/Lab/Receipts/Delivery.antt =====
-- `FlushReceipts` of internal/lab/telemetry.go against the handler of the origin, over a network that
-- loses requests and responses.
use edge_delta_lab.Prelude.{
  ℕ, ◌≡◌, ◌≢◌, ◌⊎◌, ◌∙◌, refl, sym, ap, String, true, Option, none, some, List, Result, ok, err,
  inl, inr, Bool-cases, str_eq, eq_iff, if-elim,
}
use mathlib.Core.Path.{subst}
use Prim.Native.String.{◌++◌ as append}
use text.Mathlib.TextLemmas.{append_cancel_left, append_cancel_right, nil-append, cons-append}
use edge_delta_lab.Lab.Object.{join}
use edge_delta_lab.Prelude.Dict.{lookup}
use edge_delta_lab.Lab.Storage.{Disk, Outcome, done, failed, crashed, atomic_write}
use edge_delta_lab.Lab.Storage.Atomic.{atomic_write_lem}
use edge_delta_lab.Lab.Server.State.{FaultPlan}
use edge_delta_lab.Lab.Server.Transfer.{Env}
use edge_delta_lab.Lab.Server.Handler.{is_offline}
use edge_delta_lab.Lab.Receipts.{
  Receipt, Codec, receipt_path, validate, status_of, store_receipt, take_receipt, receive, Trip,
  arrives, request_lost, response_lost, Line, next_trip, later_trips, post, acknowledged,
}

status-disk : (r : Outcome (Unit {0}) × Disk) → (status_of r).1 ≡ r.1
unfolding status_of
status-disk (done u, d) = refl
status-disk (failed e, d) = refl
status-disk (crashed, d) = refl

status-done : (r : Outcome (Unit {0}) × Disk) → acknowledged (status_of r).0 ≡ true → r.0 ≡ done tt
unfolding status_of acknowledged
status-done (done u, d) h = refl
status-done (failed e, d) h = cc
status-done (crashed, d) h = cc

no_status : acknowledged none ≡ true → ⊥
unfolding acknowledged
no_status h = cc

join-append : (s t : String) → join s t ≡ append s t
join-append String.[] t = sym (nil-append t)
join-append (String.◌∷◌ c s) t = ap (String.◌∷◌ c) (join-append s t) ∙ sym (cons-append c s t)

-- Different IDs have different files.
receipt_path_inj : (a b : String) → receipt_path a ≡ receipt_path b → a ≡ b
unfolding receipt_path
receipt_path_inj a b e =
    let rest = append_cancel_left "receipts/" (join a ".json") (join b ".json") (
      sym (join-append "receipts/" (join a ".json"))
      ∙ e
      ∙ join-append "receipts/" (join b ".json")) in
    append_cancel_right a b ".json" (sym (join-append a ".json") ∙ rest ∙ join-append b ".json")

module _ (env : Env) (c : Codec) (tmp : String)
    (own_temp : (id : String) → receipt_path id ≢ tmp) where
  -- The origin's file for the ID holds a valid receipt with that ID.
  abbrev pub StoredAt : String → Disk → Type 0
  StoredAt id d =
      (r : Receipt) × (r.id ≡ id)
      × (validate c r ≡ ok tt)
      × (lookup (receipt_path id) d.files ≡ some (c.marshal r))

  -- The file holds a valid receipt, and the origin has a valid receipt with its ID.
  abbrev pub DeliveredTo : List ℕ → Disk → Type 0
  DeliveredTo body d =
      (r : Receipt) × (c.decode body ≡ some r) × (validate c r ≡ ok tt) × StoredAt r.id d

  -- What writing a receipt makes of the origin's disk
  abbrev written : Receipt → Disk → Disk
  written r d = (atomic_write tmp (receipt_path r.id) (c.marshal r) d).1

  write-StoredAt_self :
      (r : Receipt) (d : Disk)
      → validate c r ≡ ok tt
      → StoredAt r.id d
      → StoredAt r.id (written r d)
  write-StoredAt_self r d v (old, e, v', stored) =
      elim (atomic_write_lem tmp (receipt_path r.id) (c.marshal r) d (own_temp r.id)).0 [
        | inl kept ↦ (old, e, v', kept ∙ stored)
        | inr new ↦ (r, refl, v, new)
      ]

  write-StoredAt :
      (r : Receipt) (id : String) (d : Disk)
      → validate c r ≡ ok tt
      → StoredAt id d
      → StoredAt id (written r d)
  write-StoredAt r id d v h = elim (Bool-cases (str_eq r.id id)) [
    | inl q ↦
        subst (λ t. StoredAt t d → StoredAt t (written r d)) ((eq_iff r.id id).0 q)
          (write-StoredAt_self r d v) h
    | inr q ↦
        let other : receipt_path id ≢ receipt_path r.id =
          λ t. cc ((eq_iff r.id id).1 (sym (receipt_path_inj id r.id t)), q) in
        (
          h.0,
          h.1,
          h.2,
          (atomic_write_lem tmp (receipt_path r.id) (c.marshal r) d (own_temp r.id)).1
                (receipt_path id) (own_temp id) other
              ∙ h.3,
        )
  ]

  store_receipt-StoredAt :
      (r : Receipt) (id : String) (d : Disk) (v : Result (Unit {0}))
      → validate c r ≡ v
      → StoredAt id d
      → StoredAt id (store_receipt c tmp r v d).1
  unfolding store_receipt
  store_receipt-StoredAt r id d (err e) q h = h
  store_receipt-StoredAt r id d (ok u) q h =
      subst (StoredAt id) (sym (status-disk (atomic_write tmp (receipt_path r.id) (c.marshal r) d)))
        (write-StoredAt r id d q h)

  -- A status of success is given only for a receipt that is stored.
  store_receipt-stored :
      (r : Receipt) (d : Disk) (v : Result (Unit {0}))
      → validate c r ≡ v
      → acknowledged (store_receipt c tmp r v d).0 ≡ true
      → (validate c r ≡ ok tt) × StoredAt r.id (store_receipt c tmp r v d).1
  unfolding store_receipt acknowledged
  store_receipt-stored r d (err e) q h = cc
  store_receipt-stored r d (ok u) q h =
      let result = atomic_write tmp (receipt_path r.id) (c.marshal r) d in
      let new =
        (atomic_write_lem tmp (receipt_path r.id) (c.marshal r) d (own_temp r.id)).2
          (status-done result h) in
      (q, subst (StoredAt r.id) (sym (status-disk result)) (r, refl, q, new))

  take_receipt-StoredAt :
      (o : Option Receipt) (id : String) (d : Disk)
      → StoredAt id d
      → StoredAt id (take_receipt c tmp o d).1
  unfolding take_receipt
  take_receipt-StoredAt none id d h = h
  take_receipt-StoredAt (some r) id d h = store_receipt-StoredAt r id d (validate c r) refl h

  receive-StoredAt :
      (plan : Result FaultPlan) (body : List ℕ) (id : String) (d : Disk)
      → StoredAt id d
      → StoredAt id (receive env c tmp plan body d).1
  unfolding receive
  receive-StoredAt (err e) body id d h = h
  receive-StoredAt (ok plan) body id d h =
      if-elim (λ (r : Option ℕ × Disk). StoredAt id r.1) (is_offline env plan) (λ _. h)
        (λ _. take_receipt-StoredAt (c.decode body) id d h)

  take_receipt-delivers :
      (o : Option Receipt) (body : List ℕ) (d : Disk)
      → c.decode body ≡ o
      → acknowledged (take_receipt c tmp o d).0 ≡ true
      → DeliveredTo body (take_receipt c tmp o d).1
  unfolding take_receipt acknowledged
  take_receipt-delivers none body d q h = cc
  take_receipt-delivers (some r) body d q h =
      let s = store_receipt-stored r d (validate c r) refl h in (r, q, s.0, s.1)

  receive-delivers :
      (plan : Result FaultPlan) (body : List ℕ) (d : Disk)
      → acknowledged (receive env c tmp plan body d).0 ≡ true
      → DeliveredTo body (receive env c tmp plan body d).1
  unfolding receive acknowledged
  receive-delivers (err e) body d h = cc
  receive-delivers (ok plan) body d h =
      if-elim (λ (r : Option ℕ × Disk). acknowledged r.0 ≡ true → DeliveredTo body r.1)
        (is_offline env plan) (λ _ k. cc)
        (λ _ k. take_receipt-delivers (c.decode body) body d refl k) h

  -- What the agent has in a file, or the origin has from it.
  abbrev pub IsSafe : String → List ℕ → Line → Type 0
  IsSafe path body l = (lookup path l.client.files ≡ some body) ⊎ DeliveredTo body l.server

  receive-DeliveredTo :
      (plan : Result FaultPlan) (sent body : List ℕ) (d : Disk)
      → DeliveredTo body d
      → DeliveredTo body (receive env c tmp plan sent d).1
  receive-DeliveredTo plan sent body d (r, q, v, s) = (r, q, v, receive-StoredAt plan sent r.id d s)

  -- What one request does: the agent's disk stays, what was delivered stays delivered, and success
  -- means that the origin has the receipt.
  abbrev pub Posted : List ℕ → Line → Option ℕ × Line → Type 0
  Posted body l r =
      (r.1.client ≡ l.client)
      × ((b : List ℕ) → DeliveredTo b l.server → DeliveredTo b r.1.server)
      × (acknowledged r.0 ≡ true → DeliveredTo body r.1.server)

  pub post-Posted : (body : List ℕ) (l : Line) → Posted body l (post env c tmp body l)
  unfolding post
  post-Posted body l = go (next_trip l.trips)
    where
      keeps :
          (b : List ℕ)
          → DeliveredTo b l.server
          → DeliveredTo b (receive env c tmp env.plan body l.server).1
      keeps b h = receive-DeliveredTo env.plan body b l.server h

      go :
          (t : Trip)
          → Posted body l (elim t [
            | arrives ↦ (
              (receive env c tmp env.plan body l.server).0,
              record {
                client = l.client;
                server = (receive env c tmp env.plan body l.server).1;
                trips = later_trips l.trips;
              },
            )
            | request_lost ↦ (none, record l { trips = later_trips l.trips })
            | response_lost ↦ (
              none,
              record {
                client = l.client;
                server = (receive env c tmp env.plan body l.server).1;
                trips = later_trips l.trips;
              },
            )
          ])
      go arrives = (refl, keeps, receive-delivers env.plan body l.server)
      go request_lost = (refl, λ b h. h, λ h. absurd (no_status h))
      go response_lost = (refl, keeps, λ h. absurd (no_status h))
