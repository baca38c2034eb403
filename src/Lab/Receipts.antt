-- ===== src/Lab/Receipts.antt =====
-- internal/lab/telemetry.go: the receipts of the agent, and the handler of the origin that takes them.
pub mod Delivery
pub mod Flush
use edge_delta_lab.Prelude.{
  ℕ, String, Bool, true, false, not, ◌&&◌, ◌||◌, Option, none, some, List, [], ◌∷◌, if◌then◌else◌,
  Result, ok, err, require, str_eq, ◌==◌,
}
use edge_delta_lab.Prelude.Dict.{lookup}
use edge_delta_lab.Lab.Manifest.{safe_release, hex_digest}
use edge_delta_lab.Lab.Storage
use edge_delta_lab.Lab.Storage.{
  Disk, Outcome, done, failed, crashed, Io, atomic_write, unlink, syscall,
}
use edge_delta_lab.Lab.Object.{join}
use edge_delta_lab.Lab.Agent.{Summary, World, allowed_url}
use edge_delta_lab.Lab.Server.State.{FaultPlan}
use edge_delta_lab.Lab.Server.Transfer.{Env}
use edge_delta_lab.Lab.Server.Handler.{is_offline}

pub record Receipt : Type 0 where
  pub id : String
  pub device_id : String
  pub release : String
  pub phase : String
  pub artifact_sha256 : String
  pub recorded_at : String
  pub summary : Summary

-- SHA-256, encoding/json on receipts (reading refuses unknown fields and a body above 64 KiB), and the
-- layouts of package time
pub record Codec : Type 0 where
  pub hash : List ℕ → String
  pub marshal : Receipt → List ℕ
  pub decode : List ℕ → Option Receipt
  pub parse_time : String → Result (Unit {0})

-- `filepath.Join(dir, ID+".json")` in the outbox of the agent and in the directory of the origin
unfoldable pub outbox_path : String → String
outbox_path id = join "outbox/" (join id ".json")

unfoldable pub receipt_path : String → String
receipt_path id = join "receipts/" (join id ".json")

unfoldable pub digest : Codec → Receipt → String
digest c r = c.hash (c.marshal (record r { id = "" }))

infixl 5 ◌>>◌
abbrev ◌>>◌ : Result (Unit {0}) → Result (Unit {0}) → Result (Unit {0})
err e >> k = err e
ok _ >> k = k

unfoldable pub validate : Codec → Receipt → Result (Unit {0})
unfolding digest
validate c r = do
  require (safe_release r.device_id && safe_release r.release && hex_digest r.artifact_sha256)
      "invalid receipt identity"
  require (str_eq r.phase "staged" || str_eq r.phase "loaded")
      "receipt must acknowledge staged or loaded, not running"
  require (str_eq r.id (digest c r)) "receipt ID mismatch"
  c.parse_time r.recorded_at

-- The receipt that `queueReceipt` writes, at the time `now`
unfoldable pub receipt_for : Codec → String → String → Summary → Receipt
unfolding digest
receipt_for c device now s =
    let r : Receipt = record {
      id = "";
      device_id = device;
      release = s.release;
      phase = s.phase;
      artifact_sha256 = s.artifact_sha256;
      recorded_at = now;
      summary = s;
    } in
    record r { id = digest c r }

unfoldable pub queue_valid : Codec → String → Receipt → Result (Unit {0}) → Io (Unit {0})
queue_valid c tmp r (err e) d = (failed e, d)
queue_valid c tmp r (ok _) d = atomic_write tmp (outbox_path r.id) (c.marshal r) d

unfoldable pub queue_receipt : Codec → String → String → String → Summary → Io (Unit {0})
unfolding receipt_for queue_valid
queue_receipt c tmp device now s =
    let r = receipt_for c device now s in queue_valid c tmp r (validate c r)

-- The status of a response; a server that stops gives none.
unfoldable pub status_of : Outcome (Unit {0}) × Disk → Option ℕ × Disk
status_of (done _, d) = (some 201, d)
status_of (failed e, d) = (some 500, d)
status_of (crashed, d) = (none, d)

unfoldable pub store_receipt : Codec → String → Receipt → Result (Unit {0}) → Disk → Option ℕ × Disk
unfolding status_of
store_receipt c tmp r (err e) d = (some 400, d)
store_receipt c tmp r (ok _) d = status_of (atomic_write tmp (receipt_path r.id) (c.marshal r) d)

unfoldable pub take_receipt : Codec → String → Option Receipt → Disk → Option ℕ × Disk
unfolding store_receipt validate
take_receipt c tmp none d = (some 400, d)
take_receipt c tmp (some r) d = store_receipt c tmp r (validate c r) d

-- The handler on a POST
unfoldable pub receive : Env → Codec → String → Result FaultPlan → List ℕ → Disk → Option ℕ × Disk
unfolding take_receipt is_offline
receive env c tmp (err e) body d = (some 500, d)
receive env c tmp (ok plan) body d =
    if is_offline env plan then (some 503, d) else take_receipt c tmp (c.decode body) d

-- What the network does with one request: both messages arrive, the request is lost, or the response
-- is.
pub data Trip : Type 0 where
  arrives : Trip
  request_lost : Trip
  response_lost : Trip

-- The disks of the agent and of the origin, and the next requests; the others arrive.
pub record Line : Type 0 where
  pub client : Disk
  pub server : Disk
  pub trips : List Trip

unfoldable pub next_trip : List Trip → Trip
next_trip [] = arrives
next_trip (t ∷ ts) = t

unfoldable pub later_trips : List Trip → List Trip
later_trips [] = []
later_trips (t ∷ ts) = ts

-- `client.Do(req)`: the status, where a response came
unfoldable pub post : Env → Codec → String → List ℕ → Line → Option ℕ × Line
unfolding receive next_trip later_trips
post env c tmp body l =
    let rest = later_trips l.trips in
    let (status, server) = receive env c tmp env.plan body l.server in
    elim (next_trip l.trips) [
      | arrives ↦ (status, record { client = l.client; server = server; trips = rest })
      | request_lost ↦ (none, record l { trips = rest })
      | response_lost ↦ (none, record { client = l.client; server = server; trips = rest })
    ]

unfoldable pub on_client : Io (Unit {0}) → Line → Outcome (Unit {0}) × Line
on_client m l = let (r, d) = m l.client in (r, record l { client = d })

unfoldable pub acknowledged : Option ℕ → Bool
acknowledged none = false
acknowledged (some status) = status == 200 || status == 201

-- The part of a round of `FlushReceipts` once the file was read
unfoldable pub flush_body :
    Env → Codec → String → String → List ℕ → Line → Outcome (Unit {0}) × Line
unfolding post on_client acknowledged unlink syscall Storage.◌>>=◌
flush_body env c tmp path body l =
    let (status, l') = post env c tmp body l in
    if acknowledged status
    then on_client (Storage.◌>>◌ (unlink path) (syscall "sync dir")) l'
    else (failed "receipt HTTP", l')

-- An entry of the outbox with its path
pub record Entry : Type 0 where
  pub path : String
  pub is_dir : Bool
  pub is_json : Bool

unfoldable pub flush_entry : Env → Codec → String → Entry → Line → Outcome (Unit {0}) × Line
unfolding flush_body
flush_entry env c tmp e l =
    if e.is_dir || not e.is_json then (done tt, l) else elim (lookup e.path l.client.files) [
      | none ↦ (failed "read receipt", l)
      | some body ↦ flush_body env c tmp e.path body l
    ]

unfoldable pub flush_after :
    Outcome (Unit {0}) × Line → (Line → Outcome (Unit {0}) × Line) → Outcome (Unit {0}) × Line
flush_after (done _, l) f = f l
flush_after (failed e, l) f = (failed e, l)
flush_after (crashed, l) f = (crashed, l)

unfoldable pub flush_entries : Env → Codec → String → List Entry → Line → Outcome (Unit {0}) × Line
unfolding flush_entry flush_after
flush_entries env c tmp [] l = (done tt, l)
flush_entries env c tmp (e ∷ es) l =
    flush_after (flush_entry env c tmp e l) (flush_entries env c tmp es)

-- The part of `FlushReceipts` from `os.ReadDir` on, with what reading the directory gives (`none`: it
-- is not there) and whether the client could be made
unfoldable pub flush_listed :
    Env
    → Codec
    → String
    → Result (Option (List Entry))
    → Result (Unit {0})
    → Line
    → Outcome (Unit {0}) × Line
unfolding flush_entries
flush_listed env c tmp (err e) made l = (failed e, l)
flush_listed env c tmp (ok none) made l = (done tt, l)
flush_listed env c tmp (ok (some es)) (err e) l = (failed e, l)
flush_listed env c tmp (ok (some es)) (ok _) l = flush_entries env c tmp es l

unfoldable pub flush_allowed :
    Result (Unit {0}) → (Line → Outcome (Unit {0}) × Line) → Line → Outcome (Unit {0}) × Line
flush_allowed (err e) f l = (failed e, l)
flush_allowed (ok _) f l = f l

-- `FlushReceipts`, without cancellation
unfoldable pub flush_receipts :
    World
    → Env
    → Codec
    → String
    → String
    → Bool
    → Bool
    → Result (Option (List Entry))
    → Result (Unit {0})
    → Line
    → Outcome (Unit {0}) × Line
unfolding flush_listed flush_allowed
flush_receipts w env c tmp url allow_http offline listing made l =
    if str_eq url "" || offline
    then (done tt, l)
    else flush_allowed (allowed_url w url allow_http) (flush_listed env c tmp listing made) l
