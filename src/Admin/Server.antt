-- ===== src/Admin/Server.antt =====
-- internal/admin/server.go: the requests of a connection and their handlers. JSON, the clock, the
-- directory of receipts and the callbacks are parameters; the context is not cancelled. Of a message
-- the fixed part is kept, without the cause or the name of the file that the code appends.
pub mod Paging
use edge_delta_lab.Prelude.{
  ℕ, String, Bool, true, false, not, ◌||◌, Option, none, some, List, [], ◌∷◌, ◌++◌, if◌then◌else◌,
  Result, ok, err, ◌>>=◌, str_eq, ◌⊎◌, inl, inr,
}
use edge_delta_lab.Prelude.Int.{ℤ, pos}
use edge_delta_lab.Lab.Receipts.{Receipt, Codec, validate}
use edge_delta_lab.Admin.EventLog.State.{Bytes, Event, Json, Files}
use edge_delta_lab.Admin.EventLog.Read.{Page, query}

pub record MethodError : Type 0 where
  pub code : String
  pub message : String

-- `WatchStatusEntry`, as far as it is sent
pub record WatchStatusEntry : Type 0 where
  pub repo : String
  pub tag : String
  pub digest : String

-- The results of the handlers; `Stats` is what the callback gives.
pub data Reply (Stats : Type 0) : Type 0 where
  empty_object : Reply Stats
  pong : ℕ → Reply Stats
  stats_snapshot : Stats → Reply Stats
  clients : ℕ → Option (List Receipt) → Reply Stats
  receipts : List Receipt → Reply Stats
  events : List Event → ℕ → ℕ → Reply Stats
  watch_status : List WatchStatusEntry → Reply Stats

pub record Response (Stats : Type 0) : Type 0 where
  pub id : Option Bytes
  pub is_ok : Bool
  pub result : Option (Reply Stats)
  pub error : Option MethodError

-- A parsed request: its id, its method, and its parameters as they stand
pub record Request : Type 0 where
  pub id : Option Bytes
  pub method : String
  pub params : Bytes

pub record DirEntry : Type 0 where
  pub name : String
  pub is_dir : Bool
  pub is_json : Bool

-- A server of options with a log or none and callbacks or none, and what it sees of the machine
pub record Server (Stats : Type 0) : Type 0 where
  pub json : Json
  pub codec : Codec
  pub log : Option Files
  pub stats : Option Stats
  pub watch : Option (List WatchStatusEntry)
  pub uptime_seconds : ℕ
  pub client_count : ℕ
  pub parse_request : Bytes → Result Request
  -- the fields `dir` and `receipts_dir`, "" where there is none
  pub parse_dir : Bytes → String
  pub parse_receipts_dir : Bytes → String
  -- `after` and `limit`
  pub parse_window : Bytes → Result (ℤ × ℤ)
  -- `none` where the directory is not there
  pub read_dir : String → Result (Option (List DirEntry))
  pub read_file : String → String → Result Bytes
  -- reading a receipt here lets unknown fields pass
  pub unmarshal_receipt : Bytes → Option Receipt

-- The result of a handler, or its `methodError`
abbrev pub Handled : Type 0 → Type 0
Handled Stats = Reply Stats ⊎ MethodError

-- `evs[n-1].Seq`, or 0
unfoldable pub latest_seq : List Event → ℕ
latest_seq [] = 0
latest_seq (ev ∷ []) = ev.seq
latest_seq (ev ∷ ev' ∷ evs) = latest_seq (ev' ∷ evs)

module _ {Stats : Type 0} where
  unfoldable pub valid_receipt : Server Stats → String → Option Receipt → Result Receipt
  valid_receipt s name none = err "corrupt persisted receipt"
  valid_receipt s name (some r) = elim (validate s.codec r) [
    | err e ↦ err "corrupt persisted receipt"
    | ok u ↦ ok r
  ]

  -- The loop of `listReceipts`
  unfoldable pub list_entries : Server Stats → String → List DirEntry → Result (List Receipt)
  unfolding valid_receipt
  list_entries s dir [] = ok []
  list_entries s dir (e ∷ es) =
      let rest = list_entries s dir es in
      if e.is_dir || not e.is_json then rest else (do
        b ← s.read_file dir e.name
        r ← valid_receipt s e.name (s.unmarshal_receipt b)
        rs ← rest
        ok (r ∷ rs))

  unfoldable pub list_found :
      Server Stats → String → Result (Option (List DirEntry)) → Result (List Receipt)
  unfolding list_entries
  list_found s dir (err e) = err e
  list_found s dir (ok none) = ok []
  list_found s dir (ok (some es)) = list_entries s dir es

  unfoldable pub list_receipts : Server Stats → String → Result (List Receipt)
  unfolding list_found
  list_receipts s dir = if str_eq dir "" then ok [] else list_found s dir (s.read_dir dir)

  unfoldable pub with_code : {A : Type 0} → String → (A → Reply Stats) → Result A → Handled Stats
  with_code code f (err e) = inr (record { code = code; message = e })
  with_code code f (ok a) = inl (f a)

  unfoldable pub handle_clients : Server Stats → Bytes → Handled Stats
  unfolding with_code list_receipts
  handle_clients s params =
      let dir = s.parse_receipts_dir params in
      if str_eq dir ""
      then inl (clients s.client_count none)
      else with_code "receipts" (λ rs. clients s.client_count (some rs)) (list_receipts s dir)

  unfoldable pub page_reply : Page × Result (Unit {0}) → Handled Stats
  unfolding latest_seq
  page_reply (p, err e) = inr (record { code = "events"; message = e })
  page_reply (p, ok u) = inl (events p.events p.oldest (latest_seq p.events))

  unfoldable pub events_in : Server Stats → Result (ℤ × ℤ) → Option Files → Handled Stats
  unfolding page_reply
  events_in s (err e) log = inr (record { code = "bad_params"; message = e })
  events_in s (ok window) none = inl (events [] 0 0)
  events_in s (ok (after, limit)) (some files) = page_reply (query s.json after limit files)

  unfoldable pub handle_events : Server Stats → Bytes → Handled Stats
  unfolding events_in
  handle_events s params =
      events_in s (elim params [ [] ↦ ok (pos 0, pos 0) | b ∷ bs ↦ s.parse_window (b ∷ bs) ]) s.log

  unfoldable pub stats_reply : Option Stats → Reply Stats
  stats_reply none = empty_object
  stats_reply (some snapshot) = stats_snapshot snapshot

  unfoldable pub watch_reply : Option (List WatchStatusEntry) → Reply Stats
  watch_reply none = watch_status []
  watch_reply (some es) = watch_status es

  -- `s.handlers[r.Method]`, called with the parameters
  unfoldable pub handle : Server Stats → String → Bytes → Handled Stats
  unfolding stats_reply watch_reply handle_clients handle_events with_code list_receipts
  handle s method params =
      if str_eq method "ping"
      then inl (pong s.uptime_seconds)
      else if str_eq method "stats"
      then inl (stats_reply s.stats)
      else if str_eq method "clients"
      then handle_clients s params
      else if str_eq method "receipts"
      then with_code "receipts" receipts (list_receipts s (s.parse_dir params))
      else if str_eq method "events"
      then handle_events s params
      else if str_eq method "watch-status"
      then inl (watch_reply s.watch)
      else inr (record { code = "unknown_method"; message = method })

  unfoldable pub write_resp : Option Bytes → Handled Stats → Response Stats
  write_resp id (inl r) = record { id = id; is_ok = true; result = some r; error = none }
  write_resp id (inr e) = record { id = id; is_ok = false; result = none; error = some e }

  unfoldable pub respond : Server Stats → Result Request → Response Stats
  unfolding write_resp handle
  respond s (err e) =
      write_resp none (inr (record { code = "bad_request"; message = "malformed request" }))
  respond s (ok r) =
      if str_eq r.method ""
      then write_resp none (inr (record { code = "bad_request"; message = "malformed request" }))
      else write_resp r.id (handle s r.method r.params)

  -- The loop of `handleConn` over the lines of a connection
  unfoldable pub handle_conn : Server Stats → List Bytes → List (Response Stats)
  unfolding respond
  handle_conn s [] = []
  handle_conn s ([] ∷ ls) = handle_conn s ls
  handle_conn s ((b ∷ bs) ∷ ls) = respond s (s.parse_request (b ∷ bs)) ∷ handle_conn s ls
