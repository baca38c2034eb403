-- ===== src/Tests/Socket.antt =====
-- A client that reads a log of two events over the admin socket, one on a page.
use edge_delta_lab.Prelude.{◌≡◌, ℕ, refl, some, none, List, [], ◌∷◌, ◌++◌, ok, err, arith}
use edge_delta_lab.Prelude.Int.{pos}
use edge_delta_lab.Tests.Events.{
  json, json-JsonLaw, first, second, first-Fits, second-Fits, write_event,
}
use edge_delta_lab.Admin.EventLog.State.{Event, Files, contents}
use edge_delta_lab.Admin.EventLog.Held.{Holds}
use edge_delta_lab.Admin.EventLog.Query.{newer}
use edge_delta_lab.Admin.EventLog.Emits.{event_at}
use edge_delta_lab.Admin.Server.{Server}
use edge_delta_lab.Admin.Server.Paging.{pages, pages_lem}

abbrev two_events : List Event
two_events = event_at 0 first ∷ event_at 1 second ∷ []

abbrev files : Files
files = record {
  current =
      some (write_event (event_at 0 first) ++ 10 ∷ (write_event (event_at 1 second) ++ 10 ∷ []));
  previous = none;
}

-- The parameters are one byte, the number itself; a page has one event.
abbrev server : Server ℕ
server = record {
  json = json;
  codec = record { hash = λ b. ""; marshal = λ r. []; decode = λ b. none; parse_time = λ t. ok tt };
  log = some files;
  stats = none;
  watch = none;
  uptime_seconds = 0;
  client_count = 1;
  parse_request = λ b. err "EOF";
  parse_dir = λ b. "";
  parse_receipts_dir = λ b. "";
  parse_window = λ b. elim b [ [] ↦ err "EOF" | n ∷ ns ↦ ok (pos n, pos 1) ];
  read_dir = λ dir. ok none;
  read_file = λ dir name. err "no such file";
  unmarshal_receipt = λ b. none;
}

held : Holds json files.current two_events
unfolding contents
held = (
  write_event (event_at 0 first),
  write_event (event_at 1 second) ++ 10 ∷ [],
  refl,
  first-Fits 0 (write_event (event_at 0 first)) refl,
  refl,
  (
    write_event (event_at 1 second),
    [],
    refl,
    second-Fits 1 (write_event (event_at 1 second)) refl,
    refl,
    refl,
  ),
)

none_held : Holds json none []
unfolding contents
none_held = refl

pages_lem_example : pages server (λ n. n ∷ []) 2 0 ≡ newer (pos 0) two_events
pages_lem_example =
    pages_lem server json-JsonLaw files [] two_events 0 none_held held (refl, (refl, tt)) refl
      (pos 1) (λ n. n ∷ []) (λ a small. (λ e. cc, refl)) (omega arith) 0 2 (omega arith)
      (omega arith)
