-- ===== src/Receiver/Loop.antt =====
-- `Run` of internal/receiverloop/run.go: its checks, and the loop with the goroutine of the announcements
-- as steps. `Sync`, `WriteSummary` and `Accept` are what they return; the modules of those parts model
-- them.
pub mod Kicks
use edge_delta_lab.Prelude.{
  ℕ, suc, String, Bool, true, false, not, ◌&&◌, ◌||◌, Option, none, some, List, [], ◌∷◌, ◌++◌,
  if◌then◌else◌, Result, ok, err, require, str_eq,
}
use edge_delta_lab.Prelude.Int.{ℤ, pos, leb_ℤ}
use edge_delta_lab.Lab.Agent.{Summary}

infixl 5 ◌>>◌
abbrev ◌>>◌ : Result (Unit {0}) → Result (Unit {0}) → Result (Unit {0})
err e >> k = err e
ok _ >> k = k

-- `HubTLS`, the public key's file, and the prefix tests on a URL
pub record Setup : Type 0 where
  pub tls_config : Result (Unit {0})
  pub validate_url : String → Result (Unit {0})
  pub read_key : Result (Unit {0})
  pub has_wss_prefix : String → Bool
  pub has_ws_prefix : String → Bool

unfoldable pub validate_urls : Setup → List String → Result (Unit {0})
validate_urls s [] = ok tt
validate_urls s (raw ∷ rest) =
    let later = validate_urls s rest in
    if str_eq raw "" then later else (do s.validate_url raw; later)

-- The checks of `Run` before the loop; true where the goroutine of the announcements is started
unfoldable pub prepare :
    Setup → ℤ → String → String → String → String → Bool → Bool → Result (Unit {0})
unfolding validate_urls
prepare s poll manifest_url base_url receipt_url events_url allow_http offline = do
  require (not (leb_ℤ poll (pos 0))) "poll must be positive"
  s.tls_config
  validate_urls s (manifest_url ∷ base_url ∷ receipt_url ∷ events_url ∷ [])
  require
      (str_eq events_url ""
        || s.has_wss_prefix events_url
        || (allow_http && s.has_ws_prefix events_url))
      "events URL requires WSS (WS requires allow-http)"
  if not (str_eq events_url "") && not offline
      then (do s.validate_url events_url; s.read_key; s.tls_config)
      else ok tt

-- Where the loop is: in `Sync`, in the `select`, or returned
pub data Place : Type 0 where
  syncing : Place
  waiting : Place
  returned : Place

-- What the two callbacks are called with
pub data Report : Type 0 where
  on_sync : Summary → Report
  on_error : String → Report

-- `kick` holds a value or not; the reports so far, the last one first.
pub record Loop : Type 0 where
  pub place : Place
  pub kick : Bool
  pub reports : List Report

abbrev pub new_loop : Loop
new_loop = record { place = syncing; kick = false; reports = [] }

-- `OnAnnounce`, with what `Accept` returned: the send is dropped where the channel is full.
unfoldable pub on_announce : Result (Unit {0}) → Loop → Loop
on_announce (err e) l = l
on_announce (ok _) l = record l { kick = true }

-- `Sync`, then `WriteSummary` where it succeeded
unfoldable pub outcome : Result Summary → Result (Unit {0}) → Result Summary
outcome (err e) written = err e
outcome (ok s) (err e) = err e
outcome (ok s) (ok _) = ok s

unfoldable pub report : Result Summary → Report
report (err e) = on_error e
report (ok s) = on_sync s

-- The end of a round up to the `select`, for a context that is cancelled by now or not
unfoldable pub finish : Bool → Result Summary → Result (Unit {0}) → Loop → Loop
unfolding outcome report
finish true synced written l = record l { place = returned }
finish false synced written l = record l {
  place = waiting;
  reports = report (outcome synced written) ∷ l.reports;
}

-- The three cases of the `select`; the next round begins with a test of the context.
pub data Wake : Type 0 where
  cancelled : Wake
  timer : Wake
  kicked : Wake

unfoldable pub wake : Wake → Bool → Loop → Loop
wake cancelled stop l = record l { place = returned }
wake timer stop l = record l { place = if stop then returned else syncing }
wake kicked stop l = record l { kick = false; place = if stop then returned else syncing }
