-- ===== src/ClientConf/Runner/Actions.antt =====
-- `Act` of internal/clientconf/runner.go.
use edge_delta_lab.Prelude.{
  String, not, Option, none, some, List, [], ◌∷◌, map, if◌then◌else◌, str_eq, length, ◌==◌, Result,
  ok, err,
}
use edge_delta_lab.Lab.Object.{join}
use edge_delta_lab.ClientConf.Config.{Config, eligible}
use edge_delta_lab.ClientConf.Runner.Base.{AuditRecord, SyncOptions, Plan, Journal, Host, emit}
use edge_delta_lab.ClientConf.Runner.Restart.{restart_matching}

pub record Acted : Type 0 where
  pub journal : Journal
  pub plan : Plan
  pub error : Option String

unfoldable pub reported : Host → String → Plan → Journal × Result (List AuditRecord) → Acted
unfolding emit
reported h release p (j, err e) = record {
  journal =
      emit "delivery-failed" (join "release=" (join release (join " stage=restart detail=" e))) j;
  plan = p;
  error = some e;
}
reported h release p (j, ok rs) = record {
  journal =
      emit "containers-restart"
        (join "release=" (join release (join " containers=" (h.print (length rs))))) j;
  plan = record p { would_do = map h.marshal rs };
  error = none;
}

unfoldable pub joined : String → List String → String
joined p [] = p
joined p (q ∷ qs) = join p (join ", " (joined q qs))

-- What a dry run says that it would do
unfoldable pub dry_steps : String → List String → List String
unfolding joined
dry_steps artifact [] =
    join "docker image load --input " artifact
    ∷ "verify stored image IDs against signed manifest image_ids"
    ∷ []
dry_steps artifact (id ∷ ids) =
    join "docker image load --input " artifact
    ∷ "verify stored image IDs against signed manifest image_ids"
    ∷ join "restart containers using image " (joined id ids)
    ∷ []

unfoldable pub act_eligible : Host → Config → SyncOptions → Plan → Journal → Acted
unfolding dry_steps emit restart_matching reported
act_eligible h c so p j =
    if str_eq c.action "dry-run"
    then record {
      journal = j;
      plan = record p {
        would_do = dry_steps so.artifact so.image_ids;
        reason = "dry-run: nothing was touched";
      };
      error = none;
    }
    else if str_eq c.action "load"
    then (if not (str_eq so.phase "loaded")
        then record {
          journal = j;
          plan = record p {
            would_do = join "re-run with docker-load enabled to import " so.artifact ∷ [];
            reason = "archive verified and staged; load was not requested via --docker-load";
          };
          error = none;
        }
        else record {
          journal = emit "delivery-loaded" (join "release=" so.release) j;
          plan = record p {
            would_do =
                "docker image load (verified before import); stored image IDs proved against signed manifest"
                ∷ [];
          };
          error = none;
        })
    else if str_eq c.action "restart"
    then (if not (str_eq so.phase "loaded")
        then record {
          journal = j;
          plan = record p { reason = "restart requires a completed load; archive is staged only" };
          error = none;
        }
        else if length so.image_ids == 0
        then record {
          journal = j;
          plan = p;
          error = some "restart: manifest carries no signed image IDs";
        }
        else reported h so.release p (restart_matching h c so.image_ids j))
    else record { journal = j; plan = p; error = some "unknown action" }

unfoldable pub act : Host → Config → SyncOptions → Journal → Acted
unfolding act_eligible emit eligible
act h c so j =
    let may = eligible h.re c so.release in
    let p : Plan = record {
      release = so.release;
      eligible = may;
      action = c.action;
      would_do = [];
      reason = "";
    } in
    if not may
    then record {
      journal =
          emit "release-ignored" (join "release=" (join so.release " reason=allow-ignore-gate")) j;
      plan = record p { reason = "release filtered by allow/ignore" };
      error = none;
    }
    else act_eligible h c so p j
