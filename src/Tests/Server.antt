-- ===== src/Tests/Server.antt =====
-- Runs of the origin server.
use edge_delta_lab.Prelude.{◌≡◌, ◌⊎◌, refl, true, false, none, [], ◌∷◌, ok, length}
use edge_delta_lab.Prelude.Int.{pos}
use edge_delta_lab.Lab.Manifest.{codes, safe_codes, hex_codes, all, is_safe}
use edge_delta_lab.Lab.Verify.{codes_eq}
use edge_delta_lab.Lab.Server.State.{FaultPlan, no_stats}
use edge_delta_lab.Lab.Server.Transfer.{Env}
use edge_delta_lab.Lab.Server.Routes.{trim_slash, split, route, object}
use edge_delta_lab.Lab.Server.Paths.{Leads, route_lem}
use edge_delta_lab.Lab.Server.Counters.{Request, IsCounted, serve_all, counters}

release-found : route true false "/releases/r1.json" ≡ object (trim_slash "/releases/r1.json") false
unfolding route codes_eq safe_codes all is_safe
release-found = refl

route_lem_example :
    (trim_slash "/releases/r1.json" ≡ trim_slash "/releases/r1.json")
    × (((false ≡ true)
          × Leads hex_codes (codes ".gz") (split (codes (trim_slash "/releases/r1.json"))))
        ⊎ ((false ≡ false)
            × Leads safe_codes (codes ".json") (split (codes (trim_slash "/releases/r1.json")))))
route_lem_example =
    route_lem true false "/releases/r1.json" (trim_slash "/releases/r1.json") false release-found

abbrev pub plan : FaultPlan
plan = record {
  rate_kbit = pos 0;
  latency_ms = pos 0;
  offline = false;
  offline_for_ms = pos 0;
  fail_first = pos 0;
  drop_every = pos 2;
  drop_after_bytes = pos 1;
  corrupt_first = pos 1;
  stall_first = pos 0;
  stall_ms = pos 0;
}

-- Every write takes its block whole.
abbrev pub origin : Env
origin = record {
  plan = ok plan;
  sleep = λ ms. true;
  started_within = λ ms. false;
  load = λ rel. ok (7 ∷ 8 ∷ 9 ∷ []);
  hash = λ b. "digest";
  if_none_match = none;
  pace = λ sent n. true;
  write = λ sent block. (length block, false);
}

abbrev get_chunk : Request
get_chunk = record { env = origin; rel = "chunks/ab/c.gz"; chunk = true }

abbrev get_release : Request
get_release = record { env = origin; rel = "releases/r1.json"; chunk = false }

counters_example : IsCounted (serve_all (get_chunk ∷ get_release ∷ get_chunk ∷ []) no_stats)
counters_example = counters (get_chunk ∷ get_release ∷ get_chunk ∷ [])
