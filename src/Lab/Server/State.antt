-- ===== src/Lab/Server/State.antt =====
-- The fault plan and the counters of internal/lab/server.go.
use edge_delta_lab.Prelude.{ℕ, String, Bool, Option, none, some, List, [], Result, ok, err}
use edge_delta_lab.Prelude.Int.{ℤ}
use edge_delta_lab.Prelude.Dict.{Dict}

pub record FaultPlan : Type 0 where
  pub rate_kbit : ℤ
  pub latency_ms : ℤ
  pub offline : Bool
  pub offline_for_ms : ℤ
  pub fail_first : ℤ
  pub drop_every : ℤ
  pub drop_after_bytes : ℤ
  pub corrupt_first : ℤ
  pub stall_first : ℤ
  pub stall_ms : ℤ

pub record ServerStats : Type 0 where
  pub origin_started : String
  pub requests : ℕ
  pub chunk_requests : ℕ
  pub metadata_requests : ℕ
  pub chunk_body_bytes : ℕ
  pub metadata_body_bytes : ℕ
  pub chunk_retry_body_bytes : ℕ
  pub drops : ℕ
  pub failures : ℕ
  pub corruptions : ℕ
  pub stalls : ℕ
  pub object_requests : Dict ℕ

-- `NewFaultServer`, its counters
abbrev pub no_stats : ServerStats
no_stats = record {
  origin_started = "";
  requests = 0;
  chunk_requests = 0;
  metadata_requests = 0;
  chunk_body_bytes = 0;
  metadata_body_bytes = 0;
  chunk_retry_body_bytes = 0;
  drops = 0;
  failures = 0;
  corruptions = 0;
  stalls = 0;
  object_requests = [];
}

unfoldable pub snapshot : String → ServerStats → ServerStats
snapshot started s = record s { origin_started = started }

-- `plan`: the fixed plan, or what the plan file holds now
unfoldable pub current_plan :
    FaultPlan → Option (Result (List ℕ)) → (List ℕ → Result FaultPlan) → Result FaultPlan
current_plan fixed none unmarshal = ok fixed
current_plan fixed (some (err e)) unmarshal = err e
current_plan fixed (some (ok b)) unmarshal = unmarshal b
