-- ===== src/Lab/Agent.antt =====
-- internal/lab/agent.go: the receiving agent. `Sync` runs over the disk of Lab.Storage, so every call
-- that can fail does so, and the machine can stop anywhere. The parts of the run that other code
-- decides (the responses, the free space, Docker) are the record `World`. Telemetry, receipts and
-- the event log are left out, the context is not cancelled, and one worker takes the jobs in order.
pub mod Sync
pub mod Retry
use edge_delta_lab.Prelude.{
  ℕ, ◌+◌, ◌^◌, ◌*◌, String, Bool, true, false, not, ◌&&◌, ◌||◌, Option, none, some, List, [], ◌∷◌,
  if◌then◌else◌, str_eq, length, Result, ok, err, ltb, ◌==◌,
}
use edge_delta_lab.Prelude.Int.{ℤ, pos, ltb_ℤ}
use edge_delta_lab.Lab.Manifest.{Chunk, Manifest, Platform}

pub record State : Type 0 where
  pub sequence : ℕ
  pub manifest_sha256 : String
  pub manifest_url : String
  pub release : String
  pub phase : String
  pub artifact : String
  pub updated : String
  pub loaded_manifest_sha256 : String

-- `var s State`
abbrev pub no_state : State
no_state = record {
  sequence = 0;
  manifest_sha256 = "";
  manifest_url = "";
  release = "";
  phase = "";
  artifact = "";
  updated = "";
  loaded_manifest_sha256 = "";
}

pub record Summary : Type 0 where
  pub release : String
  pub sequence : ℕ
  pub phase : String
  pub artifact : String
  pub artifact_sha256 : String
  pub artifact_bytes : ℤ
  pub unique_chunks : ℕ
  pub reused_chunks : ℕ

pub record AgentOptions : Type 0 where
  pub manifest_url : String
  pub base_url : String
  pub workers : ℤ
  pub max_attempts : ℤ
  pub backoff : ℤ
  pub max_backoff : ℤ
  pub request_timeout : ℤ
  pub max_artifact : ℤ
  pub reserve_bytes : ℤ
  pub offline : Bool
  pub docker_load : Bool
  pub allow_http : Bool

-- `url.Parse`, as far as it is read
pub record Url : Type 0 where
  pub scheme : String
  pub host : String
  pub has_user : Bool
  pub raw_query : String
  pub fragment : String

-- What the fetch of the manifest came to, after its retries.
pub data Fetched : Type 0 where
  body : List ℕ → Fetched
  not_modified : Fetched
  lost : String → Fetched

-- What one request for a chunk came to.
pub data Attempt : Type 0 where
  got : List ℕ → Attempt
  transient : String → Attempt
  permanent : String → Attempt

pub record World : Type 0 where
  pub os : Platform
  pub marshal_state : State → List ℕ
  pub unmarshal_state : List ℕ → Result State
  pub parse_url : String → Result Url
  pub now : String
  pub temp : String
  -- `flock` on the state directory, and the key file's content
  pub locked : Bool
  pub pub_key : Result (List ℕ)
  pub fetch : String → Fetched
  pub attempts : Chunk → List Attempt
  pub available : Result ℤ
  pub load_image : String → Result String
  pub prove_loaded : String → List String → Result (Unit {0})

-- `allowedURL`
unfoldable pub allowed_url : World → String → Bool → Result (Unit {0})
allowed_url w raw allow_http = elim (w.parse_url raw) [
  | err e ↦ err e
  | ok u ↦
      if str_eq u.host "" || u.has_user || not (str_eq u.raw_query "") || not (str_eq u.fragment "")
      then err "URLs require a host and must not include credentials, query or fragment"
      else if str_eq u.scheme "https"
      then ok tt
      else if str_eq u.scheme "http" && allow_http
      then ok tt
      else err "HTTPS required; --allow-http is for an isolated lab only"
]

unfoldable pub valid_options : AgentOptions → Bool
valid_options o = not (
    ltb_ℤ o.workers (pos 1)
    || ltb_ℤ (pos 32) o.workers
    || not (ltb_ℤ (pos 0) o.backoff)
    || ltb_ℤ o.max_backoff o.backoff
    || not (ltb_ℤ (pos 0) o.request_timeout)
    || not (ltb_ℤ (pos 0) o.max_artifact)
    || ltb_ℤ o.reserve_bytes (pos 0))

-- The guard against rollback and equivocation, on a verified manifest and its digest.
unfoldable pub admit : State → Manifest → String → Result (Unit {0})
admit old m digest =
    if ltb m.sequence old.sequence
    then err "rollback rejected"
    else if m.sequence == old.sequence
        && not (str_eq old.manifest_sha256 "")
        && not (str_eq digest old.manifest_sha256)
    then err "same-sequence equivocation rejected"
    else ok tt
