-- ===== src/Tests/Samples.antt =====
-- Small instances of the parameters: an identity in the place of gzip, a constant hash, and one release.
use edge_delta_lab.Prelude.{
  ℕ, zero, suc, String, true, false, List, [], ◌∷◌, Result, ok, err, if◌then◌else◌, ◌==◌,
}
use edge_delta_lab.Prelude.Int.{pos}
use edge_delta_lab.Lab.Manifest.{codes, Chunk, Manifest, Envelope, Platform}
use edge_delta_lab.Lab.Storage.{Disk, works, breaks, stops}
use edge_delta_lab.Lab.Agent.{State, no_state, AgentOptions, body, got, transient, World}
use edge_delta_lab.Tests.Coding.{write_state, read_state}

abbrev pub digest : String
digest = "0123456789abcdef0123456789abcdef0123456789abcdef0123456789abcdef"

abbrev pub chunk : Chunk
chunk = record { sha256 = digest; size = pos 3; encoded_sha256 = digest; encoded_size = pos 3 }

abbrev pub manifest : Manifest
manifest = record {
  version = pos 1;
  release = "r1";
  sequence = 7;
  kind = "raw";
  artifact_sha256 = digest;
  artifact_size = pos 3;
  image_ids = [];
  source = "";
  chunker = "gear64-lab-v1";
  min = pos 64;
  avg = pos 64;
  max = pos 64;
  chunks = chunk ∷ [];
}

-- The same release under a higher sequence.
abbrev pub newer : Manifest
newer = record manifest { sequence = 8 }

-- An envelope is one number: 0 for the release, others for the newer one.
abbrev envelope_of : List ℕ → Result Envelope
envelope_of [] = err "envelope"
envelope_of (zero ∷ b) = ok (record { payload = "old"; signature = "s" })
envelope_of (suc n ∷ b) = ok (record { payload = "new"; signature = "s" })

abbrev manifest_of : List ℕ → Result Manifest
manifest_of [] = err "manifest"
manifest_of (c ∷ b) = ok (if c == 111 then manifest else newer)

abbrev pub platform : Platform
platform = record {
  hash = λ b. digest;
  unmarshal_envelope = envelope_of;
  unmarshal_manifest = manifest_of;
  marshal_envelope = λ e. 0 ∷ [];
  marshal_manifest = λ m. codes "old";
  encode64 = λ b. "old";
  decode64 = λ s. ok (codes s);
  verify_signature = λ key b s. true;
  sign = λ key b. [];
  public_of = λ key. key;
  gzip = λ raw. ok raw;
  gunzip = λ limit b. ok b;
}

abbrev pub old_state : State
old_state = record no_state {
  sequence = 7;
  manifest_sha256 = digest;
  release = "r1";
  phase = "staged";
}

abbrev pub options : AgentOptions
options = record {
  manifest_url = "https://hub/releases/desired.json";
  base_url = "https://hub";
  workers = pos 1;
  max_attempts = pos 1;
  backoff = pos 1;
  max_backoff = pos 1;
  request_timeout = pos 1;
  max_artifact = pos 100;
  reserve_bytes = pos 0;
  offline = false;
  docker_load = false;
  allow_http = false;
}

-- The origin serves the newer release and its chunk.
abbrev pub world : World
world = record {
  os = platform;
  marshal_state = write_state;
  unmarshal_state = read_state;
  parse_url = λ u.
      ok (record {
        scheme = "https";
        host = "hub";
        has_user = false;
        raw_query = "";
        fragment = "";
      });
  now = "now";
  temp = ".tmp-1";
  locked = false;
  pub_key = ok [];
  fetch = λ etag. body (1 ∷ []);
  attempts = λ c. transient "reset" ∷ got (1 ∷ 2 ∷ 3 ∷ []) ∷ [];
  available = ok (pos 1000);
  load_image = λ path. err "no docker";
  prove_loaded = λ report ids. err "no docker";
}

-- The state file holds the older release, and the sixth call of the disk is the last.
abbrev pub disk : Disk
disk = record {
  files = ("state.json", write_state old_state) ∷ [];
  faults = works ∷ works ∷ breaks ∷ works ∷ works ∷ stops ∷ [];
}
