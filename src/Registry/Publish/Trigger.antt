-- ===== src/Registry/Publish/Trigger.antt =====
-- `Trigger` of internal/registry/publish.go. What the registry gives for the image (the archive and the
-- ID of its configuration) is one result, which includes the check of its digest; events are left out.
use edge_delta_lab.Prelude.{
  ℕ, String, Bool, ◌&&◌, Option, none, some, List, [], ◌∷◌, str_eq, Result, ok, err,
}
use edge_delta_lab.Prelude.Int.{pos}
use edge_delta_lab.Lab.Manifest.{codes, Platform}
use edge_delta_lab.Lab.Verify.{verify}
use edge_delta_lab.Lab.Object.{join}
use edge_delta_lab.Lab.Storage.{Io, ◌>>=◌, ◌>>◌, succeed}
use edge_delta_lab.Lab.Agent.Sync.{lift, check, read_file, or_missing}
use edge_delta_lab.Lab.Publish.{publish, release_path}
use edge_delta_lab.Registry.Watcher.{Config, PublishRequest}
use edge_delta_lab.Registry.Publish.{
  Hashes, Decimal, release_name, next_sequence, promote, max_release,
}

-- What the trigger finds outside: libraries, the key file, and the image of the request.
pub record Surroundings : Type 0 where
  pub os : Platform
  pub hashes : Hashes
  pub decimal : Decimal
  pub gear : ℕ → ℕ
  pub text : List ℕ → String
  pub temp : String
  pub key : Result (List ℕ)
  pub image : Result (List ℕ × String)
  -- whether `Publish` can read a release file that is there
  pub readable : Bool

unfoldable pub source_of : Config → PublishRequest → String
source_of cfg req =
    join "registry://" (join cfg.registry_url (join "/" (join req.repo (join "@" req.digest))))

module _ (s : Surroundings) (cfg : Config) where
  unfoldable pub public_key : Result (List ℕ) → Result (List ℕ)
  public_key (ok key) = ok (s.os.public_of key)
  public_key (err e) = err e

  -- A signed release is there: its bytes and its sequence are used again.
  unfoldable pub reuse_release : String → String → List ℕ → Io String
  unfolding lift check public_key
  reuse_release release source envelope = do
    key ← lift (public_key s.key)
    v ← lift (verify s.os envelope key max_release)
    check
        (str_eq v.0.release release && str_eq v.0.source source && str_eq v.0.kind "docker-archive")
        "existing release identity mismatch"
    promote s.os (public_key s.key) s.temp cfg.publish.channel envelope
    succeed release

  unfoldable pub publish_image : String → String → Io String
  unfolding lift read_file or_missing public_key
  publish_image release source = do
    image ← lift s.image
    sequence ← next_sequence s.decimal s.temp cfg.publish.sequence_file
    _ ← publish s.os s.temp s.gear (record {
      input = ok image.0;
      key = s.key;
      release = release;
      kind = "docker-archive";
      source = source;
      sequence = sequence;
      image_ids = join "sha256:" image.1 ∷ [];
      min = pos 16384;
      avg = pos 65536;
      max = pos 262144;
      readable = s.readable;
    })
    written ← read_file (release_path release)
    envelope ← or_missing "open release" written
    promote s.os (public_key s.key) s.temp cfg.publish.channel envelope
    succeed release

  unfoldable pub publish_or_reuse : String → String → Option (List ℕ) → Io String
  unfolding reuse_release publish_image
  publish_or_reuse release source none = publish_image release source
  publish_or_reuse release source (some envelope) = reuse_release release source envelope

  unfoldable pub trigger_release : PublishRequest → Io String
  unfolding lift read_file publish_or_reuse source_of
  trigger_release req = do
    name ← lift (release_name s.hashes (codes cfg.publish.release_prefix) req)
    envelope ← read_file (release_path (s.text name))
    publish_or_reuse (s.text name) (source_of cfg req) envelope
