-- ===== src/Tests/Agent.antt =====
-- Runs of the disk and of the agent.
use edge_delta_lab.Prelude.{true, refl, ◌≡◌, ◌≢◌, ap, arith, [], ◌∷◌, ok, some}
use edge_delta_lab.Prelude.Dict.{lookup}
use edge_delta_lab.Prelude.Int.{pos}
use edge_delta_lab.Lab.Manifest.{codes, Chunk}
use edge_delta_lab.Lab.Publish.{PublishOptions, publish, release_path}
use edge_delta_lab.Lab.Publish.Immutable.{publish_immutable}
use edge_delta_lab.Lab.Storage.{Disk}
use edge_delta_lab.Lab.Object.{cache_path, blob_rel}
use edge_delta_lab.Lab.Agent.{State}
use edge_delta_lab.Lab.Agent.Sync.{state_path, manifest_path, staged_path, state_of, sync}
use edge_delta_lab.Lab.Agent.Sync.Order.{StateLaw, HasOwnTemp, AtLeast}
use edge_delta_lab.Lab.Agent.Sync.HighWater.{sync-AtLeast}
use edge_delta_lab.Tests.Coding.{read-write_state}
use edge_delta_lab.Tests.Samples.{platform, world, options, disk, old_state}

world-StateLaw : StateLaw world
world-StateLaw = record { round_trip = read-write_state }

pub world-HasOwnTemp : HasOwnTemp world
unfolding manifest_path staged_path cache_path
world-HasOwnTemp = record {
  not_state = λ e. ground (arith, ap codes e);
  not_manifest = λ digest e. ground (arith, ap codes e);
  not_cache = λ c e. ground (arith, ap codes e);
  not_staged = λ sha256 e. ground (arith, ap codes e);
}

stored : state_of world (lookup state_path disk.files) ≡ ok old_state
unfolding state_of lookup
stored = read-write_state old_state

sync-AtLeast_example :
    (s : State) × (state_of world (lookup state_path (sync world options disk).1.files) ≡ ok s)
    × AtLeast old_state s
sync-AtLeast_example =
    sync-AtLeast world options disk old_state world-StateLaw world-HasOwnTemp stored

-- The release name is taken, by other bytes.
abbrev taken : Disk
taken = record { files = ("releases/r1.json", 5 ∷ []) ∷ []; faults = [] }

abbrev publication : PublishOptions
publication = record {
  input = ok (1 ∷ 2 ∷ 3 ∷ []);
  key = ok [];
  release = "r1";
  kind = "raw";
  source = "";
  sequence = 7;
  image_ids = [];
  min = pos 64;
  avg = pos 64;
  max = pos 64;
  readable = true;
}

release-ne-temp : release_path "r1" ≢ ".tmp-1"
unfolding release_path
release-ne-temp e = ground (arith, ap codes e)

blob-ne-temp : (c : Chunk) → blob_rel c ≢ ".tmp-1"
unfolding blob_rel
blob-ne-temp c e = ground (arith, ap codes e)

release_taken : lookup (release_path "r1") taken.files ≡ some (5 ∷ [])
unfolding lookup release_path
release_taken = refl

publish_immutable_example :
    lookup (release_path "r1") (publish platform ".tmp-1" (λ b. b) publication taken).1.files
    ≡ some (5 ∷ [])
publish_immutable_example =
    publish_immutable platform (λ b. b) ".tmp-1" publication (5 ∷ []) taken release-ne-temp
      blob-ne-temp refl release_taken
