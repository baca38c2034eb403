-- ===== src/Lab/Agent/Sync.antt =====
-- `Sync`, `readState`, `writeState` and `assemble` of internal/lab/agent.go.
pub mod Order
pub mod Keeps
pub mod HighWater
pub mod Ends
pub mod Integrity
use edge_delta_lab.Prelude.{
  ℕ, ◌+◌, ◌-◌, String, Bool, true, false, not, ◌&&◌, ◌||◌, Option, none, some, List, [], ◌∷◌, ◌++◌,
  if◌then◌else◌, str_eq, length, Result, ok, err, ltb, ◌==◌,
}
use edge_delta_lab.Prelude.Int.{ℤ, pos, ltb_ℤ, eqb_ℤ, add64, pos_part}
use edge_delta_lab.Prelude.Dict.{lookup}
use edge_delta_lab.Lab.Manifest.{Chunk, Manifest, Platform}
use edge_delta_lab.Lab.Verify.{verify}
use edge_delta_lab.Lab.Object.{join, cache_path, unique, is_intact, decode}
use edge_delta_lab.Lab.Storage.{
  Disk, Outcome, done, failed, crashed, Io, ◌>>=◌, ◌>>◌, succeed, unlink, atomic_write,
}
use edge_delta_lab.Lab.Agent.{
  State, no_state, Summary, AgentOptions, World, Fetched, body, not_modified, lost, Attempt, got,
  transient, permanent, allowed_url, valid_options, admit,
}

unfoldable pub fail : {A : Type 0} → String → Io A
fail e d = (failed e, d)

-- A result of code that touches no file.
unfoldable pub lift : {A : Type 0} → Result A → Io A
unfolding succeed fail
lift (ok a) = succeed a
lift (err e) = fail e

unfoldable pub check : Bool → String → Io (Unit {0})
unfolding succeed fail
check true e = succeed tt
check false e = fail e

unfoldable pub read_file : String → Io (Option (List ℕ))
read_file path d = (done (lookup path d.files), d)

-- The content that was read, or the error of opening a missing file.
unfoldable pub or_missing : String → Option (List ℕ) → Io (List ℕ)
unfolding succeed fail
or_missing e none = fail e
or_missing e (some bytes) = succeed bytes

abbrev pub state_path : String
state_path = "state.json"

unfoldable pub manifest_path : String → String
manifest_path digest = join "manifests/" (join digest ".json")

unfoldable pub staged_path : String → String
staged_path sha256 = join "staged/" (join sha256 ".tar")

-- `CleanTemps`; the one name that temporary files have here is `w.temp`.
unfoldable pub clean_temps : String → Io (Unit {0})
clean_temps temp d = elim (lookup temp d.files) [ none ↦ (done tt, d) | some _ ↦ unlink temp d ]

-- What the step that loads the image changes of the state.
pub record LoadMark : Type 0 where
  pub loaded_manifest_sha256 : String
  pub phase : String

module _ (w : World) where
  unfoldable pub state_of : Option (List ℕ) → Result State
  state_of none = ok no_state
  state_of (some b) = w.unmarshal_state b

  unfoldable pub read_state : Io State
  unfolding state_of read_file lift
  read_state = do b ← read_file state_path; lift (state_of b)

  unfoldable pub write_state : State → Io (Unit {0})
  write_state s = atomic_write w.temp state_path (w.marshal_state (record s { updated = w.now }))

  -- The envelope kept for the accepted manifest.
  unfoldable pub cached_envelope : State → Io (List ℕ)
  unfolding read_file or_missing
  cached_envelope old = do
    b ← read_file (manifest_path old.manifest_sha256)
    or_missing "open manifest" b

  -- Offline: only the manifest that was accepted before.
  unfoldable pub offline_envelope : AgentOptions → State → Io (List ℕ)
  unfolding check cached_envelope
  offline_envelope o old = do
    check (not (str_eq old.manifest_sha256 "")) "no accepted manifest available offline"
    check (str_eq o.manifest_url "" || str_eq o.manifest_url old.manifest_url)
        "offline mode only accepts the current cached manifest"
    cached_envelope old

  -- The kept envelope, if it is of this URL and still verifies to the accepted digest.
  unfoldable pub revalidated : AgentOptions → State → List ℕ → Option (List ℕ) → Option (List ℕ)
  revalidated o old key none = none
  revalidated o old key (some b) =
      if str_eq old.manifest_url o.manifest_url && not (str_eq old.manifest_sha256 "")
      then elim (verify w.os b key o.max_artifact) [
        | err _ ↦ none
        | ok (_, digest) ↦ if str_eq digest old.manifest_sha256 then some b else none
      ]
      else none

  abbrev pub etag_of : Option (List ℕ) → String
  etag_of none = ""
  etag_of (some b) = join "\"" (join (w.os.hash b) "\"")

  unfoldable pub fetched_envelope : Option (List ℕ) → Fetched → Io (List ℕ)
  fetched_envelope cached (body b) = succeed b
  fetched_envelope (some b) not_modified = succeed b
  fetched_envelope none not_modified = fail "not modified"
  fetched_envelope cached (lost e) = fail e

  unfoldable pub online_envelope : AgentOptions → State → List ℕ → Io (List ℕ)
  unfolding lift read_file revalidated fetched_envelope
  online_envelope o old key = do
    lift (allowed_url w o.manifest_url o.allow_http)
    lift (allowed_url w o.base_url o.allow_http)
    b ← read_file (manifest_path old.manifest_sha256)
    let cached = revalidated o old key b
    fetched_envelope cached (w.fetch (etag_of cached))

  unfoldable pub envelope : AgentOptions → State → List ℕ → Io (List ℕ)
  envelope o old key = if o.offline then offline_envelope o old else online_envelope o old key

  -- `ValidChunk`
  unfoldable pub valid_cached : Chunk → Option (List ℕ) → Bool
  valid_cached c none = false
  valid_cached c (some b) = is_intact w.os b c.size c.sha256

  -- The chunks that are not in the cache, in order.
  unfoldable pub missing_chunks : List Chunk → Io (List Chunk)
  unfolding read_file valid_cached
  missing_chunks [] = succeed []
  missing_chunks (c ∷ cs) = do
    b ← read_file (cache_path c)
    rest ← missing_chunks cs
    succeed (if valid_cached c b then rest else c ∷ rest)

  unfoldable pub sum_missing : List Chunk → ℤ
  sum_missing [] = pos 0
  sum_missing (c ∷ cs) = add64 c.size (sum_missing cs)

  -- A job: requests for the chunk until one decodes and is stored. The attempts are those that the
  -- retry policy allows; a failure of the disk ends the job.
  unfoldable pub fetch_chunk : Chunk → List Attempt → Io (Unit {0})
  fetch_chunk c [] = fail "exhausted attempts"
  fetch_chunk c (permanent e ∷ rest) = fail e
  fetch_chunk c (transient e ∷ rest) = fetch_chunk c rest
  fetch_chunk c (got b ∷ rest) =
      let again = fetch_chunk c rest in
      elim (decode w.os b c) [ err e ↦ again | ok raw ↦ atomic_write w.temp (cache_path c) raw ]

  unfoldable pub fetch_all : List Chunk → Io (Unit {0})
  fetch_all [] = succeed tt
  fetch_all (c ∷ cs) = do fetch_chunk c (w.attempts c); fetch_all cs

  -- The loop of `assemble`: the bytes of the chunks one after the other.
  unfoldable pub collect : List Chunk → Io (List ℕ)
  unfolding read_file check or_missing
  collect [] = succeed []
  collect (c ∷ cs) = do
    b ← read_file (cache_path c)
    raw ← or_missing "open chunk" b
    check (eqb_ℤ (pos (length raw)) c.size) "cached chunk size changed during assembly"
    rest ← collect cs
    succeed (raw ++ rest)

  unfoldable pub assemble : Manifest → String → Io (Unit {0})
  unfolding check
  assemble m out = do
    bytes ← collect m.chunks
    check (is_intact w.os bytes m.artifact_size m.artifact_sha256)
        "assembled artifact integrity failure"
    atomic_write w.temp out bytes

  -- `h == m.ArtifactSHA256 && n == m.ArtifactSize` for the staged archive
  unfoldable pub archive_valid : Manifest → Option (List ℕ) → Bool
  archive_valid m none = false
  archive_valid m (some b) = is_intact w.os b m.artifact_size m.artifact_sha256

  unfoldable pub needed_bytes : AgentOptions → Manifest → List Chunk → Bool → ℤ
  needed_bytes o m missing valid =
      let base = add64 (sum_missing missing) o.reserve_bytes in
      if valid then base else add64 base m.artifact_size

  unfoldable pub assemble_unless : Bool → Manifest → Io (Unit {0})
  assemble_unless true m = succeed tt
  assemble_unless false m = assemble m (staged_path m.artifact_sha256)

  -- Clears the mark of the last load before Docker is called, and sets it after the proof.
  unfoldable pub load_archive : Manifest → String → State → Io LoadMark
  unfolding lift
  load_archive m digest s = do
    write_state (record s { loaded_manifest_sha256 = ""; phase = "loading" })
    report ← lift (w.load_image (staged_path m.artifact_sha256))
    lift (w.prove_loaded report m.image_ids)
    succeed (record { loaded_manifest_sha256 = digest; phase = "loaded" })

  -- `s.LoadedManifestSHA256 != digest`
  unfoldable pub load_unless : Bool → Manifest → String → State → Io LoadMark
  load_unless true m digest s =
      succeed (record { loaded_manifest_sha256 = s.loaded_manifest_sha256; phase = "loaded" })
  load_unless false m digest s = load_archive m digest s

  -- The part of `Sync` that hands the archive to Docker, under `o.DockerLoad`.
  unfoldable pub load_when : Bool → Manifest → String → State → Io LoadMark
  unfolding check
  load_when false m digest s =
      succeed (record { loaded_manifest_sha256 = s.loaded_manifest_sha256; phase = "staged" })
  load_when true m digest s = do
    check (str_eq m.kind "docker-archive" && not (length m.image_ids == 0))
        "docker-load requires docker-archive and signed expected image IDs"
    load_unless (str_eq s.loaded_manifest_sha256 digest) m digest s

  -- From the accepted manifest on.
  unfoldable pub deliver : AgentOptions → Manifest → String → State → Io Summary
  unfolding check lift read_file load_when assemble_unless
  deliver o m digest s = do
    missing ← missing_chunks (unique m)
    check (not (o.offline && not (length missing == 0))) "offline: chunks missing or corrupt"
    old_archive ← read_file (staged_path m.artifact_sha256)
    free ← lift w.available
    let valid = archive_valid m old_archive
    check (not (ltb_ℤ free (needed_bytes o m missing valid))) "insufficient space"
    write_state (record s { phase = "fetching" })
    fetch_all missing
    write_state (record s { phase = "assembling" })
    assemble_unless valid m
    mark ← load_when o.docker_load m digest s
    write_state
        (record s { loaded_manifest_sha256 = mark.loaded_manifest_sha256; phase = mark.phase })
    succeed (record {
      release = m.release;
      sequence = m.sequence;
      phase = mark.phase;
      artifact = staged_path m.artifact_sha256;
      artifact_sha256 = m.artifact_sha256;
      artifact_bytes = m.artifact_size;
      unique_chunks = length (unique m);
      reused_chunks = length (unique m) - length missing;
    })

  -- The state that `Sync` records before it fetches any content.
  abbrev pub planned : String → State → Manifest → String → State
  planned url old m digest = record {
    sequence = m.sequence;
    manifest_sha256 = digest;
    manifest_url = url;
    release = m.release;
    phase = "planning";
    artifact = staged_path m.artifact_sha256;
    updated = "";
    loaded_manifest_sha256 = old.loaded_manifest_sha256;
  }

  -- From the verified envelope on: the check against rollback and equivocation, the envelope and
  -- the state on the disk, and the delivery.
  unfoldable pub accepted : AgentOptions → State → List ℕ → Manifest → String → Io Summary
  unfolding lift deliver
  accepted o old bytes m digest =
      let s = planned (if o.offline then old.manifest_url else o.manifest_url) old m digest in
      (do
        lift (admit old m digest)
        atomic_write w.temp (manifest_path digest) bytes
        write_state s
        deliver o m digest s)

  unfoldable pub sync : AgentOptions → Io Summary
  unfolding check lift read_state envelope accepted
  sync o = do
    check (valid_options o) "invalid agent options"
    check (not w.locked) "another agent holds this state directory"
    clean_temps w.temp
    key ← lift w.pub_key
    old ← read_state
    bytes ← envelope o old key
    v ← lift (verify w.os bytes key o.max_artifact)
    accepted o old bytes v.0 v.1
