-- ===== src/Lab/Publish.antt =====
-- `Publish` of internal/lab/publish.go, and `Sign` and `ReadKey` of format.go. The paths are below the root; the
-- input and the key file are given by what reading them gives.
pub mod Immutable
use edge_delta_lab.Prelude.{
  ok, err, length, if◌then◌else◌, ℕ, String, Bool, true, false, not, ◌&&◌, Option, none, some, List,
  [], ◌∷◌, Result, ◌==◌,
}
use edge_delta_lab.Prelude.Int.{ℤ, pos, add64}
use edge_delta_lab.Lab.Manifest.{safe_release, format_version, Chunk, Manifest, Platform}
use edge_delta_lab.Lab.Verify.{codes_eq, verify}
use edge_delta_lab.Lab.Chunker.{split}
use edge_delta_lab.Lab.Object.{join, blob_rel, encode, is_intact, describe}
use edge_delta_lab.Lab.Storage.{Io, ◌>>=◌, ◌>>◌, succeed, atomic_write}
use edge_delta_lab.Lab.Agent.Sync.{lift, check, read_file}

pub record PublishOptions : Type 0 where
  pub input : Result (List ℕ)
  pub key : Result (List ℕ)
  pub release : String
  pub kind : String
  pub source : String
  pub sequence : ℕ
  pub image_ids : List String
  pub min : ℤ
  pub avg : ℤ
  pub max : ℤ
  -- whether reading the release file works, where it is there
  pub readable : Bool

-- `ReadKey`, from what reading the file gives; `decode_hex` is `hex.DecodeString` after
-- `bytes.TrimSpace`.
unfoldable pub read_key : (List ℕ → Result (List ℕ)) → ℕ → Result (List ℕ) → Result (List ℕ)
read_key decode_hex size (err e) = err e
read_key decode_hex size (ok b) = sized (decode_hex b)
  where
    sized : Result (List ℕ) → Result (List ℕ)
    sized (err e) = err e
    sized (ok d) = if length d == size then ok d else err "key size"

unfoldable pub sign_release : Platform → Manifest → List ℕ → List ℕ
sign_release os m key =
    let b = os.marshal_manifest m in
    os.marshal_envelope
      (record { payload = os.encode64 b; signature = os.encode64 (os.sign key b) })

unfoldable pub release_path : String → String
release_path release = join "releases/" (join release ".json")

-- `os.ReadFile` of the release file, whose error is dropped
unfoldable pub read_release : Bool → String → Io (Option (List ℕ))
unfolding read_file
read_release false path = succeed none
read_release true path = read_file path

-- The object is there with the size and the digest that it should have.
unfoldable pub is_published : Platform → Chunk → Option (List ℕ) → Bool
is_published os c none = false
is_published os c (some b) = is_intact os b c.encoded_size c.encoded_sha256

-- No file, or one with this content.
unfoldable pub may_write : Option (List ℕ) → List ℕ → Bool
may_write none envelope = true
may_write (some old) envelope = codes_eq old envelope

unfoldable pub sum_of : List Chunk → ℤ → ℤ
sum_of [] n = n
sum_of (c ∷ cs) n = sum_of cs (add64 n c.size)

module _ (os : Platform) (temp : String) where
  unfoldable pub write_unless : Bool → Chunk → List ℕ → Io (Unit {0})
  write_unless true c encoded = succeed tt
  write_unless false c encoded = atomic_write temp (blob_rel c) encoded

  -- The function that `Publish` gives to `Split`.
  unfoldable pub store_chunk : List ℕ → Io Chunk
  unfolding lift read_file write_unless is_published
  store_chunk raw = do
    encoded ← lift (encode os raw)
    old ← read_file (blob_rel (describe os raw encoded))
    write_unless (is_published os (describe os raw encoded) old) (describe os raw encoded) encoded
    succeed (describe os raw encoded)

  unfoldable pub store_chunks : List (List ℕ) → Io (List Chunk)
  unfolding store_chunk
  store_chunks [] = succeed []
  store_chunks (raw ∷ raws) = do c ← store_chunk raw; cs ← store_chunks raws; succeed (c ∷ cs)

  unfoldable pub release_of : PublishOptions → List ℕ → List Chunk → Manifest
  release_of o input cs = record {
    version = pos format_version;
    release = o.release;
    sequence = o.sequence;
    kind = o.kind;
    artifact_sha256 = os.hash input;
    artifact_size = sum_of cs (pos 0);
    image_ids = o.image_ids;
    source = o.source;
    chunker = "gear64-lab-v1";
    min = o.min;
    avg = o.avg;
    max = o.max;
    chunks = cs;
  }

  -- The envelope is checked as a receiver checks it, and a release name keeps its envelope.
  unfoldable pub write_release : Bool → Manifest → List ℕ → Io Manifest
  unfolding lift check read_release may_write
  write_release readable m key = do
    _ ← lift (verify os (sign_release os m key) (os.public_of key) (pos 1125899906842624))
    old ← read_release readable (release_path m.release)
    check (may_write old (sign_release os m key)) "release name is immutable"
    atomic_write temp (release_path m.release) (sign_release os m key)
    succeed m

  unfoldable pub publish : (ℕ → ℕ) → PublishOptions → Io Manifest
  unfolding lift check store_chunks write_release release_of
  publish gear o = do
    check (safe_release o.release && not (o.sequence == 0)) "invalid release or sequence"
    key ← lift o.key
    input ← lift o.input
    raws ← lift (split gear o.min o.avg o.max input)
    cs ← store_chunks raws
    write_release o.readable (release_of o input cs) key
