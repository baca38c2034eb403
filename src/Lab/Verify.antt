-- ===== src/Lab/Verify.antt =====
-- `Verify` of internal/lab/format.go.
pub mod Chunks
pub mod Exact
use Prim.Native.Nat.{bit_and}
use edge_delta_lab.Prelude.{
  ◌≡◌, refl, arith, ℕ, ◌-◌, ◌+◌, String, Bool, true, false, not, ◌&&◌, ◌||◌, Option, none, some,
  List, [], ◌∷◌, ltb, leb, ◌==◌, if◌then◌else◌, str_eq, length, drop, take, Result, ok, err, ◌>>=◌,
  ◌>>◌, require,
}
use edge_delta_lab.Prelude.Int.{ℤ, pos, pos_part, ltb_ℤ, eqb_ℤ, add64, ◌+ℤ◌}
use edge_delta_lab.Lab.Manifest.{
  codes, safe_release, hex_digest, hex_codes, Chunk, Manifest, Envelope, chunk_eq, Platform,
  max_manifest_bytes, max_chunk_bytes, format_version,
}

-- `m.Avg & (m.Avg-1) == 0`; the code evaluates it at positive numbers only.
unfoldable pub is_power_of_two : ℕ → Bool
is_power_of_two n = bit_and n (n - 1) == 0

unfoldable pub valid_parameters : ℤ → ℤ → ℤ → Bool
valid_parameters min avg max = not (
    ltb_ℤ min (pos 64)
    || ltb_ℤ avg min
    || ltb_ℤ max avg
    || ltb_ℤ (pos max_chunk_bytes) max
    || not (is_power_of_two (pos_part avg)))

unfoldable pub valid_chunk : ℤ → Chunk → Bool
valid_chunk max c = not (
    not (hex_digest c.sha256)
    || not (hex_digest c.encoded_sha256)
    || not (ltb_ℤ (pos 0) c.size)
    || ltb_ℤ max c.size
    || not (ltb_ℤ (pos 0) c.encoded_size)
    || ltb_ℤ (max +ℤ pos 65536) c.encoded_size)

-- `old, ok := seen[sha]`
unfoldable pub seen_chunk : String → List Chunk → Option Chunk
seen_chunk sha [] = none
seen_chunk sha (c ∷ seen) = if str_eq c.sha256 sha then some c else seen_chunk sha seen

unfoldable pub consistent : List Chunk → Chunk → Bool
consistent seen c = elim (seen_chunk c.sha256 seen) [ none ↦ true | some old ↦ chunk_eq old c ]

-- The loop over the chunks: `seen` holds the chunks before, `n` their sizes.
unfoldable pub sum_chunks : Manifest → List Chunk → ℤ → List Chunk → Result ℤ
sum_chunks m seen n [] = ok n
sum_chunks m seen n (c ∷ cs) =
    let n' = add64 n c.size in
    let rest = sum_chunks m (c ∷ seen) n' cs in
    if not (valid_chunk m.max c)
    then err "invalid chunk descriptor"
    else if not (consistent seen c)
    then err "inconsistent repeated chunk descriptor"
    else if ltb_ℤ m.artifact_size n'
    then err "chunk sizes exceed artifact"
    else rest

unfoldable pub codes_eq : List ℕ → List ℕ → Bool
codes_eq [] [] = true
codes_eq (a ∷ as') (b ∷ bs) = a == b && codes_eq as' bs
codes_eq _ _ = false

-- A comparison that holds is an equation.
pub codes_eq→eq : (a b : List ℕ) → codes_eq a b ≡ true → a ≡ b
unfolding codes_eq
codes_eq→eq [] [] h = refl
codes_eq→eq [] (y ∷ b) h = ground (arith, h)
codes_eq→eq (x ∷ a) [] h = ground (arith, h)
codes_eq→eq (x ∷ a) (y ∷ b) h = ground (arith, h, codes_eq→eq a b)

unfoldable pub valid_image_id : String → Bool
valid_image_id id =
    length (codes id) == 71
    && codes_eq (take 7 (codes id)) (codes "sha256:")
    && hex_codes (drop 7 (codes id))

unfoldable pub valid_images : List String → Result (Unit {0})
valid_images [] = ok tt
valid_images (id ∷ ids) =
    let rest = valid_images ids in if valid_image_id id then rest else err "invalid Docker image ID"

unfoldable pub valid_header : Manifest → Bool
valid_header m = not (
    not (eqb_ℤ m.version (pos format_version))
    || not (str_eq m.chunker "gear64-lab-v1")
    || not (safe_release m.release)
    || m.sequence == 0)

unfoldable pub valid_kind : Manifest → Bool
valid_kind m = str_eq m.kind "raw" || str_eq m.kind "docker-archive"

unfoldable pub valid_artifact : Manifest → ℤ → Bool
valid_artifact m max_artifact = not (
    not (ltb_ℤ (pos 0) m.artifact_size)
    || ltb_ℤ max_artifact m.artifact_size
    || not (hex_digest m.artifact_sha256))

unfoldable pub check_chunks : Manifest → Result (Unit {0})
check_chunks m = do
  n ← sum_chunks m [] (pos 0) m.chunks
  require (eqb_ℤ n m.artifact_size) "chunk sizes do not equal artifact size"
  valid_images m.image_ids

-- The checks on a manifest whose signature holds.
unfoldable pub check_manifest : Manifest → ℤ → Result (Unit {0})
check_manifest m max_artifact = do
  require (valid_header m) "unsupported or invalid release"
  require (valid_kind m) "unsupported artifact kind"
  require (valid_parameters m.min m.avg m.max) "invalid chunk parameters"
  require (valid_artifact m max_artifact) "invalid artifact size or hash"
  check_chunks m

module _ (os : Platform) where
  -- The manifest and the digest of its signed payload.
  unfoldable pub verify : List ℕ → List ℕ → ℤ → Result (Manifest × String)
  verify bytes pub_key max_artifact = do
    require (not (ltb max_manifest_bytes (length bytes))) "manifest exceeds limit"
    env ← os.unmarshal_envelope bytes
    p ← os.decode64 env.payload
    sig ← os.decode64 env.signature
    require (os.verify_signature pub_key p sig) "invalid release signature"
    m ← os.unmarshal_manifest p
    check_manifest m max_artifact
    ok (m, os.hash p)
