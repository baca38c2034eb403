-- ===== src/Lab/Verify/Exact.antt =====
-- `Verify` accepts exactly the well-formed releases that the publisher signed.
use edge_delta_lab.Prelude.{
  ℕ, ◌+◌, ◌^◌, ◌≤◌, ◌≡◌, ◌≢◌, ◌↔◌, ◌⊎◌, refl, String, true, not, List, [], ◌∷◌, arith, ltb, eq_iff,
  ok, require, >>=-eq-ok, All, length,
}
use edge_delta_lab.Prelude.Int.{ℤ, pos, pos_part, eqb_ℤ, ◌≤ℤ◌, eqb_ℤ→eq}
use edge_delta_lab.Lab.Manifest.{
  hex_digest, safe_release, Chunk, Manifest, Envelope, Platform, max_chunk_bytes,
  max_manifest_bytes, format_version,
}
use edge_delta_lab.Lab.Verify.{
  is_power_of_two, seen_chunk, valid_header, valid_kind, valid_artifact, check_chunks,
  valid_parameters, sum_chunks, valid_image_id, valid_images, check_manifest, verify,
}
use edge_delta_lab.Lab.Verify.Chunks.{
  IsChunk, IsConsistent, Agrees, Summed, sum_sizes, sum_chunks-Summed, Summed-sum_chunks,
}

-- A release that a receiver may act on.
pub record IsRelease (m : Manifest) (max_artifact : ℤ) : Type 0 where
  pub version : m.version ≡ pos format_version
  pub chunker : m.chunker ≡ "gear64-lab-v1"
  pub name : safe_release m.release ≡ true
  pub numbered : m.sequence ≢ 0
  pub kind : (m.kind ≡ "raw") ⊎ (m.kind ≡ "docker-archive")
  pub smallest : pos 64 ≤ℤ m.min
  pub ordered : m.min ≤ℤ m.avg
  pub ordered_max : m.avg ≤ℤ m.max
  pub largest : m.max ≤ℤ pos max_chunk_bytes
  pub power : is_power_of_two (pos_part m.avg) ≡ true
  pub positive : pos 1 ≤ℤ m.artifact_size
  pub bounded : m.artifact_size ≤ℤ max_artifact
  pub digest : hex_digest m.artifact_sha256 ≡ true
  pub chunks : All (IsChunk m.max) m.chunks
  pub consistent : IsConsistent m.chunks
  pub sum : m.artifact_size ≡ pos (sum_sizes m.chunks)
  pub images : All (λ (id : String). valid_image_id id ≡ true) m.image_ids

valid_images_iff :
    (ids : List String)
    → (valid_images ids ≡ ok tt) ↔ All (λ (id : String). valid_image_id id ≡ true) ids
unfolding valid_images
valid_images_iff [] = (λ _. tt, λ _. refl)
valid_images_iff (id ∷ ids) = (
  λ h. (ground arith, (valid_images_iff ids).0 (ground arith)),
  λ h. rw h.0 ((valid_images_iff ids).1 h.1),
)

no_seen : (cs : List Chunk) → All (Agrees []) cs
unfolding seen_chunk
no_seen [] = tt
no_seen (c ∷ cs) = (λ old p. cc, no_seen cs)

check_chunks-inv :
    (m : Manifest)
    → check_chunks m ≡ ok tt
    → (n : ℤ) × (sum_chunks m [] (pos 0) m.chunks ≡ ok n)
      × (eqb_ℤ n m.artifact_size ≡ true)
      × (valid_images m.image_ids ≡ ok tt)
unfolding check_chunks
check_chunks-inv m h =
    let (n, p, rest) = >>=-eq-ok (sum_chunks m [] (pos 0) m.chunks) _ h in
    (n, p, ground arith, ground arith)

check_manifest-inv :
    (m : Manifest) (max_artifact : ℤ)
    → check_manifest m max_artifact ≡ ok tt
    → (valid_header m ≡ true)
      × (valid_kind m ≡ true)
      × (valid_parameters m.min m.avg m.max ≡ true)
      × (valid_artifact m max_artifact ≡ true)
      × (check_chunks m ≡ ok tt)
unfolding check_manifest
check_manifest-inv m max_artifact h = ground arith

-- Passing the checks is being a well-formed release.
check_manifest→IsRelease :
    (m : Manifest) (max_artifact : ℤ)
    → max_artifact ≤ℤ pos (2 ^ 62)
    → check_manifest m max_artifact ≡ ok tt
    → IsRelease m max_artifact
unfolding valid_header valid_kind valid_parameters valid_artifact
check_manifest→IsRelease m max_artifact small h =
    let (t1, t2, t3, t4, t) = check_manifest-inv m max_artifact h in
    let (n, t5, t6, t7) = check_chunks-inv m t in
    let largest : m.max ≤ℤ pos max_chunk_bytes = ground arith in
    let positive : pos 1 ≤ℤ m.artifact_size = ground arith in
    let bounded : m.artifact_size ≤ℤ max_artifact = ground arith in
    let s = sum_chunks-Summed m [] 0 m.chunks n largest (omega arith) (omega arith) t5 in
    record {
      version = ground arith;
      chunker = ground (arith, eq_iff m.chunker "gear64-lab-v1");
      name = ground arith;
      numbered = ground arith;
      kind = ground (arith, eq_iff m.kind "raw", eq_iff m.kind "docker-archive");
      smallest = ground arith;
      ordered = ground arith;
      ordered_max = ground arith;
      largest = largest;
      power = ground arith;
      positive = positive;
      bounded = bounded;
      digest = ground arith;
      chunks = s.chunks;
      consistent = s.consistent_rest;
      sum = ground (arith, s.sum, eqb_ℤ→eq n m.artifact_size t6);
      images = (valid_images_iff m.image_ids).0 t7;
    }

module _ (m : Manifest) (max_artifact : ℤ) (r : IsRelease m max_artifact) where
  header_holds : valid_header m ≡ true
  unfolding valid_header
  header_holds = ground (arith, eq_iff m.chunker "gear64-lab-v1")

  kind_holds : valid_kind m ≡ true
  unfolding valid_kind
  kind_holds = ground (arith, eq_iff m.kind "raw", eq_iff m.kind "docker-archive")

  parameters_hold : valid_parameters m.min m.avg m.max ≡ true
  unfolding valid_parameters
  parameters_hold = ground arith

  artifact_holds : valid_artifact m max_artifact ≡ true
  unfolding valid_artifact
  artifact_holds = ground arith

  chunks_hold : max_artifact ≤ℤ pos (2 ^ 62) → check_chunks m ≡ ok tt
  unfolding check_chunks
  chunks_hold small =
      let s : Summed m [] 0 m.chunks (pos (0 + sum_sizes m.chunks)) = record {
        chunks = r.chunks;
        agree = no_seen m.chunks;
        consistent_rest = r.consistent;
        sum = refl;
      } in
      let sum =
        Summed-sum_chunks m [] 0 m.chunks r.largest (omega arith) (rw r.sum (omega arith)) s in
      rw sum (ground (arith, r.sum, (valid_images_iff m.image_ids).1 r.images))

  IsRelease→check_manifest : max_artifact ≤ℤ pos (2 ^ 62) → check_manifest m max_artifact ≡ ok tt
  unfolding check_manifest
  IsRelease→check_manifest small =
      ground (arith, header_holds, kind_holds, parameters_hold, artifact_holds, chunks_hold small)

-- The bytes are an envelope of the size limit, its payload decodes to `p`, and the signature on `p`
-- is the publisher's.
pub record IsSigned (os : Platform) (bytes pub_key p : List ℕ) : Type 0 where
  pub envelope : Envelope
  pub signature : List ℕ
  pub limit : length bytes ≤ max_manifest_bytes
  pub parsed : os.unmarshal_envelope bytes ≡ ok envelope
  pub payload : os.decode64 envelope.payload ≡ ok p
  pub decoded : os.decode64 envelope.signature ≡ ok signature
  pub signed : os.verify_signature pub_key p signature ≡ true

module _ (os : Platform) (bytes pub_key : List ℕ) (max_artifact : ℤ) (m : Manifest)
    (digest : String) where
  verify-inv :
      max_artifact ≤ℤ pos (2 ^ 62)
      → verify os bytes pub_key max_artifact ≡ ok (m, digest)
      → (p : List ℕ) × IsSigned os bytes pub_key p
        × (os.unmarshal_manifest p ≡ ok m)
        × (os.hash p ≡ digest)
        × IsRelease m max_artifact
  unfolding verify
  verify-inv small h =
      let (_, limit, h1) =
        >>=-eq-ok (require (not (ltb max_manifest_bytes (length bytes))) _) _ h in
      let (env, parsed, h2) = >>=-eq-ok (os.unmarshal_envelope bytes) _ h1 in
      let (p, payload, h3) = >>=-eq-ok (os.decode64 env.payload) _ h2 in
      let (sig, decoded, h4) = >>=-eq-ok (os.decode64 env.signature) _ h3 in
      let (_, signed, h5) = >>=-eq-ok (require (os.verify_signature pub_key p sig) _) _ h4 in
      let (m', manifest, h6) = >>=-eq-ok (os.unmarshal_manifest p) _ h5 in
      let (_, checked, h7) = >>=-eq-ok (check_manifest m' max_artifact) _ h6 in
      let same : m' ≡ m = cc h7 in
      (
        p,
        record {
          envelope = env;
          signature = sig;
          limit = ground arith;
          parsed = parsed;
          payload = payload;
          decoded = decoded;
          signed = ground arith;
        },
        cc,
        cc h7,
        rw same at (check_manifest→IsRelease m' max_artifact small checked),
      )

  verify_accepts :
      max_artifact ≤ℤ pos (2 ^ 62)
      → (p : List ℕ) → IsSigned os bytes pub_key p
      → os.unmarshal_manifest p ≡ ok m
      → os.hash p ≡ digest
      → IsRelease m max_artifact
      → verify os bytes pub_key max_artifact ≡ ok (m, digest)
  unfolding verify
  verify_accepts small p s manifest hashed r =
      let limit : not (ltb max_manifest_bytes (length bytes)) ≡ true = ground (arith, s.limit) in
      rw limit (
        rw s.parsed (
          rw s.payload (
            rw s.decoded (
              rw s.signed (
                rw manifest
                  (rw (IsRelease→check_manifest m max_artifact r small) (rw hashed refl)))))))

-- `Verify` returns a manifest and a digest exactly when the envelope carries a payload signed by the
-- publisher's key which parses to that manifest and hashes to that digest, and the manifest is a
-- well-formed release: the artifact limit is at most 2^62.
pub verify_iff :
    (os : Platform) (bytes pub_key : List ℕ) (max_artifact : ℤ) (m : Manifest) (digest : String)
    → max_artifact ≤ℤ pos (2 ^ 62)
    → (verify os bytes pub_key max_artifact ≡ ok (m, digest)) ↔ (
        (p : List ℕ) × IsSigned os bytes pub_key p
        × (os.unmarshal_manifest p ≡ ok m)
        × (os.hash p ≡ digest)
        × IsRelease m max_artifact)
verify_iff os bytes pub_key max_artifact m digest small = (
  verify-inv os bytes pub_key max_artifact m digest small,
  λ (p, s, manifest, hashed, r).
      verify_accepts os bytes pub_key max_artifact m digest small p s manifest hashed r,
)
