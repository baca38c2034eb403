-- ===== src/Lab/Object/Laws.antt =====
-- The encoding round trip, and what `Unique` keeps.
use edge_delta_lab.Prelude.{
  ℕ, ◌+◌, ◌≤◌, ◌≡◌, ◌≢◌, refl, String, true, false, List, [], ◌∷◌, arith, str_eq, eq_iff, eq_refl,
  length, ok, require, >>=-eq-ok, All, Has, here, there, All-at, Bool-cases, inl, inr,
}
use edge_delta_lab.Prelude.Int.{ℤ, pos, pos_part, eqb_ℤ→eq}
use edge_delta_lab.Lab.Manifest.{Chunk, Manifest, Platform}
use edge_delta_lab.Lab.Verify.Chunks.{IsConsistent}
use edge_delta_lab.Lab.Object.{contains, unique_from, unique, is_intact, encode, decode, describe}

-- gzip gives back what was compressed, if the limit leaves room for it.
pub record GzipLaw (os : Platform) : Type 0 where
  pub round_trip :
      (raw encoded : List ℕ) (limit : ℕ)
      → os.gzip raw ≡ ok encoded
      → length raw ≤ limit
      → os.gunzip limit encoded ≡ ok raw

pub is_intact-inv :
    (os : Platform) (bytes : List ℕ) (size : ℤ) (sha : String)
    → is_intact os bytes size sha ≡ true
    → (pos (length bytes) ≡ size) × (os.hash bytes ≡ sha)
unfolding is_intact
is_intact-inv os bytes size sha h =
    ground (arith, eq_iff (os.hash bytes) sha, eqb_ℤ→eq (pos (length bytes)) size)

is_intact_self :
    (os : Platform) (bytes : List ℕ)
    → is_intact os bytes (pos (length bytes)) (os.hash bytes) ≡ true
unfolding is_intact
is_intact_self os bytes = ground (arith, eq_refl (os.hash bytes))

-- What decodes has the size and the digest of its descriptor.
pub decode_sound :
    (os : Platform) (encoded raw : List ℕ) (c : Chunk)
    → decode os encoded c ≡ ok raw
    → (pos (length raw) ≡ c.size) × (os.hash raw ≡ c.sha256)
unfolding decode
decode_sound os encoded raw c h =
    let (_, _, h1) =
      >>=-eq-ok (require (is_intact os encoded c.encoded_size c.encoded_sha256) _) _ h in
    let (r, _, h2) = >>=-eq-ok (os.gunzip (pos_part c.size + 1) encoded) _ h1 in
    let (_, t, h3) = >>=-eq-ok (require (is_intact os r c.size c.sha256) _) _ h2 in
    let same : r ≡ raw = cc h3 in rw (← same) (is_intact-inv os r c.size c.sha256 (ground arith))

-- A receiver decodes what the publisher encoded, under the descriptor that the publisher wrote.
pub decode-encode :
    (os : Platform) (raw encoded : List ℕ)
    → GzipLaw os
    → encode os raw ≡ ok encoded
    → decode os encoded (describe os raw encoded) ≡ ok raw
unfolding encode decode describe
decode-encode os raw encoded law h = rw (is_intact_self os encoded) (
    rw (law.round_trip raw encoded (length raw + 1) h (omega arith))
      (rw (is_intact_self os raw) refl))

-- No content twice.
abbrev pub IsUnique : List Chunk → Type 0
IsUnique [] = Unit
IsUnique (c ∷ cs) = All (λ (d : Chunk). d.sha256 ≢ c.sha256) cs × IsUnique cs

unique_from-fresh :
    (seen : List String) (sha : String) (cs : List Chunk)
    → contains sha seen ≡ true
    → All (λ (d : Chunk). d.sha256 ≢ sha) (unique_from seen cs)
unfolding unique_from contains
unique_from-fresh seen sha [] h = tt
unique_from-fresh seen sha (c ∷ cs) h = elim (Bool-cases (contains c.sha256 seen)) [
  | inl old ↦ rw old (unique_from-fresh seen sha cs h)
  | inr new ↦
      rw new (λ e. ground (arith, e), unique_from-fresh (c.sha256 ∷ seen) sha cs (ground arith))
]

unique_from-IsUnique : (seen : List String) (cs : List Chunk) → IsUnique (unique_from seen cs)
unfolding unique_from contains
unique_from-IsUnique seen [] = tt
unique_from-IsUnique seen (c ∷ cs) = elim (Bool-cases (contains c.sha256 seen)) [
  | inl old ↦ rw old (unique_from-IsUnique seen cs)
  | inr new ↦ rw new (
    unique_from-fresh (c.sha256 ∷ seen) c.sha256 cs (ground (arith, eq_refl c.sha256)),
    unique_from-IsUnique (c.sha256 ∷ seen) cs,
  )
]

-- Every descriptor is kept, or its content was seen before.
unique_from-Has :
    (seen : List String) (cs : List Chunk) (c : Chunk)
    → IsConsistent cs
    → Has c cs
    → contains c.sha256 seen ≡ false
    → Has c (unique_from seen cs)
unfolding unique_from contains
unique_from-Has seen [] c con m f = elim m [ ]
unique_from-Has seen (d ∷ cs) c con here f = rw f here
unique_from-Has seen (d ∷ cs) c con (there m) f = elim (Bool-cases (contains d.sha256 seen)) [
  | inl old ↦ rw old (unique_from-Has seen cs c con.1 m f)
  | inr new ↦ rw new (elim (Bool-cases (str_eq d.sha256 c.sha256)) [
    | inl same ↦
        let e =
          All-at (λ (x : Chunk). d.sha256 ≡ x.sha256 → d ≡ x) cs con.0 m
            ((eq_iff d.sha256 c.sha256).0 same) in
        rw e here
    | inr other ↦ there (unique_from-Has (d.sha256 ∷ seen) cs c con.1 m (ground arith))
  ])
]

-- On the chunks of an accepted release `Unique` returns no content twice, and every chunk of the
-- release is among what it returns.
pub unique_lem :
    (m : Manifest)
    → IsConsistent m.chunks
    → IsUnique (unique m) × ((c : Chunk) → Has c m.chunks → Has c (unique m))
unfolding unique
unique_lem m con =
    (unique_from-IsUnique [] m.chunks, λ c h. unique_from-Has [] m.chunks c con h refl)
