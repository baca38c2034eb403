-- ===== src/Tests/Lab.antt =====
-- Runs of the release format, the chunker and the objects.
use mathlib.Core.List.{flatten}
use edge_delta_lab.Prelude.{ℕ, ◌≡◌, ◌↔◌, refl, arith, List, [], ◌∷◌, ◌++◌, ok, true}
use edge_delta_lab.Prelude.Int.{pos}
use edge_delta_lab.Lab.Manifest.{Manifest}
use edge_delta_lab.Lab.Verify.{verify, valid_parameters, is_power_of_two}
use edge_delta_lab.Lab.Verify.Chunks.{IsConsistent}
use edge_delta_lab.Lab.Verify.Exact.{IsSigned, IsRelease, verify_iff}
use edge_delta_lab.Lab.Chunker.{split, split_loop, is_boundary, roll}
use edge_delta_lab.Lab.Chunker.Laws.{IsSplit, split_lem}
use edge_delta_lab.Lab.Chunker.Resume.{ends_at_cut, shared_suffix}
use edge_delta_lab.Lab.Object.{encode, decode, is_intact, describe}
use edge_delta_lab.Lab.Object.Laws.{GzipLaw, decode-encode}
use edge_delta_lab.Tests.Samples.{digest, chunk, manifest, platform}

verify_iff_example : (verify platform (0 ∷ []) [] (pos 100) ≡ ok (manifest, digest)) ↔ (
    (p : List ℕ) × IsSigned platform (0 ∷ []) [] p
    × (platform.unmarshal_manifest p ≡ ok manifest)
    × (platform.hash p ≡ digest)
    × IsRelease manifest (pos 100))
verify_iff_example = verify_iff platform (0 ∷ []) [] (pos 100) manifest digest (omega arith)

abbrev gear : ℕ → ℕ
gear b = b

small_parameters : valid_parameters (pos 64) (pos 64) (pos 64) ≡ true
unfolding valid_parameters is_power_of_two
small_parameters = refl

split_lem_example :
    (cs : List (List ℕ)) × (split gear (pos 64) (pos 64) (pos 64) (1 ∷ 2 ∷ 3 ∷ []) ≡ ok cs)
    × (flatten cs ≡ 1 ∷ 2 ∷ 3 ∷ [])
    × IsSplit 64 64 cs
split_lem_example = split_lem gear (pos 64) (pos 64) (pos 64) (1 ∷ 2 ∷ 3 ∷ []) small_parameters

cut_one : ends_at_cut gear 1 1 4 [] 0 (1 ∷ []) ≡ true
unfolding ends_at_cut is_boundary roll
cut_one = refl

cut_two : ends_at_cut gear 1 1 4 [] 0 (2 ∷ 3 ∷ []) ≡ true
unfolding ends_at_cut is_boundary roll
cut_two = refl

shared_suffix_example :
    (cs : List (List ℕ)) × (cs' : List (List ℕ)) × (common : List (List ℕ)) × (split_loop gear 1 1 4
        [] 0
        (1 ∷ 4 ∷ [])
      ≡ cs ++ common)
    × (split_loop gear 1 1 4 [] 0 (2 ∷ 3 ∷ 4 ∷ []) ≡ cs' ++ common)
    × (common ≡ split_loop gear 1 1 4 [] 0 (4 ∷ []))
shared_suffix_example = shared_suffix gear 1 1 4 (1 ∷ []) (2 ∷ 3 ∷ []) (4 ∷ []) cut_one cut_two

decoded : decode platform (1 ∷ 2 ∷ 3 ∷ []) chunk ≡ ok (1 ∷ 2 ∷ 3 ∷ [])
unfolding decode is_intact
decoded = refl

platform-GzipLaw : GzipLaw platform
platform-GzipLaw = record { round_trip = λ raw encoded limit e fits. ground (arith, e) }

encoded : encode platform (1 ∷ 2 ∷ []) ≡ ok (1 ∷ 2 ∷ [])
unfolding encode
encoded = refl

decode-encode_example :
    decode platform (1 ∷ 2 ∷ []) (describe platform (1 ∷ 2 ∷ []) (1 ∷ 2 ∷ [])) ≡ ok (1 ∷ 2 ∷ [])
decode-encode_example = decode-encode platform (1 ∷ 2 ∷ []) (1 ∷ 2 ∷ []) platform-GzipLaw encoded

abbrev repeated : Manifest
repeated = record manifest { chunks = chunk ∷ chunk ∷ [] }

repeated-IsConsistent : IsConsistent repeated.chunks
repeated-IsConsistent = ((λ e. refl, tt), (tt, tt))
