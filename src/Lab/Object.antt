-- ===== src/Lab/Object.antt =====
-- The chunk objects of internal/lab/format.go: their names, their encoding, and the distinct chunks
-- of a release.
pub mod Laws
use edge_delta_lab.Prelude.{
  ℕ, zero, suc, ◌+◌, String, Bool, true, false, not, ◌&&◌, ◌||◌, List, [], ◌∷◌, if◌then◌else◌,
  str_eq, length, Result, ok, err, ◌>>=◌, ◌>>◌, require,
}
use edge_delta_lab.Prelude.Int.{ℤ, pos, pos_part, eqb_ℤ}
use edge_delta_lab.Lab.Manifest.{Chunk, Manifest, Platform}

-- `s + t`
abbrev pub join : String → String → String
join String.[] t = t
join (String.◌∷◌ c s) t = String.◌∷◌ c (join s t)

-- `s[:2]` of a text of at least two characters
unfoldable pub first_two : String → String
first_two (String.◌∷◌ a (String.◌∷◌ b s)) = String.◌∷◌ a (String.◌∷◌ b String.[])
first_two s = s

unfoldable pub blob_rel : Chunk → String
unfolding first_two
blob_rel c =
    join "chunks/" (join (first_two c.encoded_sha256) (join "/" (join c.encoded_sha256 ".gz")))

-- The path below the state directory.
unfoldable pub cache_path : Chunk → String
unfolding first_two
cache_path c = join "cache/" (join (first_two c.sha256) (join "/" c.sha256))

-- `Unique`: the first descriptor of each content, in order.
unfoldable pub contains : String → List String → Bool
contains sha [] = false
contains sha (s ∷ seen) = str_eq s sha || contains sha seen

unfoldable pub unique_from : List String → List Chunk → List Chunk
unique_from seen [] = []
unique_from seen (c ∷ cs) =
    let again = unique_from seen cs in
    let fresh = c ∷ unique_from (c.sha256 ∷ seen) cs in
    if contains c.sha256 seen then again else fresh

unfoldable pub unique : Manifest → List Chunk
unfolding unique_from contains
unique m = unique_from [] m.chunks

module _ (os : Platform) where
  unfoldable pub encode : List ℕ → Result (List ℕ)
  encode raw = os.gzip raw

  -- The bytes have this size and this digest.
  unfoldable pub is_intact : List ℕ → ℤ → String → Bool
  is_intact bytes size sha256 = eqb_ℤ (pos (length bytes)) size && str_eq (os.hash bytes) sha256

  unfoldable pub decode : List ℕ → Chunk → Result (List ℕ)
  decode encoded c = do
    require (is_intact encoded c.encoded_size c.encoded_sha256) "encoded chunk integrity failure"
    raw ← os.gunzip (pos_part c.size + 1) encoded
    require (is_intact raw c.size c.sha256) "raw chunk integrity failure"
    ok raw

  -- The descriptor that `Publish` writes for a chunk.
  unfoldable pub describe : List ℕ → List ℕ → Chunk
  describe raw encoded = record {
    sha256 = os.hash raw;
    size = pos (length raw);
    encoded_sha256 = os.hash encoded;
    encoded_size = pos (length encoded);
  }
