-- ===== src/Lab/Manifest.antt =====
-- internal/lab/format.go: the release manifest, and the two patterns that names must match.
-- A text is the native `String`; a pattern reads its code points. Go's int and int64 are ℤ with
-- the wrap-around written out where the code adds; uint64 is ℕ.
use Prim.Native.Char.{code}
use edge_delta_lab.Prelude.{
  ℕ, ◌*◌, ◌^◌, String, Bool, true, false, ◌&&◌, ◌||◌, ◌≡◌, List, [], ◌∷◌, arith, leb, ◌==◌, str_eq,
  length, eq_iff, Result,
}
use edge_delta_lab.Prelude.Int.{ℤ, eqb_ℤ, eqb_ℤ→eq}

-- The code points of a text.
abbrev pub codes : String → List ℕ
codes String.[] = []
codes (String.◌∷◌ c s) = code c ∷ codes s

abbrev pub within : ℕ → ℕ → ℕ → Bool
within lo hi c = leb lo c && leb c hi

abbrev pub is_alphanumeric : ℕ → Bool
is_alphanumeric c = within b'A' b'Z' c || within b'a' b'z' c || within b'0' b'9' c

unfoldable pub is_safe : ℕ → Bool
is_safe c = is_alphanumeric c || c == b'_' || c == b'.' || c == b'-'

unfoldable pub is_hex : ℕ → Bool
is_hex c = within b'0' b'9' c || within b'a' b'f' c

unfoldable pub all {ℓ} : {A : Type ℓ} → (A → Bool) → List A → Bool
all p [] = true
all p (x ∷ xs) = p x && all p xs

-- `^[A-Za-z0-9][A-Za-z0-9_.-]{0,100}$` on code points
unfoldable pub safe_codes : List ℕ → Bool
safe_codes [] = false
safe_codes (c ∷ cs) = is_alphanumeric c && leb (length cs) 100 && all is_safe cs

-- `^[0-9a-f]{64}$` on code points
unfoldable pub hex_codes : List ℕ → Bool
hex_codes cs = length cs == 64 && all is_hex cs

unfoldable pub safe_release : String → Bool
safe_release s = safe_codes (codes s)

unfoldable pub hex_digest : String → Bool
hex_digest s = hex_codes (codes s)

abbrev pub format_version : ℕ
format_version = 1

abbrev pub max_manifest_bytes : ℕ
max_manifest_bytes = 32 * 2 ^ 20

abbrev pub max_chunk_bytes : ℕ
max_chunk_bytes = 4 * 2 ^ 20

pub record Chunk : Type 0 where
  pub sha256 : String
  pub size : ℤ
  pub encoded_sha256 : String
  pub encoded_size : ℤ

pub record Manifest : Type 0 where
  pub version : ℤ
  pub release : String
  pub sequence : ℕ
  pub kind : String
  pub artifact_sha256 : String
  pub artifact_size : ℤ
  pub image_ids : List String
  pub source : String
  pub chunker : String
  pub min : ℤ
  pub avg : ℤ
  pub max : ℤ
  pub chunks : List Chunk

pub record Envelope : Type 0 where
  pub payload : String
  pub signature : String

-- Go's `==` on two chunks.
unfoldable pub chunk_eq : Chunk → Chunk → Bool
chunk_eq a b =
    str_eq a.sha256 b.sha256
    && eqb_ℤ a.size b.size
    && str_eq a.encoded_sha256 b.encoded_sha256
    && eqb_ℤ a.encoded_size b.encoded_size

pub chunk_eq→eq : (a b : Chunk) → chunk_eq a b ≡ true → a ≡ b
unfolding chunk_eq
chunk_eq→eq a b h = ground (
  arith,
  eq_iff a.sha256 b.sha256,
  eq_iff a.encoded_sha256 b.encoded_sha256,
  eqb_ℤ→eq a.size b.size,
  eqb_ℤ→eq a.encoded_size b.encoded_size,
)

-- What the code takes from Go's library: SHA-256 in hex, JSON, base64, Ed25519 and gzip. A byte
-- string is a list of numbers. Each function that can fail returns its error.
pub record Platform : Type 0 where
  pub hash : List ℕ → String
  pub unmarshal_envelope : List ℕ → Result Envelope
  pub unmarshal_manifest : List ℕ → Result Manifest
  pub marshal_envelope : Envelope → List ℕ
  pub marshal_manifest : Manifest → List ℕ
  pub encode64 : List ℕ → String
  pub decode64 : String → Result (List ℕ)
  pub verify_signature : List ℕ → List ℕ → List ℕ → Bool
  pub sign : List ℕ → List ℕ → List ℕ
  pub public_of : List ℕ → List ℕ
  pub gzip : List ℕ → Result (List ℕ)
  -- The first bytes of the decompressed stream, up to the limit.
  pub gunzip : ℕ → List ℕ → Result (List ℕ)
