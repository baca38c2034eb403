-- ===== src/Lab/Server/Routes.antt =====
-- The first part of `ServeHTTP` in internal/lab/server.go: what a path asks for. A path is valid
-- UTF-8 here.
use Prim.Native.Char.{code}
use edge_delta_lab.Prelude.{
  ℕ, String, Bool, false, not, ◌&&◌, ◌||◌, Option, none, some, List, [], ◌∷◌, if◌then◌else◌, ◌+◌,
  ltb, ◌==◌, str_eq,
}
use edge_delta_lab.Lab.Manifest.{codes, safe_codes, hex_codes}
use edge_delta_lab.Lab.Verify.{codes_eq}

-- `strings.TrimPrefix(path, "/")`
unfoldable pub trim_slash : String → String
trim_slash String.[] = String.[]
trim_slash (String.◌∷◌ c s) = if code c == 47 then s else String.◌∷◌ c s

-- `strings.Split(s, "/")`: the first part, and the others
unfoldable pub split_from : List ℕ → List ℕ × List (List ℕ)
split_from [] = ([], [])
split_from (c ∷ cs) =
    let (first, rest) = split_from cs in if c == 47 then ([], first ∷ rest) else (c ∷ first, rest)

unfoldable pub split : List ℕ → List (List ℕ)
unfolding split_from
split cs = let (first, rest) = split_from cs in first ∷ rest

-- `strings.TrimSuffix`, where `strings.HasSuffix` holds
unfoldable pub cut_suffix : List ℕ → List ℕ → Option (List ℕ)
cut_suffix suffix [] = if codes_eq [] suffix then some [] else none
cut_suffix suffix (c ∷ cs) =
    let rest = cut_suffix suffix cs in if codes_eq (c ∷ cs) suffix then some [] else prefixed rest c
  where
    prefixed : Option (List ℕ) → ℕ → Option (List ℕ)
    prefixed none c = none
    prefixed (some stem) c = some (c ∷ stem)

unfoldable pub stem_is : (List ℕ → Bool) → Option (List ℕ) → Bool
stem_is p none = false
stem_is p (some stem) = p stem

-- The bytes of a character in UTF-8; `len` counts these.
unfoldable pub byte_length : List ℕ → ℕ
byte_length [] = 0
byte_length (c ∷ cs) =
    let rest = byte_length cs in
    if ltb c 128
    then 1 + rest
    else if ltb c 2048
    then 2 + rest
    else if ltb c 65536
    then 3 + rest
    else 4 + rest

unfoldable pub is_chunk : List (List ℕ) → Bool
unfolding cut_suffix stem_is byte_length
is_chunk (dir ∷ sub ∷ name ∷ []) =
    codes_eq dir (codes "chunks")
    && byte_length sub == 2
    && stem_is hex_codes (cut_suffix (codes ".gz") name)
is_chunk parts = false

unfoldable pub is_meta : List (List ℕ) → Bool
unfolding cut_suffix stem_is
is_meta (dir ∷ name ∷ []) =
    codes_eq dir (codes "releases") && stem_is safe_codes (cut_suffix (codes ".json") name)
is_meta parts = false

pub data Route : Type 0 where
  receipts : Route
  healthz : Route
  stats : Route
  metrics : Route
  get_required : Route
  events : Route
  object : String → Bool → Route
  not_found : Route

-- The first part of `ServeHTTP`
unfoldable pub route : Bool → Bool → String → Route
unfolding trim_slash split is_chunk is_meta
route is_get has_events path =
    let rel = trim_slash path in
    let parts = split (codes rel) in
    if str_eq path "/receipts"
    then receipts
    else if str_eq path "/healthz"
    then healthz
    else if str_eq path "/stats"
    then stats
    else if str_eq path "/metrics"
    then metrics
    else if not is_get
    then get_required
    else if str_eq rel "events" && has_events
    then events
    else if is_chunk parts || is_meta parts
    then object rel (is_chunk parts)
    else not_found
