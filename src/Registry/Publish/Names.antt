-- ===== src/Registry/Publish/Names.antt =====
-- The release names of internal/registry/publish.go against the names that internal/lab accepts.
use edge_delta_lab.Prelude.{
  ℕ, zero, suc, ◌≤◌, ◌≡◌, refl, sym, Bool, true, List, [], ◌∷◌, ◌++◌, map, arith, ok, length, take,
  length-append,
}
use edge_delta_lab.Lab.Manifest.{
  codes, is_safe, is_hex, is_alphanumeric, all, safe_codes, hex_codes,
}
use edge_delta_lab.Registry.Watcher.{PublishRequest}
use edge_delta_lab.Registry.Publish.{
  Hashes, safe_or_dash, trim_left, trim_right, sanitize, release_name,
}

all-append :
    (p : ℕ → Bool) (xs ys : List ℕ) → all p xs ≡ true → all p ys ≡ true → all p (xs ++ ys) ≡ true
unfolding all
all-append p [] ys h k = k
all-append p (x ∷ xs) ys h k = ground (arith, h, all-append p xs ys)

all-take : (p : ℕ → Bool) (n : ℕ) (xs : List ℕ) → all p xs ≡ true → all p (take n xs) ≡ true
unfolding all
all-take p zero xs h = refl
all-take p (suc n) [] h = refl
all-take p (suc n) (x ∷ xs) h = ground (arith, h, all-take p n xs)

safe-map : (s : List ℕ) → all is_safe (map safe_or_dash s) ≡ true
unfolding all is_safe safe_or_dash
safe-map [] = refl
safe-map (c ∷ cs) = ground (arith, safe-map cs)

safe-trim_left : (s : List ℕ) → all is_safe s ≡ true → all is_safe (trim_left s) ≡ true
unfolding trim_left all
safe-trim_left [] h = refl
safe-trim_left (c ∷ cs) h = ground (arith, h, safe-trim_left cs)

safe-trim_right : (s : List ℕ) → all is_safe s ≡ true → all is_safe (trim_right s) ≡ true
unfolding trim_right all
safe-trim_right [] h = refl
safe-trim_right (c ∷ cs) h = ground (arith, h, safe-trim_right cs)

sanitize-safe : (s : List ℕ) → all is_safe (sanitize s) ≡ true
unfolding sanitize
sanitize-safe s = safe-trim_right _ (safe-trim_left _ (safe-map s))

length-take_le : (n : ℕ) (xs : List ℕ) → length (take n xs) ≤ n
length-take_le zero xs = omega arith
length-take_le (suc n) [] = omega arith
length-take_le (suc n) (x ∷ xs) = omega (arith, length-take_le n xs)

safe-hex : (xs : List ℕ) → all is_hex xs ≡ true → all is_safe xs ≡ true
unfolding all is_safe is_hex
safe-hex [] h = refl
safe-hex (x ∷ xs) h = ground (arith, h, safe-hex xs)

safe-dash : (xs : List ℕ) → all is_safe xs ≡ true → all is_safe (45 ∷ xs) ≡ true
unfolding all is_safe
safe-dash xs h = ground (arith, h)

-- A name of safe characters that is cut at 36 and followed by a dash and an identity of 64.
identified-safe :
    (c : ℕ) (rest identity : List ℕ)
    → is_alphanumeric c ≡ true
    → all is_safe rest ≡ true
    → hex_codes identity ≡ true
    → safe_codes (take 36 (c ∷ rest) ++ 45 ∷ identity) ≡ true
unfolding safe_codes hex_codes
identified-safe c rest identity hc hr hi =
    let len : length identity ≡ 64 = ground (arith, hi) in
    let tail : all is_safe (45 ∷ identity) ≡ true =
      safe-dash identity (safe-hex identity (ground (arith, hi))) in
    let safe : all is_safe (take 35 rest ++ 45 ∷ identity) ≡ true =
      all-append is_safe _ _ (all-take is_safe 35 rest hr) tail in
    ground
      (arith, hc, len, safe, length-append (take 35 rest) (45 ∷ identity), length-take_le 35 rest)

tail-safe : (c : ℕ) (rest : List ℕ) → all is_safe (c ∷ rest) ≡ true → all is_safe rest ≡ true
unfolding all
tail-safe c rest h = ground (arith, h)

-- A request whose digest is well formed gets a release name that the signed format accepts: 101
-- characters at most, all of them allowed, with the identity whole at its end. The text before the
-- cut has to start with a letter or a digit, and the prefix has to have allowed characters.
pub release_name_lem :
    (h : Hashes) (prefix : List ℕ) (req : PublishRequest) (c : ℕ) (rest : List ℕ)
    → h.new_hash (codes req.digest) ≡ true
    → all is_safe prefix ≡ true
    → prefix ++ sanitize (codes req.repo) ++ 45 ∷ sanitize (codes req.tag) ≡ c ∷ rest
    → is_alphanumeric c ≡ true
    → hex_codes (h.sha256 (codes req.repo ++ 0 ∷ codes req.tag ++ 0 ∷ codes req.digest)) ≡ true
    → (n : List ℕ) × (release_name h prefix req ≡ ok n) × (safe_codes n ≡ true)
unfolding release_name
release_name_lem h prefix req c rest hd hp hn hc hi =
    let whole : all is_safe (c ∷ rest) ≡ true = rw (sym hn) (
      all-append is_safe _ _ (all-append is_safe _ _ hp (sanitize-safe (codes req.repo)))
        (safe-dash _ (sanitize-safe (codes req.tag)))) in
    (
      take 36 (c ∷ rest)
          ++ 45 ∷ h.sha256 (codes req.repo ++ 0 ∷ codes req.tag ++ 0 ∷ codes req.digest),
      rw (hd, hn) (ground arith),
      identified-safe c rest _ hc (tail-safe c rest whole) hi,
    )
