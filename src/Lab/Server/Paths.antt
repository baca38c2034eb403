-- ===== src/Lab/Server/Paths.antt =====
-- Which files internal/lab/server.go opens for a path.
use edge_delta_lab.Prelude.{
  ℕ, ◌≤◌, ◌≡◌, ◌≢◌, ◌⊎◌, inl, inr, refl, ap, String, Bool, true, false, not, ◌&&◌, ◌||◌, Option,
  none, some, List, [], ◌∷◌, ◌++◌, if◌then◌else◌, length, length-append, arith, Bool-cases,
  Option-cases, str_eq,
}
use edge_delta_lab.Lab.Manifest.{codes, safe_codes, hex_codes}
use edge_delta_lab.Lab.Verify.{codes_eq, codes_eq→eq}
use edge_delta_lab.Lab.Server.Routes.{
  split, cut_suffix, stem_is, is_chunk, is_meta, Route, object, route, trim_slash, receipts,
  healthz, stats, metrics, get_required, events, not_found,
}

up_from : (List (List ℕ) → Option (List (List ℕ))) → List (List ℕ) → Option (List (List ℕ))
up_from next [] = none
up_from next (d ∷ ds) = next ds

-- Where a relative path leads from the directory whose names are `above`, the last one first; `none`
-- where it leaves the root.
unfoldable pub walk : List (List ℕ) → List (List ℕ) → Option (List (List ℕ))
unfolding up_from
walk [] above = some above
walk (p ∷ ps) above =
    if codes_eq p [] || codes_eq p (codes ".")
    then walk ps above
    else if codes_eq p (codes "..")
    then up_from (λ ds. walk ps ds) above
    else walk ps (p ∷ above)

some-inv : {a b : List ℕ} → some a ≡ some b → a ≡ b
some-inv q = cc

cut_suffix-append :
    (suffix name stem : List ℕ) → cut_suffix suffix name ≡ some stem → name ≡ stem ++ suffix
unfolding cut_suffix
cut_suffix-append suffix [] stem h = elim (Bool-cases (codes_eq [] suffix)) [
  | inl e ↦ rw⁻¹ (some-inv (rw (e, cut_suffix) at h)) (codes_eq→eq [] suffix e)
  | inr e ↦ let h' = rw (e, cut_suffix) at h in ground (arith, h')
]
cut_suffix-append suffix (c ∷ cs) stem h = elim (Bool-cases (codes_eq (c ∷ cs) suffix)) [
  | inl e ↦ rw⁻¹ (some-inv (rw (e, cut_suffix) at h)) (codes_eq→eq (c ∷ cs) suffix e)
  | inr e ↦
      let h' = rw (e, cut_suffix) at h in
      elim (Option-cases (cut_suffix suffix cs)) [
        | inl none_e ↦ let q = rw (none_e, cut_suffix) at h' in ground (arith, q)
        | inr (st, some_e) ↦
            rw⁻¹ (some-inv (rw (some_e, cut_suffix) at h'))
              (ap (λ x. c ∷ x) (cut_suffix-append suffix cs st some_e))
      ]
]

long_name :
    (p : List ℕ)
    → 3 ≤ length p
    → ((codes_eq p [] || codes_eq p (codes ".")) ≡ false) × (codes_eq p (codes "..") ≡ false)
unfolding codes_eq
long_name [] h = absurd (omega (arith, h))
long_name (a ∷ []) h = absurd (omega (arith, h))
long_name (a ∷ b ∷ []) h = absurd (omega (arith, h))
long_name (a ∷ b ∷ c ∷ p) h = (ground arith, ground arith)

-- The name of a file: a stem that satisfies a test, and the suffix.
abbrev IsNamed : (List ℕ → Bool) → List ℕ → List ℕ → Type 0
IsNamed p suffix name = (stem : List ℕ) × (name ≡ stem ++ suffix) × (p stem ≡ true)

stem_is-IsNamed :
    (p : List ℕ → Bool) (suffix name : List ℕ)
    → stem_is p (cut_suffix suffix name) ≡ true
    → IsNamed p suffix name
unfolding stem_is
stem_is-IsNamed p suffix name h = elim (Option-cases (cut_suffix suffix name)) [
  | inl e ↦ let q = rw e at h in ground (arith, q)
  | inr (stem, e) ↦ (stem, cut_suffix-append suffix name stem e, rw e at h)
]

length-named : (stem suffix : List ℕ) → 3 ≤ length suffix → 3 ≤ length (stem ++ suffix)
length-named stem suffix h = omega (arith, h, length-append stem suffix)

walk-last :
    (name : List ℕ) (above : List (List ℕ))
    → 3 ≤ length name
    → walk (name ∷ []) above ≡ some (name ∷ above)
unfolding walk
walk-last name above h = let (a, b) = long_name name h in rw (a, b) refl

walk-chunk :
    (sub name : List ℕ)
    → 3 ≤ length name
    → (above : List (List ℕ)) × (walk (codes "chunks" ∷ sub ∷ name ∷ []) [] ≡ some (name ∷ above))
unfolding walk up_from codes_eq
walk-chunk sub name h = elim (Bool-cases (codes_eq sub [] || codes_eq sub (codes "."))) [
  | inl e ↦ (codes "chunks" ∷ [], rw e (walk-last name (codes "chunks" ∷ []) h))
  | inr e ↦ elim (Bool-cases (codes_eq sub (codes ".."))) [
    | inl f ↦ ([], rw (e, f) (walk-last name [] h))
    | inr f ↦ (sub ∷ codes "chunks" ∷ [], rw (e, f) (walk-last name (sub ∷ codes "chunks" ∷ []) h))
  ]
]

-- Where `parts` lead to a file that a test and a suffix name.
abbrev pub Leads : (List ℕ → Bool) → List ℕ → List (List ℕ) → Type 0
Leads p suffix parts =
    (stem : List ℕ) × (above : List (List ℕ)) × (walk parts [] ≡ some ((stem ++ suffix) ∷ above))
    × (p stem ≡ true)

is_chunk-Leads :
    (parts : List (List ℕ)) → is_chunk parts ≡ true → Leads hex_codes (codes ".gz") parts
unfolding is_chunk
is_chunk-Leads (dir ∷ sub ∷ name ∷ []) h =
    let dir_e = codes_eq→eq dir (codes "chunks") (ground (arith, h)) in
    let (stem, name_e, hex) = stem_is-IsNamed hex_codes (codes ".gz") name (ground (arith, h)) in
    let (above, w) =
      walk-chunk sub (stem ++ codes ".gz") (length-named stem (codes ".gz") (omega arith)) in
    (stem, above, rw (dir_e, name_e) w, hex)
is_chunk-Leads [] h = ground (arith, h)
is_chunk-Leads (dir ∷ []) h = ground (arith, h)
is_chunk-Leads (dir ∷ sub ∷ []) h = ground (arith, h)
is_chunk-Leads (dir ∷ sub ∷ name ∷ more ∷ parts) h = ground (arith, h)

is_meta-Leads :
    (parts : List (List ℕ)) → is_meta parts ≡ true → Leads safe_codes (codes ".json") parts
unfolding is_meta walk codes_eq
is_meta-Leads (dir ∷ name ∷ []) h =
    let dir_e = codes_eq→eq dir (codes "releases") (ground (arith, h)) in
    let (stem, name_e, safe) =
      stem_is-IsNamed safe_codes (codes ".json") name (ground (arith, h)) in
    (
      stem,
      codes "releases" ∷ [],
      rw (dir_e, name_e)
          (walk-last (stem ++ codes ".json") (codes "releases" ∷ [])
            (length-named stem (codes ".json") (omega arith))),
      safe,
    )
is_meta-Leads [] h = ground (arith, h)
is_meta-Leads (dir ∷ []) h = ground (arith, h)
is_meta-Leads (dir ∷ name ∷ more ∷ parts) h = ground (arith, h)

skip :
    (b : Bool) (r s : Route) {rel : String} {chunk : Bool}
    → r ≢ object rel chunk
    → (if b then r else s) ≡ object rel chunk
    → s ≡ object rel chunk
skip true r s ne h = absurd (ne h)
skip false r s ne h = h

-- A request for an object leads to a file under the root, whatever its path is, and the file is named by
-- a digest where it counts as a chunk and by a safe release name otherwise.
pub route_lem :
    (is_get has_events : Bool) (path rel : String) (chunk : Bool)
    → route is_get has_events path ≡ object rel chunk
    → (rel ≡ trim_slash path)
      × (((chunk ≡ true) × Leads hex_codes (codes ".gz") (split (codes rel)))
          ⊎ ((chunk ≡ false) × Leads safe_codes (codes ".json") (split (codes rel))))
unfolding route
route_lem is_get has_events path rel chunk h =
    let h1 = skip (str_eq path "/receipts") receipts _ (λ q. ground (arith, q)) h in
    let h2 = skip (str_eq path "/healthz") healthz _ (λ q. ground (arith, q)) h1 in
    let h3 = skip (str_eq path "/stats") stats _ (λ q. ground (arith, q)) h2 in
    let h4 = skip (str_eq path "/metrics") metrics _ (λ q. ground (arith, q)) h3 in
    let h5 = skip (not is_get) get_required _ (λ q. ground (arith, q)) h4 in
    let h6 =
      skip (str_eq (trim_slash path) "events" && has_events) events _ (λ q. ground (arith, q)) h5 in
    found (is_chunk (split (codes (trim_slash path)))) (is_meta (split (codes (trim_slash path))))
      refl refl h6
  where
    found :
        (c m : Bool)
        → is_chunk (split (codes (trim_slash path))) ≡ c
        → is_meta (split (codes (trim_slash path))) ≡ m
        → (if c || m then object (trim_slash path) c else not_found) ≡ object rel chunk
        → (rel ≡ trim_slash path)
          × (((chunk ≡ true) × Leads hex_codes (codes ".gz") (split (codes rel)))
              ⊎ ((chunk ≡ false) × Leads safe_codes (codes ".json") (split (codes rel))))
    found true m ec em q =
        let rel_e : rel ≡ trim_slash path = cc in
        let chunk_e : chunk ≡ true = cc in
        (rel_e, inl (chunk_e, rw rel_e (is_chunk-Leads (split (codes (trim_slash path))) ec)))
    found false true ec em q =
        let rel_e : rel ≡ trim_slash path = cc in
        let chunk_e : chunk ≡ false = cc in
        (rel_e, inr (chunk_e, rw rel_e (is_meta-Leads (split (codes (trim_slash path))) em)))
    found false false ec em q = ground (arith, q)
