-- ===== src/Lab/Loaded.antt =====
-- The proof of a loaded image in internal/lab/agent.go: `verifyLoadedConfigIdentity`, `loadReportRefs` and
-- `savedConfigID`. What Docker, regexp, JSON and SHA-256 do is the record `Docker`; an archive that was
-- saved is the sequence of what the tar reader gives for it, and making the directory for it is a part of
-- saving it.
pub mod Identity
use Prim.Native.Char.{code}
use edge_delta_lab.Prelude.{
  ℕ, ◌*◌, String, Bool, true, false, not, ◌||◌, Option, none, some, List, [], ◌∷◌, ◌++◌, map,
  if◌then◌else◌, str_eq, length, take, ltb, ◌==◌, Result, ok, err, ◌>>=◌, ◌>>◌, require,
}
use edge_delta_lab.Prelude.Int.{ℤ, pos, ltb_ℤ}
use edge_delta_lab.Lab.Manifest.{hex_digest}
use edge_delta_lab.Lab.Object.{join, contains}

pub record Member : Type 0 where
  pub name : String
  pub regular : Bool
  pub size : ℤ
  pub content : Result (List ℕ)

-- What `tar.Reader.Next` gives, one call after the other
pub data Archive : Type 0 where
  eof : Archive
  broken : String → Archive
  entry : Member → Archive → Archive

pub record Docker : Type 0 where
  -- the submatches of `Loaded image: (\S+)` and of `Loaded image ID: (\S+)`
  pub images : String → List String
  pub ids : String → List String
  -- `docker image save`
  pub save : String → Result Archive
  -- the `Config` fields of a manifest.json
  pub unmarshal_configs : List ℕ → Result (List String)
  pub hash : List ℕ → String
  pub trim_space : String → String

-- `strings.TrimPrefix(id, "sha256:")`
unfoldable pub trim_sha256 : String → String
trim_sha256 s = trimmed "sha256:" s
  where
    trimmed : String → String → String
    trimmed String.[] rest = rest
    trimmed (String.◌∷◌ c p) String.[] = s
    trimmed (String.◌∷◌ c p) (String.◌∷◌ d rest) =
        let next = trimmed p rest in if code c == code d then next else s

unfoldable pub digests_only : List String → List String
unfolding trim_sha256
digests_only [] = []
digests_only (id ∷ ids) =
    let rest = digests_only ids in if hex_digest (trim_sha256 id) then id ∷ rest else rest

unfoldable pub load_report_refs : Docker → String → List String
unfolding digests_only
load_report_refs d report = d.images report ++ digests_only (d.ids report)

-- The text after the last '/', and whether there is one
unfoldable pub after_slash : String → String × Bool
after_slash String.[] = (String.[], false)
after_slash (String.◌∷◌ c s) =
    let (rest, found) = after_slash s in
    if found
    then (rest, true)
    else if code c == 47
    then (rest, true)
    else (String.◌∷◌ c rest, false)

-- `member`
unfoldable pub member : String → ℕ → Archive → Result (List ℕ)
member name limit eof = err "saved archive lacks member"
member name limit (broken e) = err e
member name limit (entry m rest) =
    let later = member name limit rest in
    if not (str_eq m.name name) || not m.regular || ltb_ℤ (pos limit) m.size
    then later
    else m.content >>= λ b. ok (take limit b)

abbrev pub max_member : ℕ
max_member = 4194304

unfoldable pub only_config : List String → Result String
only_config [] = err "saved archive must describe exactly one image"
only_config (c ∷ []) = ok c
only_config (c ∷ d ∷ cs) = err "saved archive must describe exactly one image"

unfoldable pub saved_config_id : Docker → Archive → Result String
unfolding member only_config after_slash
saved_config_id d a = member "manifest.json" max_member a >>= λ b.
    d.unmarshal_configs b >>= λ configs. only_config configs >>= λ config.
    require (hex_digest (after_slash config).0) "saved config path is not a content digest"
    >> (member config max_member a >>= λ raw. ok (join "sha256:" (d.hash raw)))

-- The identity of the image that the store keeps for a reference
unfoldable pub stored_id : Docker → String → Result String
unfolding saved_config_id
stored_id d ref = d.save ref >>= λ a. saved_config_id d a

-- The loop over the references, with the covered identities as its result
unfoldable pub check_refs : Docker → List String → List String → Result (List String)
unfolding stored_id
check_refs d signed [] = ok []
check_refs d signed (ref ∷ refs) =
    let rest = check_refs d signed refs in
    stored_id d ref >>= λ id.
    require (contains id signed) "stored config is not a signed image ID"
    >> (rest >>= λ covered. ok (id ∷ covered))

unfoldable pub all_covered : List String → List String → Result (Unit {0})
all_covered covered [] = ok tt
all_covered covered (id ∷ ids) =
    require (contains id covered) "load report and store never accounted for signed image ID"
    >> all_covered covered ids

unfoldable pub verify_loaded : Docker → String → List String → Result (Unit {0})
unfolding load_report_refs check_refs all_covered
verify_loaded d report image_ids =
    let refs = load_report_refs d report in
    let signed = map d.trim_space image_ids in
    require (not (length refs == 0))
      "docker load report names no loaded image; cannot prove stored identity"
    >> (check_refs d signed refs >>= λ covered. all_covered covered signed)
