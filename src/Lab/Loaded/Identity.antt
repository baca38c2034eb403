-- ===== src/Lab/Loaded/Identity.antt =====
-- What the proof of a loaded image in internal/lab/agent.go comes to.
use edge_delta_lab.Prelude.{
  ◌≡◌, ◌↔◌, refl, sym, ◌∙◌, String, Bool, true, false, not, List, [], ◌∷◌, map, length, str_eq,
  eq_iff, eq_refl, ◌==◌, ok, ok-inv, require, >>=-eq-ok, Bool-cases, arith, All, All-at, Has, here,
  there, inl, inr,
}
use edge_delta_lab.Lab.Object.{contains}
use edge_delta_lab.Lab.Loaded.{
  Docker, load_report_refs, stored_id, check_refs, all_covered, verify_loaded,
}

require-ok : (b : Bool) (e : String) → require b e ≡ ok tt → b ≡ true
require-ok true e h = refl
require-ok false e h = cc

contains-Has : (id : String) (ids : List String) → contains id ids ≡ true → Has id ids
unfolding contains
contains-Has id [] h = ground (arith, h)
contains-Has id (i ∷ ids) h = elim (Bool-cases (str_eq i id)) [
  | inl e ↦ let same = (eq_iff i id).0 e in rw same here
  | inr e ↦ there (contains-Has id ids (ground (arith, h, e)))
]

Has-contains : (id : String) (ids : List String) → Has id ids → contains id ids ≡ true
unfolding contains
Has-contains id (i ∷ ids) here = rw eq_refl refl
Has-contains id (i ∷ ids) (there m) = ground (arith, Has-contains id ids m)
Has-contains id [] m = elim m [ ]

-- The image that is stored for a reference is one of the signed ones.
abbrev pub IsSigned : Docker → List String → String → Type 0
IsSigned d signed ref = (id : String) × (stored_id d ref ≡ ok id) × Has id signed

-- The identity is the one stored for some reference of the report.
abbrev pub IsStored : Docker → List String → String → Type 0
IsStored d refs id = (ref : String) × Has ref refs × (stored_id d ref ≡ ok id)

module _ (d : Docker) (signed : List String) where
  check_refs-inv :
      (refs covered : List String)
      → check_refs d signed refs ≡ ok covered
      → All (IsSigned d signed) refs × All (IsStored d refs) covered
  unfolding check_refs
  check_refs-inv [] covered h = let e : [] ≡ covered = ok-inv h in (tt, rw⁻¹ e tt)
  check_refs-inv (ref ∷ refs) covered h =
      let (id, stored, h1) = >>=-eq-ok (stored_id d ref) _ h in
      let (u, known, h2) =
        >>=-eq-ok (require (contains id signed) "stored config is not a signed image ID") _ h1 in
      let (rest, later, h3) = >>=-eq-ok (check_refs d signed refs) _ h2 in
      let ih = check_refs-inv refs rest later in
      let e : id ∷ rest ≡ covered = ok-inv h3 in
      (
        ((id, stored, contains-Has id signed (require-ok _ _ known)), ih.0),
        rw⁻¹ e ((ref, here, stored), widen rest ih.1),
      )
    where
      widen : (ids : List String) → All (IsStored d refs) ids → All (IsStored d (ref ∷ refs)) ids
      widen [] a = tt
      widen (i ∷ ids) a = ((a.0.0, there a.0.1, a.0.2), widen ids a.1)

all_covered-inv :
    (covered ids : List String) → all_covered covered ids ≡ ok tt → All (λ id. Has id covered) ids
unfolding all_covered
all_covered-inv covered [] h = tt
all_covered-inv covered (id ∷ ids) h =
    let (u, known, rest) = >>=-eq-ok (require (contains id covered) _) _ h in
    (contains-Has id covered (require-ok _ _ known), all_covered-inv covered ids rest)

module _ (d : Docker) (signed : List String) where
  check_refs-intro :
      (refs : List String)
      → All (IsSigned d signed) refs
      → (covered : List String) × (check_refs d signed refs ≡ ok covered)
        × ((ref id : String) → Has ref refs → stored_id d ref ≡ ok id → Has id covered)
  unfolding check_refs
  check_refs-intro [] a = ([], refl, λ ref id m e. elim m [ ])
  check_refs-intro (ref ∷ refs) a =
      let (id, stored, known) = a.0 in
      let (rest, later, all_in) = check_refs-intro refs a.1 in
      (
        id ∷ rest,
        rw (stored, check_refs) (rw (Has-contains id signed known, later) refl),
        λ r i m e. found id rest r i m e stored all_in,
      )
    where
      found :
          (id : String) (rest : List String) (r i : String)
          → Has r (ref ∷ refs)
          → stored_id d r ≡ ok i
          → stored_id d ref ≡ ok id
          → ((r i : String) → Has r refs → stored_id d r ≡ ok i → Has i rest)
          → Has i (id ∷ rest)
      found id rest r i here e stored all_in =
          let same : id ≡ i = ok-inv (sym stored ∙ e) in rw same here
      found id rest r i (there m) e stored all_in = there (all_in r i m e)

all_covered-intro :
    (covered ids : List String) → All (λ id. Has id covered) ids → all_covered covered ids ≡ ok tt
unfolding all_covered
all_covered-intro covered [] a = refl
all_covered-intro covered (id ∷ ids) a =
    rw (Has-contains id covered a.0, all_covered) (all_covered-intro covered ids a.1)

-- What it means that an image is proved to be loaded, for its references and the signed identities.
abbrev pub IsProven : Docker → List String → List String → Type 0
IsProven d refs signed =
    ((length refs == 0) ≡ false) × All (IsSigned d signed) refs × All (IsStored d refs) signed

-- The proof of a loaded image succeeds exactly when the daemon reported some reference, the image that is
-- stored for each of them is one of the signed ones, and each signed one is stored for one of them.
pub verify_loaded_iff :
    (d : Docker) (report : String) (image_ids : List String)
    → (verify_loaded d report image_ids ≡ ok tt)
      ↔ IsProven d (load_report_refs d report) (map d.trim_space image_ids)
unfolding verify_loaded
verify_loaded_iff d report image_ids = (inward, outward)
  where
    refs : List String
    refs = load_report_refs d report

    signed : List String
    signed = map d.trim_space image_ids

    stored_all :
        (covered ids : List String)
        → All (IsStored d refs) covered
        → All (λ id. Has id covered) ids
        → All (IsStored d refs) ids
    stored_all covered [] c a = tt
    stored_all covered (id ∷ ids) c a =
        (All-at (IsStored d refs) covered c a.0, stored_all covered ids c a.1)

    inward : verify_loaded d report image_ids ≡ ok tt → IsProven d refs signed
    inward h =
        let (u, some_ref, h1) = >>=-eq-ok (require (not (length refs == 0)) _) _ h in
        let (covered, checked, h2) = >>=-eq-ok (check_refs d signed refs) _ h1 in
        let c = check_refs-inv d signed refs covered checked in
        let named = require-ok (not (length refs == 0)) _ some_ref in
        (
          ground (arith, named),
          c.0,
          stored_all covered signed c.1 (all_covered-inv covered signed h2),
        )

    covered_all :
        (covered ids : List String)
        → ((ref id : String) → Has ref refs → stored_id d ref ≡ ok id → Has id covered)
        → All (IsStored d refs) ids
        → All (λ id. Has id covered) ids
    covered_all covered [] h a = tt
    covered_all covered (id ∷ ids) h a = (h a.0.0 id a.0.1 a.0.2, covered_all covered ids h a.1)

    outward : IsProven d refs signed → verify_loaded d report image_ids ≡ ok tt
    outward p =
        let (covered, checked, all_in) = check_refs-intro d signed refs p.1 in
        rw (p.0, checked) (all_covered-intro covered signed (covered_all covered signed all_in p.2))
