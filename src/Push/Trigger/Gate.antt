-- ===== src/Push/Trigger/Gate.antt =====
-- What the spoke's gate of internal/push/trigger.go lets through.
use edge_delta_lab.Prelude.{
  ℕ, ◌^◌, ◌≡◌, ◌↔◌, refl, sym, String, true, false, not, ◌||◌, List, arith, length, ok, str_eq,
  >>=-eq-ok, require, ◌==◌,
}
use edge_delta_lab.Prelude.Int.{ℤ, pos, ◌≤ℤ◌}
use edge_delta_lab.Lab.Manifest.{Manifest, Platform}
use edge_delta_lab.Lab.Verify.{verify}
use edge_delta_lab.Lab.Verify.Exact.{IsSigned, IsRelease, verify_iff}
use edge_delta_lab.Push.Broker.{Announce}
use edge_delta_lab.Push.Trigger.{accept}

module _ (os : Platform) (hash : List ℕ → String) (a : Announce) (pub_key : List ℕ)
    (max_artifact : ℤ) (m : Manifest) where
  -- Why an announcement may be acted on.
  pub record IsAcceptable : Type 0 where
    pub carries : (length a.envelope == 0) ≡ false
    pub claimed : (str_eq a.digest "" || str_eq (hash a.envelope) a.digest) ≡ true
    pub payload : List ℕ
    pub signed : IsSigned os a.envelope pub_key payload
    pub manifest : os.unmarshal_manifest payload ≡ ok m
    pub release : IsRelease m max_artifact

  accept-inv :
      max_artifact ≤ℤ pos (2 ^ 62) → accept os hash a pub_key max_artifact ≡ ok m → IsAcceptable
  unfolding accept
  accept-inv small h =
      let (u, e, h1) = >>=-eq-ok (require (not (length a.envelope == 0)) _) _ h in
      let (v, c, h2) =
        >>=-eq-ok (require (str_eq a.digest "" || str_eq (hash a.envelope) a.digest) _) _ h1 in
      let (r, k, h3) = >>=-eq-ok (verify os a.envelope pub_key max_artifact) _ h2 in
      let same : r.0 ≡ m = ground (arith, h3) in
      let s = (verify_iff os a.envelope pub_key max_artifact r.0 r.1 small).0 k in
      record {
        carries = ground (arith, e);
        claimed = ground (arith, c);
        payload = s.0;
        signed = s.1;
        manifest = rw (sym same) s.2;
        release = rw (sym same) s.4;
      }

  -- The gate lets a manifest through exactly where the envelope is there, its hash is the claimed
  -- one if one is claimed, and it is a valid release signed by the pinned key. The kind, release and
  -- sequence that the announcement claims play no part.
  pub accept_iff :
      max_artifact ≤ℤ pos (2 ^ 62) → (accept os hash a pub_key max_artifact ≡ ok m) ↔ IsAcceptable
  unfolding accept
  accept_iff small = (
    accept-inv small,
    λ r.
        let verified =
          (verify_iff os a.envelope pub_key max_artifact m (os.hash r.payload) small).1
            (r.payload, r.signed, r.manifest, refl, r.release) in
        rw (r.carries, r.claimed, verified) refl,
  )
