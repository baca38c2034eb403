-- ===== src/Registry/Client/Pages.antt =====
-- The calls of internal/registry/client.go: their requests, their number and the end of `Tags`.
use edge_delta_lab.Prelude.{
  ℕ, zero, suc, ◌+◌, ◌*◌, ◌≤◌, ◌∙◌, String, ◌||◌, none, some, List, [], ◌∷◌, ◌++◌, length, All,
  arith, if-elim,
}
use edge_delta_lab.Prelude.Int.{pos, leb_ℤ, ltb_ℤ}
use edge_delta_lab.Lab.Object.{join}
use edge_delta_lab.Registry.Client.Base.{Request, Net, Client, Session, Run}
use edge_delta_lab.Registry.Client.Requests.{credentials, send}
use edge_delta_lab.Registry.Client.Calls.{
  do_request, ping_answer, ping, tags_path, decode_page, last_of, tags_from, tags,
  manifest_media_types, manifest_digest, blob,
}
use edge_delta_lab.Registry.Client.Confined.{
  IsSound, IsConfined, Grows, Grows-give, Grows-bind, Grows-give_bind, send-Grows,
  credentials-IsFor, at_base, do_request-Grows,
}

module _ (net : Net) (sound : IsSound net) (c : Client) where
  ping-Grows : Grows (IsConfined net c.base) 10 (ping net c)
  unfolding ping
  ping-Grows = Grows-give_bind (IsConfined net c.base) (net.extend c.base "/v2/") _ 10 (λ u e.
      let req : Request = record { url = u; accept = none; authorization = credentials c } in
      let o = at_base net sound c u "/v2/" e in
      Grows-bind (IsConfined net c.base) (send net req) _ 10 0
        (send-Grows net sound c.base req (λ b. o.0 ∙ b, credentials-IsFor net sound c u))
        (λ r. Grows-give (IsConfined net c.base) (ping_answer net r)))

  tags_from-Grows :
      (n : ℕ) (repo last : String) (out : List String)
      → Grows (IsConfined net c.base) (30 * n) (tags_from n net c repo last out)
  unfolding tags_from
  tags_from-Grows zero repo last out s = (omega arith, λ q. q)
  tags_from-Grows (suc n) repo last out s =
      let page =
        Grows-bind (IsConfined net c.base) (do_request net c (tags_path net c repo last) none) _ 30
          (30 * n) (do_request-Grows net sound c (tags_path net c repo last) none)
          (λ r.
            Grows-give_bind (IsConfined net c.base) (decode_page net r) _ (30 * n)
              (λ (ts : List String) e.
                if-elim {A = Run (List String)} (Grows (IsConfined net c.base) (30 * n))
                  (leb_ℤ c.limit (pos 0) || ltb_ℤ (pos (length ts)) c.limit)
                  (λ f s'. (omega arith, λ q. q))
                  (λ f. tags_from-Grows n repo (last_of last ts) (out ++ ts))))
          s in
      (omega (arith, page.0), page.1)

  manifest_digest-Grows :
      (repo ref : String) → Grows (IsConfined net c.base) 30 (manifest_digest net c repo ref)
  unfolding manifest_digest
  manifest_digest-Grows repo ref =
      Grows-bind (IsConfined net c.base)
        (do_request net c (join repo (join "/manifests/" ref)) (some manifest_media_types)) _ 30 0
        (do_request-Grows net sound c (join repo (join "/manifests/" ref))
          (some manifest_media_types))
        (λ r s. (omega arith, λ q. q))

  blob-Grows : (repo digest : String) → Grows (IsConfined net c.base) 30 (blob net c repo digest)
  unfolding blob
  blob-Grows repo digest =
      Grows-bind (IsConfined net c.base) (do_request net c (join repo (join "/blobs/" digest)) none)
        _ 30 0 (do_request-Grows net sound c (join repo (join "/blobs/" digest)) none)
        (λ r s. (omega arith, λ q. q))

-- A call of one of the client's operations.
pub data Call : Type 0 where
  ping_call : Call
  tags_call : String → Call
  manifest_call : String → String → Call
  blob_call : String → String → Call

unfoldable pub run_call : Net → Client → Call → Session → Session
run_call net c ping_call s = (ping net c s).0
run_call net c (tags_call repo) s = (tags net c repo s).0
run_call net c (manifest_call repo ref) s = (manifest_digest net c repo ref s).0
run_call net c (blob_call repo digest) s = (blob net c repo digest s).0

unfoldable pub run_calls : Net → Client → List Call → Session → Session
unfolding run_call
run_calls net c [] s = s
run_calls net c (call ∷ calls) s = run_calls net c calls (run_call net c call s)

abbrev pub new_session : Session
new_session = record { tok = []; log = [] }

-- `Tags` returns after at most 10 001 pages, whatever the registry answers to them: it sends no more than 30
-- requests for each, which are two times the page and a token with up to ten redirects.
pub tags_lem :
    (net : Net)
    → IsSound net
    → (c : Client) (repo : String) (s : Session)
    → length (tags net c repo s).0.log ≤ length s.log + 30 * 10001
unfolding tags
tags_lem net sound c repo s = (tags_from-Grows net sound c 10001 repo "" [] s).0

run_call-IsConfined :
    (net : Net)
    → IsSound net
    → (c : Client) (call : Call) (s : Session) → All (IsConfined net c.base) s.log
    → All (IsConfined net c.base) (run_call net c call s).log
unfolding run_call tags
run_call-IsConfined net sound c ping_call s h = (ping-Grows net sound c s).1 h
run_call-IsConfined net sound c (tags_call repo) s h =
    (tags_from-Grows net sound c 10001 repo "" [] s).1 h
run_call-IsConfined net sound c (manifest_call repo ref) s h =
    (manifest_digest-Grows net sound c repo ref s).1 h
run_call-IsConfined net sound c (blob_call repo digest) s h =
    (blob-Grows net sound c repo digest s).1 h

run_calls-IsConfined :
    (net : Net)
    → IsSound net
    → (c : Client) (calls : List Call) (s : Session) → All (IsConfined net c.base) s.log
    → All (IsConfined net c.base) (run_calls net c calls s).log
unfolding run_calls
run_calls-IsConfined net sound c [] s h = h
run_calls-IsConfined net sound c (call ∷ calls) s h =
    run_calls-IsConfined net sound c calls (run_call net c call s)
      (run_call-IsConfined net sound c call s h)

-- Whatever the registry and the token servers answer, their redirects and challenges included, and
-- whichever operations are called: each request that the client sends carries a token only to the origin of
-- its registry, and goes out over https where the registry was named with https.
pub run_calls_lem :
    (net : Net)
    → IsSound net
    → (c : Client) (calls : List Call)
    → All (IsConfined net c.base) (run_calls net c calls new_session).log
run_calls_lem net sound c calls = run_calls-IsConfined net sound c calls new_session tt
