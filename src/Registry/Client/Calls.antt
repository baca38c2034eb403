-- ===== src/Registry/Client/Calls.antt =====
-- `do` and the calls of internal/registry/client.go, and `RoundTrip` of auth_transport.go.
use edge_delta_lab.Prelude.{
  ℕ, zero, suc, String, Bool, not, ◌&&◌, ◌||◌, Option, none, some, List, [], ◌∷◌, ◌++◌,
  if◌then◌else◌, length, Result, ok, err, ◌==◌, str_eq,
}
use edge_delta_lab.Prelude.Int.{pos, leb_ℤ, ltb_ℤ}
use edge_delta_lab.Lab.Object.{join}
use edge_delta_lab.Registry.Client.Base.{Url, bearer, Request, Reply, Net, Client, Run, ◌>>=◌, give}
use edge_delta_lab.Registry.Client.Challenges.{Challenge, parse_challenge, scope_for}
use edge_delta_lab.Registry.Client.Requests.{send, token_realm, credentials}
use edge_delta_lab.Registry.Client.Tokens.{read_with, token_for}

-- The second half of `do`, after an answer 401
unfoldable pub retry_with_token : Net → Client → String → Request → Reply → Run Reply
unfolding parse_challenge token_for scope_for send ◌>>=◌
retry_with_token net c rest req r = give (parse_challenge net r.challenge) >>= λ ch.
    token_for net c ch (scope_for rest) >>= λ t. send net (record req { authorization = bearer t })

-- `do`, for the path "/v2/" and `rest`
unfoldable pub do_request : Net → Client → String → Option String → Run Reply
unfolding credentials retry_with_token send ◌>>=◌
do_request net c rest accept = give (net.extend c.base (join "/v2/" rest)) >>= λ u.
    let req : Request = record { url = u; accept = accept; authorization = credentials c } in
    send net req >>= λ r. if r.status == 401 then retry_with_token net c rest req r else give (ok r)

-- Whether a token is needed, and the challenge for it
unfoldable pub ping_answer : Net → Reply → Result (Option Challenge)
unfolding parse_challenge
ping_answer net r =
    if r.status == 200
    then ok none
    else if r.status == 401
    then needed (parse_challenge net r.challenge)
    else err "registry ping"
  where
    needed : Result Challenge → Result (Option Challenge)
    needed (err e) = err "token auth challenge"
    needed (ok ch) = ok (some ch)

unfoldable pub ping : Net → Client → Run (Option Challenge)
unfolding ping_answer credentials send ◌>>=◌
ping net c = give (net.extend c.base "/v2/") >>= λ u.
    send net (record { url = u; accept = none; authorization = credentials c }) >>= λ r.
    give (ping_answer net r)

unfoldable pub page_query : Net → Client → String → List (String × String)
page_query net c last =
    (if ltb_ℤ (pos 0) c.limit then ("n", net.print c.limit) ∷ [] else [])
    ++ (if str_eq last "" then [] else ("last", last) ∷ [])

unfoldable pub tags_path : Net → Client → String → String → String
unfolding page_query
tags_path net c repo last =
    let q = page_query net c last in
    let path = join repo "/tags/list" in
    if length q == 0 then path else join path (join "?" (net.encode q))

unfoldable pub decode_page : Net → Reply → Result (List String)
decode_page net r =
    if not (r.status == 200) then err "tags/list" else read_with net.decode_tags r.body

unfoldable pub last_of : String → List String → String
last_of t [] = t
last_of t (u ∷ ts) = last_of u ts

-- The loop of `Tags`, with the number of pages that are left
unfoldable pub tags_from : ℕ → Net → Client → String → String → List String → Run (List String)
unfolding tags_path do_request decode_page last_of ◌>>=◌
tags_from zero net c repo last out = give (err "pagination did not terminate")
tags_from (suc n) net c repo last out = do_request net c (tags_path net c repo last) none >>= λ r.
    give (decode_page net r) >>= λ tags.
    if leb_ℤ c.limit (pos 0) || ltb_ℤ (pos (length tags)) c.limit
    then give (ok (out ++ tags))
    else tags_from n net c repo (last_of last tags) (out ++ tags)

unfoldable pub tags : Net → Client → String → Run (List String)
unfolding tags_from
tags net c repo = tags_from 10001 net c repo "" []

pub record Manifest : Type 0 where
  pub digest : String
  pub body : List ℕ
  pub content_type : String

unfoldable pub manifest_of : Net → Reply → Result (List ℕ) → Result Manifest
manifest_of net r (err e) = err e
manifest_of net r (ok b) = ok (record {
  digest = if str_eq r.digest "" then join "sha256:" (net.sha256 b) else r.digest;
  body = b;
  content_type = r.content_type;
})

abbrev pub manifest_media_types : String
manifest_media_types =
    "application/vnd.docker.distribution.manifest.v2+json, application/vnd.docker.distribution.manifest.list.v2+json, application/vnd.oci.image.manifest.v1+json, application/vnd.oci.image.index.v1+json"

unfoldable pub manifest_digest : Net → Client → String → String → Run Manifest
unfolding do_request manifest_of ◌>>=◌
manifest_digest net c repo ref =
    do_request net c (join repo (join "/manifests/" ref)) (some manifest_media_types) >>= λ r.
    give (if not (r.status == 200) then err "manifest" else manifest_of net r r.body)

unfoldable pub blob : Net → Client → String → String → Run (List ℕ)
unfolding do_request ◌>>=◌
blob net c repo digest = do_request net c (join repo (join "/blobs/" digest)) none >>= λ r.
    give (if not (r.status == 200) then err "blob" else r.body)

-- `RoundTrip` of the transport for image pulls; the realms are those of the library's challenges.
unfoldable pub valid_realms : Net → Url → List String → Result (Unit {0})
unfolding token_realm
valid_realms net base [] = ok tt
valid_realms net base (realm ∷ realms) =
    let rest = valid_realms net base realms in after (token_realm net base realm) rest
  where
    after : Result Url → Result (Unit {0}) → Result (Unit {0})
    after (err e) rest = err e
    after (ok u) rest = rest

unfoldable pub round_trip : Net → Client → (Reply → List String) → Request → Run Reply
unfolding send valid_realms ◌>>=◌
round_trip net c bearer_realms req s =
    if str_eq c.base.scheme "https" && not (str_eq req.url.scheme "https")
    then (s, err "HTTPS registry refuses non-HTTPS request")
    else (send net req >>= λ r.
          if r.status == 401
          then checked r (valid_realms net c.base (bearer_realms r))
          else give (ok r))
        s
  where
    checked : Reply → Result (Unit {0}) → Run Reply
    checked r (err e) = give (err e)
    checked r (ok u) = give (ok r)

unfoldable pub new_client : Result Url → Bool → Result Client
new_client (err e) has_credentials = err "registry url"
new_client (ok u) has_credentials =
    if not (str_eq u.scheme "http" || str_eq u.scheme "https")
    then err "registry url must be http(s)"
    else ok (record { base = u; has_credentials = has_credentials; limit = pos 0 })
