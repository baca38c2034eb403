-- ===== src/Registry/Client/Requests.antt =====
-- `send` of internal/registry/client.go, and `tokenRealm` of auth_transport.go.
use edge_delta_lab.Prelude.{
  ℕ, zero, suc, String, Bool, not, ◌&&◌, ◌||◌, ◌∷◌, if◌then◌else◌, Result, ok, err, str_eq,
}
use edge_delta_lab.Registry.Client.Base.{
  Url, Authorization, anonymous, basic, Request, Reply, Hop, lost, redirect, answer, Net, Client,
  Session, Run,
}

unfoldable pub same_origin : Net → Url → Url → Bool
same_origin net a b = str_eq a.scheme b.scheme && net.fold_eq a.host b.host

-- What becomes of a request, with what follows where a redirect is taken
unfoldable pub follow :
    Net → Url → Session → Hop → (Url → Session × Result Reply) → Session × Result Reply
unfolding same_origin
follow net origin s (lost e) next = (s, err e)
follow net origin s (answer r) next = (s, ok r)
follow net origin s (redirect u) next =
    let rest = next u in
    if same_origin net u origin then rest else (s, err "cross-origin registry redirect refused")

-- `send`, with how many requests `CheckRedirect` still lets through: 10 at first
unfoldable pub send_hops : ℕ → Net → Url → Request → Run Reply
unfolding follow
send_hops zero net origin req s = (s, err "stopped after 10 redirects")
send_hops (suc n) net origin req s =
    let s' = record s { log = req ∷ s.log } in
    follow net origin s' (net.hop s.log req)
      (λ u. send_hops n net origin (record req { url = u }) s')

unfoldable pub send : Net → Request → Run Reply
unfolding send_hops
send net req = send_hops 10 net req.url req

-- `tokenRealm`
unfoldable pub check_realm : Url → Url → Result Url
check_realm base u =
    if str_eq base.scheme "https" && not (str_eq u.scheme "https")
    then err "HTTPS registry requires HTTPS token realm"
    else if not (str_eq u.scheme "https" || str_eq u.scheme "http")
        || str_eq u.host ""
        || u.has_user
    then err "token realm must be an absolute HTTP(S) URL without userinfo"
    else ok u

unfoldable pub check_parsed : Url → Result Url → Result Url
unfolding check_realm
check_parsed base (err e) = err "invalid token realm URL"
check_parsed base (ok u) = check_realm base u

unfoldable pub token_realm : Net → Url → String → Result Url
unfolding check_parsed
token_realm net base realm = check_parsed base (net.parse_url realm)

unfoldable pub credentials : Client → Authorization
credentials c = if c.has_credentials then basic else anonymous
