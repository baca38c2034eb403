-- ===== src/Registry/Client/Tokens.antt =====
-- `fetchToken` and `tokenFor` of internal/registry/client.go.
use edge_delta_lab.Prelude.{
  ℕ, zero, suc, ◌*◌, String, not, Option, none, some, List, [], ◌∷◌, ◌++◌, if◌then◌else◌, Result,
  ok, err, ◌==◌, str_eq,
}
use edge_delta_lab.Prelude.Int.{ℤ, pos, negsuc, ltb_ℤ, add64, wrap64, ◌+ℤ◌}
use edge_delta_lab.Prelude.Dict.{lookup, insert}
use edge_delta_lab.Registry.Client.Base.{
  Request, Reply, TokenReply, Net, TokenEntry, Client, Run, ◌>>=◌, give,
}
use edge_delta_lab.Registry.Client.Challenges.{Challenge}
use edge_delta_lab.Registry.Client.Requests.{send, token_realm, credentials}

unfoldable pub token_query : Challenge → String → List (String × String)
token_query ch scope =
    (if str_eq ch.service "" then [] else ("service", ch.service) ∷ [])
    ++ (if str_eq scope "" then [] else ("scope", scope) ∷ [])

-- How long a token is used: 30 seconds less than the server says, or than a minute.
unfoldable pub lifetime : ℤ → ℤ
unfolding wrap64 add64
lifetime (pos zero) = pos 30000000000
lifetime (pos (suc n)) = add64 (wrap64 (pos (suc n * 1000000000))) (negsuc 29999999999)
lifetime (negsuc n) = pos 30000000000

unfoldable pub token_entry : Net → List Request → Result TokenReply → Result TokenEntry
unfolding lifetime ◌+ℤ◌
token_entry net log (err e) = err "token body"
token_entry net log (ok r) =
    let tok = if str_eq r.token "" then r.access_token else r.token in
    if str_eq tok ""
    then err "token endpoint returned no token"
    else ok (record { token = tok; expires_at = net.now log +ℤ lifetime r.expires_in })

abbrev pub read_with : {A : Type 0} → (List ℕ → Result A) → Result (List ℕ) → Result A
read_with decode (err e) = err e
read_with decode (ok b) = decode b

unfoldable pub read_token : Net → Reply → Run TokenEntry
unfolding token_entry
read_token net r s =
    if not (r.status == 200)
    then (s, err "token endpoint")
    else (s, token_entry net s.log (read_with net.decode_token r.body))

unfoldable pub fetch_token : Net → Client → Challenge → String → Run TokenEntry
unfolding token_realm token_query credentials send read_token ◌>>=◌
fetch_token net c ch scope = give (token_realm net c.base ch.realm) >>= λ u.
    send net (record {
      url = net.with_query u (token_query ch scope);
      accept = none;
      authorization = credentials c;
    })
    >>= λ r. read_token net r

unfoldable pub fresh_token : List Request → Net → Option TokenEntry → Option String
fresh_token log net none = none
fresh_token log net (some t) = if ltb_ℤ (net.now log) t.expires_at then some t.token else none

unfoldable pub keep_token : String → TokenEntry → Run String
keep_token scope t s = (record s { tok = insert scope t s.tok }, ok t.token)

unfoldable pub token_or_fetch : Net → Client → Challenge → String → Option String → Run String
unfolding fetch_token keep_token ◌>>=◌
token_or_fetch net c ch scope (some t) = give (ok t)
token_or_fetch net c ch scope none =
    fetch_token net c (record { realm = ch.realm; service = ch.service; scope = "" }) scope >>= λ t.
    keep_token scope t

unfoldable pub token_for : Net → Client → Challenge → String → Run String
unfolding fresh_token token_or_fetch
token_for net c ch scope s =
    token_or_fetch net c ch scope (fresh_token s.log net (lookup scope s.tok)) s
