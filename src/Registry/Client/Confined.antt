-- ===== src/Registry/Client/Confined.antt =====
-- Where the requests of internal/registry/client.go go, and how many there are.
use edge_delta_lab.Prelude.{
  ℕ, zero, suc, ◌+◌, ◌≤◌, ◌≡◌, refl, sym, ◌∙◌, ap, String, true, not, ◌&&◌, ◌||◌, Option, none,
  some, List, ◌∷◌, length, Result, ok, err, ◌==◌, str_eq, ok-inv, All, arith, if-elim, eq_iff,
}
use edge_delta_lab.Prelude.Dict.{lookup}
use edge_delta_lab.Lab.Object.{join}
use edge_delta_lab.Registry.Client.Base.{
  Url, Authorization, anonymous, basic, bearer, Request, Reply, Hop, lost, redirect, answer, Net,
  TokenEntry, Client, Session, Run, go_on, ◌>>=◌, give,
}
use edge_delta_lab.Registry.Client.Requests.{
  follow, same_origin, send_hops, send, check_realm, check_parsed, token_realm, credentials,
}
use edge_delta_lab.Registry.Client.Challenges.{Challenge, parse_challenge, scope_for}
use edge_delta_lab.Registry.Client.Tokens.{
  token_query, read_token, fetch_token, fresh_token, keep_token, token_or_fetch, token_for,
}
use edge_delta_lab.Registry.Client.Calls.{retry_with_token, do_request}

-- What the code relies on: `strings.EqualFold` is an equivalence, and building a URL from another one keeps
-- its origin.
pub record IsSound (net : Net) : Type 0 where
  pub fold_refl : (a : String) → net.fold_eq a a ≡ true
  pub fold_trans :
      (a b c : String) → net.fold_eq a b ≡ true → net.fold_eq b c ≡ true → net.fold_eq a c ≡ true
  pub extend_origin :
      (b u : Url) (path : String)
      → net.extend b path ≡ ok u
      → (u.scheme ≡ b.scheme) × (u.host ≡ b.host)
  pub query_scheme : (u : Url) (q : List (String × String)) → (net.with_query u q).scheme ≡ u.scheme

-- A token is for the registry's own origin.
abbrev pub IsFor : Net → Url → Url → Authorization → Type 0
IsFor net base u anonymous = Unit
IsFor net base u basic = Unit
IsFor net base u (bearer t) = same_origin net u base ≡ true

-- Nothing goes out in plain text for a registry that is named with https.
abbrev pub IsConfined : Net → Url → Request → Type 0
IsConfined net base r =
    (base.scheme ≡ "https" → r.url.scheme ≡ "https") × IsFor net base r.url r.authorization

-- At most `k` more requests, each one as `P` says.
abbrev pub Grows : {A : Type 0} → (Request → Type 0) → ℕ → Run A → Type 0
Grows P k m =
    (s : Session) → (length (m s).0.log ≤ length s.log + k) × (All P s.log → All P (m s).0.log)

module _ (P : Request → Type 0) where
  pub Grows-give : {A : Type 0} (r : Result A) → Grows P 0 (give r)
  Grows-give r s = (omega arith, λ h. h)

  Grows-weaken : {A : Type 0} (m : Run A) (j k : ℕ) → j ≤ k → Grows P j m → Grows P k m
  Grows-weaken m j k h g s = (omega (arith, h, (g s).0), (g s).1)

  go_on-Grows :
      {A B : Type 0} (s : Session) (out : Session × Result A) (next : A → Run B) (j k : ℕ)
      → (length out.0.log ≤ length s.log + j) × (All P s.log → All P out.0.log)
      → ((a : A) → Grows P k (next a))
      → (length (go_on out next).0.log ≤ length s.log + (j + k))
        × (All P s.log → All P (go_on out next).0.log)
  unfolding go_on
  go_on-Grows s (s', err e) next j k g h = (omega (arith, g.0), g.1)
  go_on-Grows s (s', ok a) next j k g h =
      let n = h a s' in (omega (arith, g.0, n.0), λ q. n.1 (g.1 q))

  pub Grows-bind :
      {A B : Type 0} (m : Run A) (next : A → Run B) (j k : ℕ)
      → Grows P j m
      → ((a : A) → Grows P k (next a))
      → Grows P (j + k) (m >>= next)
  unfolding ◌>>=◌
  Grows-bind m next j k g h s = go_on-Grows s (m s) next j k (g s) h

  pub Grows-give_bind :
      {A B : Type 0} (r : Result A) (next : A → Run B) (k : ℕ)
      → ((a : A) → r ≡ ok a → Grows P k (next a))
      → Grows P k (give r >>= next)
  unfolding ◌>>=◌ go_on
  Grows-give_bind (err e) next k h s = (omega arith, λ q. q)
  Grows-give_bind (ok a) next k h s = h a refl s

same_origin-inv :
    (net : Net) (a b : Url)
    → same_origin net a b ≡ true
    → (a.scheme ≡ b.scheme) × (net.fold_eq a.host b.host ≡ true)
unfolding same_origin
same_origin-inv net a b h = ((eq_iff a.scheme b.scheme).0 (ground (arith, h)), ground (arith, h))

same_origin-intro :
    (net : Net) (a b : Url)
    → a.scheme ≡ b.scheme
    → net.fold_eq a.host b.host ≡ true
    → same_origin net a b ≡ true
unfolding same_origin
same_origin-intro net a b h k = let e = (eq_iff a.scheme b.scheme).1 h in ground (arith, e, k)

module _ (net : Net) (sound : IsSound net) (base : Url) where
  -- A redirect to the same origin may be followed.
  IsFor-redirect :
      (u origin : Url) (a : Authorization)
      → same_origin net u origin ≡ true
      → IsFor net base origin a
      → IsFor net base u a
  IsFor-redirect u origin anonymous h c = tt
  IsFor-redirect u origin basic h c = tt
  IsFor-redirect u origin (bearer t) h c =
      let p = same_origin-inv net u origin h in
      let q = same_origin-inv net origin base c in
      same_origin-intro net u base (p.0 ∙ q.0)
        (sound.fold_trans u.host origin.host base.host p.1 q.1)

  IsConfined-redirect :
      (u : Url) (req : Request)
      → same_origin net u req.url ≡ true
      → IsConfined net base req
      → IsConfined net base (record req { url = u })
  IsConfined-redirect u req h c = (
    λ e. (same_origin-inv net u req.url h).0 ∙ c.0 e,
    IsFor-redirect u req.url req.authorization h c.1,
  )

  follow-Grows :
      (n : ℕ) (origin : Url) (s : Session) (hop : Hop) (next : Url → Session × Result Reply)
      → ((u : Url)
          → same_origin net u origin ≡ true
          → (length (next u).0.log ≤ length s.log + n)
            × (All (IsConfined net base) s.log → All (IsConfined net base) (next u).0.log))
      → (length (follow net origin s hop next).0.log ≤ length s.log + n)
        × (All (IsConfined net base) s.log
            → All (IsConfined net base) (follow net origin s hop next).0.log)
  unfolding follow
  follow-Grows n origin s (lost e) next h = (omega arith, λ q. q)
  follow-Grows n origin s (answer r) next h = (omega arith, λ q. q)
  follow-Grows n origin s (redirect u) next h =
      if-elim {A = Session × Result Reply}
        (λ r.
          (length r.0.log ≤ length s.log + n)
          × (All (IsConfined net base) s.log → All (IsConfined net base) r.0.log))
        (same_origin net u origin) (λ e. h u e) (λ e. (omega arith, λ q. q))

  send_hops-Grows :
      (n : ℕ) (origin : Url) (req : Request)
      → same_origin net req.url origin ≡ true
      → ((u : Url) → same_origin net u origin ≡ true → IsConfined net base (record req { url = u }))
      → Grows (IsConfined net base) n (send_hops n net origin req)
  unfolding send_hops
  send_hops-Grows zero origin req h c s = (omega arith, λ q. q)
  send_hops-Grows (suc n) origin req h c s =
      let s' : Session = record s { log = req ∷ s.log } in
      let f =
        follow-Grows n origin s' (net.hop s.log req)
          (λ u. send_hops n net origin (record req { url = u }) s')
          (λ u e. send_hops-Grows n origin (record req { url = u }) e c s') in
      (omega (arith, f.0), λ q. f.1 (c req.url h, q))

  pub send-Grows :
      (req : Request) → IsConfined net base req → Grows (IsConfined net base) 10 (send net req)
  unfolding send
  send-Grows req c =
      send_hops-Grows 10 req.url req
        (same_origin-intro net req.url req.url refl (sound.fold_refl req.url.host))
        (λ u e. IsConfined-redirect u req e c)

check_realm-inv :
    (base u v : Url) → check_realm base u ≡ ok v → base.scheme ≡ "https" → v.scheme ≡ "https"
unfolding check_realm
check_realm-inv base u v h b =
    let P : Result Url → Type 0 = λ r. r ≡ ok v → v.scheme ≡ "https" in
    if-elim P (str_eq base.scheme "https" && not (str_eq u.scheme "https")) (λ e q. cc)
      (λ e.
        if-elim P
          (not (str_eq u.scheme "https" || str_eq u.scheme "http")
            || str_eq u.host ""
            || u.has_user)
          (λ f q. cc)
          (λ f q.
            let plain = (eq_iff base.scheme "https").1 b in
            let secure = (eq_iff u.scheme "https").0 (ground (arith, e, plain)) in
            let same : u ≡ v = ok-inv q in ap (λ x. x.scheme) (sym same) ∙ secure))
      h

check_parsed-inv :
    (base v : Url) (r : Result Url)
    → check_parsed base r ≡ ok v
    → base.scheme ≡ "https"
    → v.scheme ≡ "https"
unfolding check_parsed
check_parsed-inv base v (err e) h b = cc
check_parsed-inv base v (ok u) h b = check_realm-inv base u v h b

token_realm-inv :
    (net : Net) (base v : Url) (realm : String)
    → token_realm net base realm ≡ ok v
    → base.scheme ≡ "https"
    → v.scheme ≡ "https"
unfolding token_realm
token_realm-inv net base v realm h b = check_parsed-inv base v (net.parse_url realm) h b

module _ (net : Net) (sound : IsSound net) (c : Client) where
  pub credentials-IsFor : (u : Url) → IsFor net c.base u (credentials c)
  unfolding credentials
  credentials-IsFor u = if-elim (IsFor net c.base u) c.has_credentials (λ e. tt) (λ e. tt)

  read_token-Grows : (r : Reply) → Grows (IsConfined net c.base) 0 (read_token net r)
  unfolding read_token
  read_token-Grows r s =
      if-elim {A = Session × Result TokenEntry}
        (λ o.
          (length o.0.log ≤ length s.log + 0)
          × (All (IsConfined net c.base) s.log → All (IsConfined net c.base) o.0.log))
        (not (r.status == 200)) (λ e. (omega arith, λ q. q)) (λ e. (omega arith, λ q. q))

  fetch_token-Grows :
      (ch : Challenge) (scope : String)
      → Grows (IsConfined net c.base) 10 (fetch_token net c ch scope)
  unfolding fetch_token
  fetch_token-Grows ch scope =
      Grows-give_bind (IsConfined net c.base) (token_realm net c.base ch.realm) _ 10 (λ u e.
        let req : Request = record {
          url = net.with_query u (token_query ch scope);
          accept = none;
          authorization = credentials c;
        } in
        Grows-bind (IsConfined net c.base) (send net req) (λ r. read_token net r) 10 0
          (send-Grows net sound c.base req (
            λ b.
                sound.query_scheme u (token_query ch scope)
                ∙ token_realm-inv net c.base u ch.realm e b,
            credentials-IsFor req.url,
          ))
          read_token-Grows)

  token_or_fetch-Grows :
      (ch : Challenge) (scope : String) (o : Option String)
      → Grows (IsConfined net c.base) 10 (token_or_fetch net c ch scope o)
  unfolding token_or_fetch keep_token
  token_or_fetch-Grows ch scope (some t) = λ s. (omega arith, λ q. q)
  token_or_fetch-Grows ch scope none =
      Grows-bind (IsConfined net c.base) _ _ 10 0
        (fetch_token-Grows (record { realm = ch.realm; service = ch.service; scope = "" }) scope)
        (λ (t : TokenEntry) (s : Session). (omega arith, λ q. q))

  token_for-Grows :
      (ch : Challenge) (scope : String)
      → Grows (IsConfined net c.base) 10 (token_for net c ch scope)
  unfolding token_for
  token_for-Grows ch scope s =
      token_or_fetch-Grows ch scope (fresh_token s.log net (lookup scope s.tok)) s

  pub at_base :
      (u : Url) (path : String)
      → net.extend c.base path ≡ ok u
      → (u.scheme ≡ c.base.scheme) × (same_origin net u c.base ≡ true)
  at_base u path e =
      let o = sound.extend_origin c.base u path e in
      (o.0, same_origin-intro net u c.base o.0 (rw o.1 (sound.fold_refl c.base.host)))

  retry_with_token-Grows :
      (rest : String) (req : Request) (r : Reply)
      → req.url.scheme ≡ c.base.scheme
      → same_origin net req.url c.base ≡ true
      → Grows (IsConfined net c.base) 20 (retry_with_token net c rest req r)
  unfolding retry_with_token
  retry_with_token-Grows rest req r scheme_e origin_e =
      Grows-give_bind (IsConfined net c.base) (parse_challenge net r.challenge) _ 20 (λ ch e.
        Grows-bind (IsConfined net c.base) (token_for net c ch (scope_for rest)) _ 10 10
          (token_for-Grows ch (scope_for rest))
          (λ t.
            send-Grows net sound c.base (record req { authorization = bearer t })
              (λ b. scheme_e ∙ b, origin_e)))

  pub do_request-Grows :
      (rest : String) (accept : Option String)
      → Grows (IsConfined net c.base) 30 (do_request net c rest accept)
  unfolding do_request
  do_request-Grows rest accept =
      Grows-give_bind (IsConfined net c.base) (net.extend c.base (join "/v2/" rest)) _ 30 (λ u e.
        let req : Request = record { url = u; accept = accept; authorization = credentials c } in
        let o = at_base u (join "/v2/" rest) e in
        Grows-bind (IsConfined net c.base) (send net req) _ 10 20
          (send-Grows net sound c.base req (λ b. o.0 ∙ b, credentials-IsFor u))
          (λ r.
            if-elim {A = Run Reply} (Grows (IsConfined net c.base) 20) (r.status == 401)
              (λ f. retry_with_token-Grows rest req r o.0 o.1) (λ f s. (omega arith, λ q. q))))
