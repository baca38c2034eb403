-- ===== src/Registry/Watcher/Poll.antt =====
-- What a scan of internal/registry/watcher.go emits.
use edge_delta_lab.Prelude.{
  ◌≡◌, ◌≢◌, inl, inr, refl, sym, String, true, false, Option, none, some, List, [], ◌∷◌, All,
  All-append, Has, here, there, Has-append_left, Has-append_right, arith, Result, ok, err, eq_iff,
  Bool-cases,
}
use edge_delta_lab.Prelude.Dict.{lookup}
use edge_delta_lab.Registry.Watcher.{
  RepoConfig, Config, PublishRequest, Engine, Answers, Watcher, eligible, state_key, is_current,
  Polled, poll_tag, poll_tags, poll_repo, poll_repos, poll_once,
}

module _ (lib : Engine) (a : Answers) (w : Watcher) where
  -- A request that a scan of the repository `r` with the listed `tags` should make.
  pub record WantedTag (r : RepoConfig) (tags : List String) (req : PublishRequest) : Type 0 where
    pub listed : Has req.tag tags
    pub repo_name : req.repo ≡ r.name
    pub passes : eligible lib r req.tag ≡ true
    pub answered : a.manifest_digest r.name req.tag ≡ ok req.digest
    pub fresh : lookup (state_key req.repo req.tag) w.state ≢ some req.digest

  -- A request that a scan of `repos` should make.
  pub record Wanted (repos : List RepoConfig) (req : PublishRequest) : Type 0 where
    pub repo : RepoConfig
    pub watched : Has repo repos
    pub tags : List String
    pub named : a.tags repo.name ≡ ok tags
    pub tag : WantedTag repo (lib.sort_strings tags) req

  is_current-false : (p : Option String) (d : String) → is_current p d ≡ false → p ≢ some d
  unfolding is_current
  is_current-false none d h e = ground (arith, e)
  is_current-false (some q) d h e = ground (arith, eq_iff q d, e)

  fresh-is_current : (p : Option String) (d : String) → p ≢ some d → is_current p d ≡ false
  unfolding is_current
  fresh-is_current none d h = refl
  fresh-is_current (some q) d h = ground (arith, eq_iff q d, h)

  poll_tag-All :
      (P : PublishRequest → Type 0) (repo tag : String) (res : Result String) (rest : Polled)
      → ((digest : String)
          → res ≡ ok digest
          → is_current (lookup (state_key repo tag) w.state) digest ≡ false
          → P (record { repo = repo; tag = tag; digest = digest }))
      → All P rest.0
      → All P (poll_tag w repo tag res rest).0
  unfolding poll_tag
  poll_tag-All P repo tag (err e) rest h hr = hr
  poll_tag-All P repo tag (ok digest) rest h hr =
      elim (Bool-cases (is_current (lookup (state_key repo tag) w.state) digest)) [
        | inl e ↦ rw e hr
        | inr e ↦ rw e (h digest refl e, hr)
      ]

  poll_tags-All :
      (r : RepoConfig) (all tags : List String)
      → ((t : String) → Has t tags → Has t all)
      → All (WantedTag r all) (poll_tags lib a w r tags).0
  unfolding poll_tags
  poll_tags-All r all [] sub = tt
  poll_tags-All r all (tag ∷ tags) sub =
      let later = poll_tags-All r all tags (λ t m. sub t (there m)) in
      elim (Bool-cases (eligible lib r tag)) [
        | inl e ↦ rw e (
            poll_tag-All (WantedTag r all) r.name tag _ _
              (λ digest he hc. record {
                listed = sub tag here;
                repo_name = refl;
                passes = e;
                answered = he;
                fresh = is_current-false _ digest hc;
              })
              later)
        | inr e ↦ rw e later
      ]

  Has-poll_tag :
      (req : PublishRequest) (repo tag : String) (res : Result String) (rest : Polled)
      → Has req rest.0
      → Has req (poll_tag w repo tag res rest).0
  unfolding poll_tag
  Has-poll_tag req repo tag (err e) rest m = m
  Has-poll_tag req repo tag (ok digest) rest m =
      elim (Bool-cases (is_current (lookup (state_key repo tag) w.state) digest)) [
        | inl e ↦ rw e m
        | inr e ↦ rw e (there m)
      ]

  poll_tags-Has :
      (r : RepoConfig) (req : PublishRequest) (all tags : List String)
      → WantedTag r all req
      → Has req.tag tags
      → Has req (poll_tags lib a w r tags).0
  unfolding poll_tags poll_tag
  poll_tags-Has r req all (tag ∷ tags) h here =
      rw (h.passes, h.answered, sym h.repo_name, fresh-is_current _ req.digest h.fresh) here
  poll_tags-Has r req all (tag ∷ tags) h (there m) =
      let later = poll_tags-Has r req all tags h m in
      elim (Bool-cases (eligible lib r tag)) [
        | inl e ↦ rw e (Has-poll_tag req r.name tag _ _ later)
        | inr e ↦ rw e later
      ]
  poll_tags-Has r req all [] h m = elim m [ ]

  widen :
      (r : RepoConfig) (rs : List RepoConfig) (reqs : List PublishRequest)
      → All (Wanted rs) reqs
      → All (Wanted (r ∷ rs)) reqs
  widen r rs [] h = tt
  widen r rs (req ∷ reqs) h = (
    record {
      repo = h.0.repo;
      watched = there h.0.watched;
      tags = h.0.tags;
      named = h.0.named;
      tag = h.0.tag;
    },
    widen r rs reqs h.1,
  )

  of_repo :
      (r : RepoConfig) (rs : List RepoConfig) (tags : List String) (reqs : List PublishRequest)
      → a.tags r.name ≡ ok tags
      → All (WantedTag r (lib.sort_strings tags)) reqs
      → All (Wanted (r ∷ rs)) reqs
  of_repo r rs tags [] e h = tt
  of_repo r rs tags (req ∷ reqs) e h = (
    record { repo = r; watched = here; tags = tags; named = e; tag = h.0 },
    of_repo r rs tags reqs e h.1,
  )

  poll_repos-All : (rs : List RepoConfig) → All (Wanted rs) (poll_repos lib a w rs).0
  unfolding poll_repos poll_repo
  poll_repos-All [] = tt
  poll_repos-All (r ∷ rs) = answered (a.tags r.name) refl (poll_repos-All rs)
    where
      answered :
          (res : Result (List String))
          → a.tags r.name ≡ res
          → All (Wanted rs) (poll_repos lib a w rs).0
          → All (Wanted (r ∷ rs)) (poll_repo lib a w r res (poll_repos lib a w rs)).0
      answered (err e) he k = widen r rs _ k
      answered (ok tags) he k =
          All-append (Wanted (r ∷ rs)) _ _
            (of_repo r rs tags _ he
              (poll_tags-All r (lib.sort_strings tags) (lib.sort_strings tags) λ t m. m))
            (widen r rs _ k)

  poll_repos-Has :
      (r : RepoConfig) (req : PublishRequest) (tags : List String) (rs : List RepoConfig)
      → a.tags r.name ≡ ok tags
      → WantedTag r (lib.sort_strings tags) req
      → Has r rs
      → Has req (poll_repos lib a w rs).0
  unfolding poll_repos poll_repo
  poll_repos-Has r req tags (x ∷ rs) e h here = rw e (
      Has-append_left _ (poll_repos lib a w rs).0
        (poll_tags-Has r req (lib.sort_strings tags) (lib.sort_strings tags) h h.listed))
  poll_repos-Has r req tags (x ∷ rs) e h (there m) =
      other (a.tags x.name) (poll_repos-Has r req tags rs e h m)
    where
      other :
          (res : Result (List String))
          → Has req (poll_repos lib a w rs).0
          → Has req (poll_repo lib a w x res (poll_repos lib a w rs)).0
      other (err f) k = k
      other (ok ts) k = Has-append_right (poll_tags lib a w x (lib.sort_strings ts)).0 _ k
  poll_repos-Has r req tags [] e h m = elim m [ ]

  -- A scan emits the requests that it should make and no other: a tag that a watched repository
  -- lists, that passes the filters, whose digest the registry gives, and whose digest is not the one
  -- recorded for it. A repository or a tag that gives an error takes nothing from the others.
  pub poll_once_lem :
      (cfg : Config)
      → All (Wanted cfg.repos) (poll_once lib cfg a w).0
        × ((req : PublishRequest) → Wanted cfg.repos req → Has req (poll_once lib cfg a w).0)
  poll_once_lem cfg = (
    poll_repos-All cfg.repos,
    λ req h. poll_repos-Has h.repo req h.tags cfg.repos h.named h.tag h.watched,
  )
