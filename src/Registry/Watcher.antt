-- ===== src/Registry/Watcher.antt =====
-- internal/registry/watcher.go and config.go: the configuration, the scan of a registry, the record
-- of the digests that are published, and one turn of `Run`. The registry's answers, the regexp and
-- JSON libraries and `sort.Strings` are arguments; the events are left out.
pub mod Poll
pub mod Serve
use edge_delta_lab.Prelude.{
  ℕ, ◌*◌, ◌^◌, String, Bool, true, false, not, ◌&&◌, ◌||◌, Option, none, some, List, [], ◌∷◌, ◌++◌,
  if◌then◌else◌, str_eq, length, Result, ok, err, ltb, leb, ◌==◌,
}
use edge_delta_lab.Prelude.Int.{ℤ, pos, leb_ℤ, ltb_ℤ, eqb_ℤ, add64}
use edge_delta_lab.Prelude.Dict.{Dict, lookup, insert}
use edge_delta_lab.Lab.Object.{join}
use edge_delta_lab.Lab.Storage.{Disk, Outcome, done, failed, crashed, atomic_write}

pub record RepoConfig : Type 0 where
  pub name : String
  pub allow : String
  pub ignore : String

pub record PublishConfig : Type 0 where
  pub root : String
  pub key : String
  pub channel : String
  pub release_prefix : String
  pub sequence_file : String

-- The fields that the watcher reads; durations are nanoseconds.
pub record Config : Type 0 where
  pub registry_url : String
  pub poll : ℤ
  pub repos : List RepoConfig
  pub state_file : String
  pub publish : PublishConfig

pub record PublishRequest : Type 0 where
  pub repo : String
  pub tag : String
  pub digest : String

-- The libraries: `regexp.Compile` with `MatchString`, `sort.Strings`, and JSON for the state.
pub record Engine : Type 0 where
  pub compile : String → Option (String → Bool)
  pub sort_strings : List String → List String
  pub marshal : Dict String → List ℕ
  pub unmarshal : List ℕ → Result (Dict String)

-- What the registry answers during one scan.
pub record Answers : Type 0 where
  pub tags : String → Result (List String)
  pub manifest_digest : String → String → Result String

-- The field `state` of a watcher; the others never change.
pub record Watcher : Type 0 where
  pub state : Dict String

-- `delay *= 2`
abbrev pub twice : ℤ → ℤ
twice d = add64 d d

compiles : Option (String → Bool) → Bool
compiles none = false
compiles (some f) = true

unfoldable pub valid_publish : PublishConfig → Bool
valid_publish p =
    not (str_eq p.root "" || str_eq p.key "" || str_eq p.channel "" || str_eq p.sequence_file "")

matches : Option (String → Bool) → String → Bool
matches none tag = false
matches (some f) tag = f tag

unfoldable pub state_key : String → String → String
state_key repo tag = join repo (join "\0" tag)

-- `seen && prev == digest`
unfoldable pub is_current : Option String → String → Bool
is_current none digest = false
is_current (some prev) digest = str_eq prev digest

-- `firstErr`
abbrev first_err : Option String → Option String → Option String
first_err none e = e
first_err (some d) e = some d

abbrev pub Polled : Type 0
Polled = List PublishRequest × Option String

-- What a tag adds to what the later tags give.
unfoldable pub poll_tag : Watcher → String → String → Result String → Polled → Polled
unfolding is_current
poll_tag w repo tag (err e) rest = (rest.0, some e)
poll_tag w repo tag (ok digest) rest =
    if is_current (lookup (state_key repo tag) w.state) digest
    then rest
    else (record { repo = repo; tag = tag; digest = digest } ∷ rest.0, rest.1)

acknowledged :
    Watcher → Dict String → Outcome (Unit {0}) × Disk → Outcome (Unit {0}) × Watcher × Disk
acknowledged w digests (done u, d) = (done u, record { state = digests }, d)
acknowledged w digests (failed e, d) = (failed e, w, d)
acknowledged w digests (crashed, d) = (crashed, w, d)

-- The variable `backoff` after a turn: `failing` where the scan or a request gave an error.
unfoldable pub next_backoff : Config → Bool → ℤ → ℤ
next_backoff cfg failing backoff =
    if failing then least (if eqb_ℤ backoff (pos 0) then cfg.poll else twice backoff) else pos 0
  where
    least : ℤ → ℤ
    least d = if ltb_ℤ (pos 600000000000) d then pos 600000000000 else d

-- The pause after a turn that left `backoff`.
unfoldable pub pause : Config → Bool → ℤ → ℤ
pause cfg failing backoff = if failing then backoff else cfg.poll

-- The rest of the loop, after a request that is recorded.
unfoldable pub go_on :
    (Watcher → Disk → Outcome (Unit {0}) × Watcher × Disk)
    → Outcome (Unit {0}) × Watcher × Disk
    → Outcome (Unit {0}) × Watcher × Disk
go_on rest (done u, w, d) = rest w d
go_on rest (failed e, w, d) = (failed e, w, d)
go_on rest (crashed, w, d) = (crashed, w, d)

module _ (lib : Engine) where
  unfoldable pub valid_repo : RepoConfig → Bool
  unfolding compiles
  valid_repo r =
      not (str_eq r.name "")
      && (str_eq r.allow "" || compiles (lib.compile r.allow))
      && (str_eq r.ignore "" || compiles (lib.compile r.ignore))

  unfoldable pub valid_repos : List RepoConfig → Bool
  valid_repos [] = true
  valid_repos (r ∷ rs) = valid_repo r && valid_repos rs

  unfoldable pub validate_config : Config → Result Config
  validate_config c =
      if str_eq c.registry_url ""
      then err "registry_url is required"
      else if length c.repos == 0
      then err "at least one repo is required"
      else if str_eq c.state_file ""
      then err "state_file is required"
      else if not (valid_publish c.publish)
      then err "publish settings are required"
      else if not (valid_repos c.repos)
      then err "a repo is invalid"
      else ok (record c { poll = if leb_ℤ c.poll (pos 0) then pos 30000000000 else c.poll })

  unfoldable pub eligible : RepoConfig → String → Bool
  unfolding matches
  eligible r tag =
      if not (str_eq r.ignore "") && matches (lib.compile r.ignore) tag
      then false
      else str_eq r.allow "" || matches (lib.compile r.allow) tag

  unfoldable pub poll_tags : Answers → Watcher → RepoConfig → List String → Polled
  poll_tags a w r [] = ([], none)
  poll_tags a w r (tag ∷ tags) =
      let rest = poll_tags a w r tags in
      if eligible r tag then poll_tag w r.name tag (a.manifest_digest r.name tag) rest else rest

  -- What a repository adds to what the later repositories give.
  unfoldable pub poll_repo : Answers → Watcher → RepoConfig → Result (List String) → Polled → Polled
  unfolding poll_tags
  poll_repo a w r (err e) rest = (rest.0, some e)
  poll_repo a w r (ok tags) rest =
      let found = poll_tags a w r (lib.sort_strings tags) in
      (found.0 ++ rest.0, first_err found.1 rest.1)

  unfoldable pub poll_repos : Answers → Watcher → List RepoConfig → Polled
  poll_repos a w [] = ([], none)
  poll_repos a w (r ∷ rs) = poll_repo a w r (a.tags r.name) (poll_repos a w rs)

  -- `PollOnce`
  abbrev pub poll_once : Config → Answers → Watcher → Polled
  poll_once cfg a w = poll_repos a w cfg.repos

  loaded : Option (List ℕ) → Result (Dict String)
  loaded none = ok []
  loaded (some b) = lib.unmarshal b

  -- `loadState`: a file that is not there is an empty state.
  unfoldable pub load_state : Config → Disk → Result (Dict String)
  unfolding loaded
  load_state cfg d = loaded (lookup cfg.state_file d.files)

  -- `Acknowledge`, with the temporary name that the write uses.
  unfoldable pub acknowledge :
      Config → String → Watcher → PublishRequest → Disk → Outcome (Unit {0}) × Watcher × Disk
  unfolding acknowledged state_key
  acknowledge cfg temp w req d =
      let digests = insert (state_key req.repo req.tag) req.digest w.state in
      acknowledged w digests (atomic_write temp cfg.state_file (lib.marshal digests) d)

  -- The requests of one turn of `Run`, which stops at the first that fails.
  unfoldable pub serve :
      Config
      → String
      → (PublishRequest → Result (Unit {0}))
      → List PublishRequest
      → Watcher
      → Disk
      → Outcome (Unit {0}) × Watcher × Disk
  serve cfg temp trigger [] w d = (done tt, w, d)
  serve cfg temp trigger (req ∷ reqs) w d = elim (trigger req) [
    | err e ↦ (failed e, w, d)
    | ok u ↦ go_on (serve cfg temp trigger reqs) (acknowledge cfg temp w req d)
  ]
