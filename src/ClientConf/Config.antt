-- ===== src/ClientConf/Config.antt =====
-- internal/clientconf/clientconf.go: the client's configuration. YAML and regexp are arguments.
use edge_delta_lab.Prelude.{
  String, Bool, true, false, not, ◌&&◌, ◌||◌, List, [], ◌∷◌, if◌then◌else◌, str_eq, Result, ok, err,
  ◌>>=◌, ◌>>◌, require,
}
use edge_delta_lab.Prelude.Int.{ℤ, pos, ltb_ℤ, eqb_ℤ}

pub record RestartConfig : Type 0 where
  pub docker_cli : String
  pub include : String
  pub exclude : String
  pub stop_timeout : ℤ

-- An action is a text, as in the source.
pub record Config : Type 0 where
  pub origin : String
  pub manifest : String
  pub pub_key : String
  pub state_dir : String
  pub device_id : String
  pub allow_http : Bool
  pub workers : ℤ
  pub action : String
  pub allow : String
  pub ignore : String
  pub max_releases : ℤ
  pub restart : RestartConfig

pub record Regexp : Type 0 where
  pub compiles : String → Bool
  pub matches : String → String → Bool

-- The action, and "dry-run" where none is given
unfoldable pub parse_action : String → Result String
parse_action action =
    if str_eq action ""
    then ok "dry-run"
    else if str_eq action "dry-run" || str_eq action "load" || str_eq action "restart"
    then ok action
    else err "client config: action must be dry-run, load or restart"

unfoldable pub all_compile : Regexp → List String → Bool
all_compile re [] = true
all_compile re (p ∷ ps) = (str_eq p "" || re.compiles p) && all_compile re ps

unfoldable pub with_defaults : String → Config → Config
with_defaults action c = record c {
  action = action;
  restart = record c.restart {
    docker_cli = if str_eq c.restart.docker_cli "" then "docker" else c.restart.docker_cli;
    stop_timeout = if eqb_ℤ c.restart.stop_timeout (pos 0) then pos 10 else c.restart.stop_timeout;
  };
}

unfoldable pub validate : Regexp → Config → Result Config
unfolding parse_action all_compile with_defaults
validate re c =
    require (not (str_eq c.origin "")) "client config: origin is required"
    >> (require (not (str_eq c.manifest "")) "client config: manifest is required"
        >> (require (not (str_eq c.pub_key "")) "client config: pub_key is required"
            >> (require (not (str_eq c.state_dir "")) "client config: state_dir is required"
                >> (parse_action c.action >>= λ action.
                    require
                      (all_compile re
                        (c.allow ∷ c.ignore ∷ c.restart.include ∷ c.restart.exclude ∷ []))
                      "client config: regexp"
                    >> (require (not (ltb_ℤ c.workers (pos 0) || ltb_ℤ c.max_releases (pos 0)))
                          "client config: workers and max_releases must be >= 0"
                        >> ok (with_defaults action c))))))

-- `Parse`, from what YAML makes of the file
unfoldable pub parse : Regexp → Result Config → Result Config
unfolding validate
parse re (err e) = err "client config"
parse re (ok c) = validate re c

unfoldable pub eligible : Regexp → Config → String → Bool
eligible re c release =
    if not (str_eq c.ignore "") && re.compiles c.ignore && re.matches c.ignore release
    then false
    else if str_eq c.allow ""
    then true
    else re.compiles c.allow && re.matches c.allow release
