-- ===== src/Tests/Runner.antt =====
-- A run of the client's actions.
use edge_delta_lab.Prelude.{◌≡◌, true, false, [], ◌∷◌, All, ok, str_eq}
use edge_delta_lab.Prelude.Int.{pos}
use edge_delta_lab.ClientConf.Config.{Config, Regexp}
use edge_delta_lab.ClientConf.Runner.Base.{SyncOptions, Journal, Host}
use edge_delta_lab.ClientConf.Runner.Actions.{act}
use edge_delta_lab.ClientConf.Runner.Gate.{IsAllowed, may_restart, act_lem}

-- A pattern matches the name that it is.
abbrev regexp : Regexp
regexp = record { compiles = λ p. true; matches = λ p s. str_eq p s }

abbrev config : Config
config = record {
  origin = "https://hub";
  manifest = "https://hub/channels/stable.json";
  pub_key = "key";
  state_dir = "/var/lib/edge";
  device_id = "d1";
  allow_http = false;
  workers = pos 1;
  action = "restart";
  allow = "";
  ignore = "r0";
  max_releases = pos 0;
  restart = record { docker_cli = "docker"; include = ""; exclude = "db"; stop_timeout = pos 10 };
}

-- The image runs in one container.
abbrev host : Host
host = record {
  re = regexp;
  docker = λ past c. ok "c1 web app:v1";
  trim_space = λ s. s;
  marshal = λ r. r.container;
  print = λ n. "1";
  write_audit = λ rs. ok tt;
}

abbrev loaded : SyncOptions
loaded = record {
  release = "r1";
  image_ids = "sha256:0" ∷ [];
  artifact = "staged/a.tar";
  phase = "loaded";
}

abbrev fresh : Journal
fresh = record { commands = []; events = []; audits = [] }

act_lem_example :
    All (IsAllowed loaded.image_ids) (act host config loaded fresh).journal.commands
    × (may_restart host config loaded ≡ false
        → (act host config loaded fresh).journal.commands ≡ fresh.commands)
act_lem_example = act_lem host config loaded fresh tt
