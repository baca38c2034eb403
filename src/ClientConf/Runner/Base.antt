-- ===== src/ClientConf/Runner/Base.antt =====
-- The state of internal/clientconf/runner.go, and the containers that docker lists.
use Prim.Native.Char.{code}
use edge_delta_lab.Prelude.{
  ℕ, String, Bool, Option, none, some, List, [], ◌∷◌, if◌then◌else◌, ◌==◌, Result,
}
use edge_delta_lab.Prelude.Int.{ℤ}
use edge_delta_lab.Registry.Client.Challenges.{cut}
use edge_delta_lab.ClientConf.Config.{Regexp}

pub data Command : Type 0 where
  ps : String → Command
  stop_container : String → ℤ → Command
  remove_container : String → Command
  run_image : String → String → Command

pub record AuditRecord : Type 0 where
  pub container : String
  pub image : String
  pub image_id : String
  pub recreated : Bool
  pub new_name : String
  pub error : String
  pub stop_timeout : ℤ

pub record SyncOptions : Type 0 where
  pub release : String
  pub image_ids : List String
  pub artifact : String
  pub phase : String

pub record Plan : Type 0 where
  pub release : String
  pub eligible : Bool
  pub action : String
  pub would_do : List String
  pub reason : String

-- The commands that were run, the events and the audit files, each with the last one first
pub record Journal : Type 0 where
  pub commands : List Command
  pub events : List (String × String)
  pub audits : List (List AuditRecord)

pub record Host : Type 0 where
  pub re : Regexp
  pub docker : List Command → Command → Result String
  pub trim_space : String → String
  pub marshal : AuditRecord → String
  pub print : ℕ → String
  pub write_audit : List AuditRecord → Result (Unit {0})

unfoldable pub emit : String → String → Journal → Journal
emit kind detail j = record j { events = (kind, detail) ∷ j.events }

-- `output`
unfoldable pub exec : Host → Command → Journal → Journal × Result String
exec h c j = (record j { commands = c ∷ j.commands }, h.docker j.commands c)

-- `strings.Split(out, "\n")`: the first line, and the others
unfoldable pub lines_from : String → String × List String
lines_from String.[] = (String.[], [])
lines_from (String.◌∷◌ c s) =
    let (first, rest) = lines_from s in
    if code c == 10 then (String.[], first ∷ rest) else (String.◌∷◌ c first, rest)

pub record Container : Type 0 where
  pub cid : String
  pub name : String
  pub image_name : String

unfoldable pub image_of : String → Option (String × String) → String → Container
image_of cid none name = record { cid = cid; name = name; image_name = cid }
image_of cid (some (name, image)) rest = record { cid = cid; name = name; image_name = image }

unfoldable pub container_of : Option (String × String) → String → Container
unfolding image_of cut
container_of none line = record { cid = line; name = line; image_name = line }
container_of (some (cid, rest)) line = image_of cid (cut 32 rest) rest
