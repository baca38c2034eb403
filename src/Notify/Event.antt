-- ===== src/Notify/Event.antt =====
-- The events of internal/notify/notify.go with their text, and the notifiers of a configuration. The
-- environment and `strings.ToLower` are arguments.
use edge_delta_lab.Prelude.{
  ℕ, suc, String, Option, none, some, List, [], ◌∷◌, if◌then◌else◌, str_eq,
}
use edge_delta_lab.Lab.Object.{join}

pub record Event : Type 0 where
  pub kind : String
  pub repo : String
  pub tag : String
  pub digest : String
  pub release : String
  pub detail : String
  pub time : ℕ

-- `if value != "" { parts = append(parts, label + value) }`, before the later parts
unfoldable pub part : String → String → List String → List String
part label value parts = if str_eq value "" then parts else join label value ∷ parts

-- `strings.Join(parts, " ")`
unfoldable pub join_parts : String → List String → String
join_parts p [] = p
join_parts p (q ∷ parts) = join p (join " " (join_parts q parts))

unfoldable pub with_parts : String → List String → String
unfolding join_parts
with_parts head [] = head
with_parts head (p ∷ parts) = join head (join ": " (join_parts p parts))

-- `Event.Text`
unfoldable pub text : Event → String
unfolding part with_parts
text e = with_parts (join "edgelab " e.kind) (
    part "release=" e.release
      (part "repo=" e.repo (part "tag=" e.tag (part "digest=" e.digest (part "" e.detail [])))))

pub record NotifierConfig : Type 0 where
  pub kind : String
  pub token_env : String
  pub chat_id : String
  pub webhook_env : String

pub data Notifier : Type 0 where
  telegram : String → String → Notifier
  slack : String → Notifier

-- Why an entry is skipped, with its index.
pub data Note : Type 0 where
  unset : ℕ → String → Note
  unknown : ℕ → String → Note

unfoldable pub name_of : Notifier → String
name_of (telegram token chat_id) = "telegram"
name_of (slack webhook) = "slack"

abbrev pub Built : Type 0
Built = List Notifier × List Note

-- The credential, where it is set and not empty
unfoldable pub credential : Option String → Option String
credential none = none
credential (some v) = if str_eq v "" then none else some v

unfoldable pub keep_or_note : Option String → (String → Notifier) → Note → Built → Built
keep_or_note none make note rest = (rest.0, note ∷ rest.1)
keep_or_note (some v) make note rest = (make v ∷ rest.0, rest.1)

module _ (lower : String → String) (lookup_env : String → Option String) where
  unfoldable pub build_one : ℕ → NotifierConfig → Built → Built
  unfolding credential keep_or_note
  build_one i c rest =
      if str_eq (lower c.kind) "telegram"
      then keep_or_note (credential (lookup_env c.token_env)) (λ v. telegram v c.chat_id)
          (unset i c.token_env) rest
      else if str_eq (lower c.kind) "slack"
      then keep_or_note (credential (lookup_env c.webhook_env)) (λ v. slack v)
          (unset i c.webhook_env) rest
      else (rest.0, unknown i c.kind ∷ rest.1)

  unfoldable pub build_from : ℕ → List NotifierConfig → Built
  unfolding build_one
  build_from i [] = ([], [])
  build_from i (c ∷ cs) = build_one i c (build_from (suc i) cs)
