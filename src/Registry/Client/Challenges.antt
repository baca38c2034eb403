-- ===== src/Registry/Client/Challenges.antt =====
-- Challenges and scopes: `parseChallenge`, `splitChallengeParams` and `scopeForPath` of internal/registry/client.go.
use Prim.Native.Char.{code}
use text.Mathlib.Text.{starts_with}
use edge_delta_lab.Prelude.{
  ℕ, String, Bool, false, not, ◌&&◌, Option, none, some, List, [], ◌∷◌, if◌then◌else◌, Result, ok,
  err, ◌==◌, str_eq,
}
use edge_delta_lab.Lab.Object.{join}
use edge_delta_lab.Registry.Client.Base.{Net}

pub record Challenge : Type 0 where
  pub realm : String
  pub service : String
  pub scope : String

-- `strings.Cut` at a character
unfoldable pub cut : ℕ → String → Option (String × String)
cut c String.[] = none
cut c (String.◌∷◌ d s) = if code d == c then some (String.[], s) else prefixed (cut c s)
  where
    prefixed : Option (String × String) → Option (String × String)
    prefixed none = none
    prefixed (some (a, b)) = some (String.◌∷◌ d a, b)

-- `strings.Trim(v, "\"")`
unfoldable pub trim_left : String → String
trim_left String.[] = String.[]
trim_left (String.◌∷◌ c s) = if code c == 34 then trim_left s else String.◌∷◌ c s

unfoldable pub trim_right : String → String
trim_right String.[] = String.[]
trim_right (String.◌∷◌ c s) =
    let rest = trim_right s in
    if code c == 34 && str_eq rest "" then String.[] else String.◌∷◌ c rest

-- `splitChallengeParams`, inside quotes or not, with the builder's text
unfoldable pub split_params : Bool → String → String → List String
split_params quoted current String.[] = if str_eq current "" then [] else current ∷ []
split_params quoted current (String.◌∷◌ c s) =
    let comma = code c == 44 && not quoted in
    let rest =
      split_params (if code c == 34 then not quoted else quoted)
        (if comma then "" else join current (String.◌∷◌ c String.[])) s in
    if comma then current ∷ rest else rest

unfoldable pub set_param : Net → Option (String × String) → Challenge → Challenge
unfolding trim_left trim_right
set_param net none ch = ch
set_param net (some (k, quoted)) ch =
    let v = trim_right (trim_left quoted) in
    let key = net.to_lower k in
    if str_eq key "realm"
    then record ch { realm = v }
    else if str_eq key "service"
    then record ch { service = v }
    else if str_eq key "scope"
    then record ch { scope = v }
    else ch

unfoldable pub set_params : Net → List String → Challenge → Challenge
unfolding set_param cut
set_params net [] ch = ch
set_params net (kv ∷ kvs) ch = set_params net kvs (set_param net (cut 61 kv) ch)

unfoldable pub with_realm : Challenge → Result Challenge
with_realm ch = if str_eq ch.realm "" then err "bearer challenge without realm" else ok ch

unfoldable pub parse_scheme : Net → Option (String × String) → Result Challenge
unfolding split_params set_params with_realm
parse_scheme net none = err "unsupported auth scheme"
parse_scheme net (some (scheme, rest)) =
    if net.fold_eq scheme "bearer"
    then with_realm (
        set_params net (split_params false "" rest)
          (record { realm = ""; service = ""; scope = "" }))
    else err "unsupported auth scheme"

unfoldable pub parse_challenge : Net → String → Result Challenge
unfolding parse_scheme cut
parse_challenge net header =
    let h = net.trim_space header in
    if str_eq h "" then err "missing WWW-Authenticate header" else parse_scheme net (cut 32 h)

-- The text before the first occurrence of another
unfoldable pub before : String → String → Option String
before mark String.[] = none
before mark (String.◌∷◌ c s) =
    if starts_with (String.◌∷◌ c s) mark then some String.[] else prefixed (before mark s)
  where
    prefixed : Option String → Option String
    prefixed none = none
    prefixed (some r) = some (String.◌∷◌ c r)

unfoldable pub or_else : Option String → Option String → Option String
or_else none b = b
or_else (some a) b = some a

unfoldable pub scope_of : Option String → String
scope_of none = ""
scope_of (some repo) = if str_eq repo "" then "" else join "repository:" (join repo ":pull")

-- `scopeForPath`, for a path after "/v2/"
unfoldable pub scope_for : String → String
unfolding before or_else scope_of
scope_for rest = scope_of (or_else (before "/tags/list" rest) (before "/manifests/" rest))
