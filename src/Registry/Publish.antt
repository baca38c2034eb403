-- ===== src/Registry/Publish.antt =====
-- internal/registry/publish.go: release names, the sequence file, and the promotion of a release to
-- its channel. SHA-256, `v1.NewHash`, `fmt` and the key file are arguments.
pub mod Names
pub mod Promote
pub mod Trigger
use edge_delta_lab.Prelude.{
  ℕ, ◌+◌, ◌%◌, ◌^◌, ◌*◌, String, Bool, true, false, not, ◌&&◌, ◌||◌, Option, none, some, List, [],
  ◌∷◌, ◌++◌, map, if◌then◌else◌, str_eq, length, take, Result, ok, err, ltb, leb, ◌==◌,
}
use edge_delta_lab.Prelude.Int.{ℤ, pos}
use edge_delta_lab.Lab.Manifest.{codes, is_safe, Manifest, Platform}
use edge_delta_lab.Lab.Verify.{verify, codes_eq}
use edge_delta_lab.Lab.Object.{join}
use edge_delta_lab.Lab.Storage.{Io, ◌>>=◌, ◌>>◌, succeed, fault, atomic_write}
use edge_delta_lab.Lab.Agent.Sync.{fail, lift, check, read_file}
use edge_delta_lab.Registry.Watcher.{PublishRequest}

-- Texts are lists of character codes here, as `sanitize` works on characters.
-- `strings.Map` with the characters that a release name may have
unfoldable pub safe_or_dash : ℕ → ℕ
safe_or_dash c = if is_safe c then c else 45

-- The characters that `strings.Trim` takes off
abbrev pub is_trimmed : ℕ → Bool
is_trimmed c = c == 45 || c == 46

unfoldable pub trim_left : List ℕ → List ℕ
trim_left [] = []
trim_left (c ∷ cs) = if is_trimmed c then trim_left cs else c ∷ cs

-- The characters that are left when the ones at the end are taken off
unfoldable pub trim_right : List ℕ → List ℕ
trim_right [] = []
trim_right (c ∷ cs) =
    let rest = trim_right cs in if is_trimmed c && length rest == 0 then [] else c ∷ rest

unfoldable pub sanitize : List ℕ → List ℕ
unfolding safe_or_dash trim_left trim_right
sanitize s = trim_right (trim_left (map safe_or_dash s))

-- SHA-256 of a text in hexadecimal, and whether `v1.NewHash` accepts a digest.
pub record Hashes : Type 0 where
  pub sha256 : List ℕ → List ℕ
  pub new_hash : List ℕ → Bool

unfoldable pub release_name : Hashes → List ℕ → PublishRequest → Result (List ℕ)
release_name h prefix req =
    let name = prefix ++ sanitize (codes req.repo) ++ 45 ∷ sanitize (codes req.tag) in
    let identity = h.sha256 (codes req.repo ++ 0 ∷ codes req.tag ++ 0 ∷ codes req.digest) in
    if not (h.new_hash (codes req.digest))
    then err "release digest"
    else if length name == 0
    then err "empty release name"
    else ok (take 36 name ++ 45 ∷ identity)

-- `fmt.Sscanf` with `bytes.TrimSpace`, and `fmt.Sprintf`, on a sequence number.
pub record Decimal : Type 0 where
  pub scan : List ℕ → Result ℕ
  pub print : ℕ → List ℕ

unfoldable pub scanned : Decimal → Option (List ℕ) → Result ℕ
scanned f none = ok 0
scanned f (some b) = f.scan b

unfoldable pub next_sequence : Decimal → String → String → Io ℕ
unfolding lift check read_file scanned
next_sequence f temp path = do
  b ← read_file path
  seq ← lift (scanned f b)
  check (not ((seq + 1) % 2 ^ 64 == 0)) "sequence exhausted"
  atomic_write temp path (f.print ((seq + 1) % 2 ^ 64))
  succeed ((seq + 1) % 2 ^ 64)

abbrev pub channel_path : String → String
channel_path channel = join "releases/" (join channel ".json")

-- `1<<50`
abbrev pub max_release : ℤ
max_release = pos 1125899906842624

-- What `promote` does with a release that is not the channel's already.
unfoldable pub promote_over : String → String → List ℕ → ℕ → ℕ → Io (Unit {0})
promote_over temp path envelope old next =
    if ltb next old
    then succeed tt
    else if old == next
    then fail "channel sequence already used by a different release"
    else atomic_write temp path envelope

unfoldable pub promote_current :
    Platform → Result (List ℕ) → String → String → List ℕ → Bool → List ℕ → Io (Unit {0})
unfolding lift promote_over
promote_current os pub_key temp path envelope true current = succeed tt
promote_current os pub_key temp path envelope false current = do
  key ← lift pub_key
  old ← lift (verify os current key max_release)
  next ← lift (verify os envelope key max_release)
  promote_over temp path envelope old.0.sequence next.0.sequence

unfoldable pub promote_to :
    Platform → Result (List ℕ) → String → String → List ℕ → Option (List ℕ) → Io (Unit {0})
unfolding promote_current
promote_to os pub_key temp path envelope none = atomic_write temp path envelope
promote_to os pub_key temp path envelope (some current) =
    promote_current os pub_key temp path envelope (codes_eq current envelope) current

unfoldable pub promote : Platform → Result (List ℕ) → String → String → List ℕ → Io (Unit {0})
unfolding read_file promote_to
promote os pub_key temp channel envelope = do
  current ← read_file (channel_path channel)
  promote_to os pub_key temp (channel_path channel) envelope current
