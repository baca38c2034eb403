-- ===== src/Tests/Registry.antt =====
-- Runs of the watcher and of the publication.
use edge_delta_lab.Prelude.{
  ℕ, ◌+◌, ◌<◌, ◌^◌, ◌≡◌, ◌≢◌, ◌⊎◌, refl, ◌∙◌, ap, arith, String, true, List, [], ◌∷◌, ◌++◌, ok, err,
  Result, some, none, All, Has, if◌then◌else◌, str_eq, eq_iff,
}
use edge_delta_lab.Prelude.Int.{pos}
use edge_delta_lab.Prelude.Dict.{lookup, insert, remove}
use edge_delta_lab.Lab.Manifest.{codes, is_safe, is_hex, all, hex_codes}
use edge_delta_lab.Lab.Storage.{
  Disk, done, atomic_write, deferred_remove, fault, ◌>>=◌, syscall, create, write, fsync,
  replace_by, rename, unlink,
}
use edge_delta_lab.Registry.Watcher.{
  Config, PublishRequest, Engine, Answers, Watcher, poll_once, acknowledge, serve, state_key,
  load_state,
}
use edge_delta_lab.Registry.Watcher.Poll.{Wanted, poll_once_lem}
use edge_delta_lab.Registry.Watcher.Serve.{DigestsLaw, acknowledge_lem, OnlyGood, serve-OnlyGood}
use edge_delta_lab.Registry.Publish.{
  Hashes, Decimal, sanitize, trim_left, trim_right, safe_or_dash, scanned, next_sequence,
  channel_path, promote,
}
use edge_delta_lab.Registry.Publish.Promote.{IsForward, promote_lem, next_sequence_lem}
use edge_delta_lab.Tests.Coding.{write_digests, read_digests, read-write_digests}
use edge_delta_lab.Tests.Samples.{digest, platform}

abbrev engine : Engine
engine = record {
  compile = λ e. none;
  sort_strings = λ ss. ss;
  marshal = write_digests;
  unmarshal = read_digests;
}

engine-DigestsLaw : DigestsLaw engine
engine-DigestsLaw = record { round_trip = read-write_digests }

abbrev config : Config
config = record {
  registry_url = "https://registry";
  poll = pos 30000000000;
  repos = record { name = "app"; allow = ""; ignore = "" } ∷ [];
  state_file = "watch.json";
  publish = record {
    root = "out";
    key = "key";
    channel = "desired";
    release_prefix = "";
    sequence_file = "seq";
  };
}

abbrev answers : Answers
answers = record { tags = λ r. ok ("v1" ∷ []); manifest_digest = λ r t. ok "d1" }

abbrev watcher : Watcher
watcher = record { state = [] }

abbrev request : PublishRequest
request = record { repo = "app"; tag = "v1"; digest = "d1" }

abbrev empty : Disk
empty = record { files = []; faults = [] }

file-ne-temp : config.state_file ≢ ".tmp-1"
file-ne-temp e = ground (arith, ap codes e)

poll_once_lem_example :
    All (Wanted engine answers watcher config.repos) (poll_once engine config answers watcher).0
    × ((req : PublishRequest)
        → Wanted engine answers watcher config.repos req
        → Has req (poll_once engine config answers watcher).0)
poll_once_lem_example = poll_once_lem engine answers watcher config

acknowledged_once : (acknowledge engine config ".tmp-1" watcher request empty).0 ≡ done tt
unfolding acknowledge atomic_write lookup insert remove deferred_remove fault ◌>>=◌ syscall create
    write fsync replace_by rename unlink
acknowledged_once = refl

acknowledge_lem_example :
    ((k : String)
      → lookup k (acknowledge engine config ".tmp-1" watcher request empty).1.state
        ≡ (if str_eq (state_key "app" "v1") k then some "d1" else lookup k watcher.state))
    × (load_state engine config (acknowledge engine config ".tmp-1" watcher request empty).2
        ≡ ok (acknowledge engine config ".tmp-1" watcher request empty).1.state)
    × ((a : Answers) (cfg' : Config)
        → ¬ Has request
            (poll_once engine cfg' a
              (acknowledge engine config ".tmp-1" watcher request empty).1).0)
acknowledge_lem_example =
    acknowledge_lem engine engine-DigestsLaw config ".tmp-1" file-ne-temp watcher request empty
      acknowledged_once

-- Only the digest "d1" is published.
abbrev Published : String → String → Type 0
Published k v = v ≡ "d1"

abbrev publish_d1 : PublishRequest → Result (Unit {0})
publish_d1 req = if str_eq req.digest "d1" then ok tt else err "not published"

trigger-Published :
    (req : PublishRequest)
    → publish_d1 req ≡ ok tt
    → Published (state_key req.repo req.tag) req.digest
trigger-Published req e = ground (arith, e, eq_iff req.digest "d1")

nothing-OnlyGood :
    OnlyGood engine engine-DigestsLaw config ".tmp-1" file-ne-temp Published watcher empty
unfolding load_state lookup
nothing-OnlyGood = record {
  memory = λ k v e. ground (arith, e);
  disk = λ m e k v f.
      let same : [] ≡ m = ground (arith, e) in
      let none_there : lookup k [] ≡ some v = ap (lookup k) same ∙ f in ground (arith, none_there);
}

serve-OnlyGood_example :
    OnlyGood engine engine-DigestsLaw config ".tmp-1" file-ne-temp Published
      (serve engine config ".tmp-1" publish_d1 (request ∷ []) watcher empty).1
      (serve engine config ".tmp-1" publish_d1 (request ∷ []) watcher empty).2
serve-OnlyGood_example =
    serve-OnlyGood engine engine-DigestsLaw config ".tmp-1" file-ne-temp Published publish_d1
      (request ∷ []) watcher empty trigger-Published nothing-OnlyGood

-- The channel holds the older release.
abbrev channel : Disk
channel = record { files = ("releases/desired.json", 0 ∷ []) ∷ []; faults = [] }

channel-ne-temp : channel_path "desired" ≢ ".tmp-1"
channel-ne-temp e = ground (arith, ap codes e)

channel-current : lookup (channel_path "desired") channel.files ≡ some (0 ∷ [])
unfolding lookup
channel-current = refl

promote_lem_example : IsForward platform [] (0 ∷ []) (1 ∷ []) (
    lookup
      (channel_path "desired")
      (promote platform (ok []) ".tmp-1" "desired" (1 ∷ []) channel).1.files)
promote_lem_example =
    promote_lem platform [] ".tmp-1" "desired" (0 ∷ []) (1 ∷ []) channel channel-ne-temp
      channel-current

-- A number is its own text.
abbrev decimal : Decimal
decimal = record { scan = first; print = λ n. n ∷ [] }
  where
    first : List ℕ → Result ℕ
    first [] = err "sequence file"
    first (n ∷ b) = ok n

abbrev numbered : Disk
numbered = record { files = ("seq", 41 ∷ []) ∷ []; faults = [] }

scanned_41 : scanned decimal (lookup "seq" numbered.files) ≡ ok 41
unfolding scanned lookup
scanned_41 = refl

seq-ne-temp : (◌≢◌ {A = String} "seq" ".tmp-1")
seq-ne-temp e = ground (arith, ap codes e)

next_sequence_lem_example :
    ((lookup "seq" (next_sequence decimal ".tmp-1" "seq" numbered).1.files
        ≡ lookup "seq" numbered.files)
      ⊎ (lookup "seq" (next_sequence decimal ".tmp-1" "seq" numbered).1.files
          ≡ some (decimal.print (41 + 1))))
    × ((n : ℕ)
        → (next_sequence decimal ".tmp-1" "seq" numbered).0 ≡ done n
        → (n ≡ 41 + 1)
          × (n < 2 ^ 64)
          × (lookup "seq" (next_sequence decimal ".tmp-1" "seq" numbered).1.files
              ≡ some (decimal.print n)))
next_sequence_lem_example =
    next_sequence_lem decimal ".tmp-1" "seq" 41 numbered seq-ne-temp (omega arith) scanned_41

abbrev hashes : Hashes
hashes = record { sha256 = λ b. codes digest; new_hash = λ b. true }

name_start :
    [] ++ sanitize (codes "app") ++ 45 ∷ sanitize (codes "v1") ≡ 97 ∷ 112 ∷ 112 ∷ 45 ∷ 118 ∷ 49 ∷ []
unfolding sanitize trim_left trim_right safe_or_dash is_safe
name_start = refl

digest_hex : hex_codes (codes digest) ≡ true
unfolding hex_codes all is_hex
digest_hex = refl

no_prefix : all is_safe [] ≡ true
unfolding all
no_prefix = refl
