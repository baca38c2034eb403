-- ===== src/Push/Trigger.antt =====
-- internal/push/trigger.go: the scan of the release files, the announcement of a changed one, and the
-- spoke's check of an announcement. The directory is an argument: its entries in the order of their
-- names, each with what a stat and a read of it give. The event sink is left out.
pub mod Scan
pub mod Gate
use edge_delta_lab.Prelude.{
  ℕ, String, Bool, true, false, not, ◌&&◌, ◌||◌, Option, none, some, List, [], ◌∷◌, if◌then◌else◌,
  str_eq, length, Result, ok, err, ◌==◌, ◌>>=◌, ◌>>◌, require,
}
use edge_delta_lab.Prelude.Int.{ℤ, eqb_ℤ}
use edge_delta_lab.Prelude.Dict.{Dict, lookup, insert}
use edge_delta_lab.Lab.Manifest.{Manifest, Platform}
use edge_delta_lab.Lab.Verify.{verify}
use edge_delta_lab.Push.Broker.{Announce, Broker, announce}

pub record FileStamp : Type 0 where
  pub size : ℤ
  pub mtime : ℤ

abbrev pub stamp_eq : FileStamp → FileStamp → Bool
stamp_eq a b = eqb_ℤ a.size b.size && eqb_ℤ a.mtime b.mtime

-- An entry of `releases/`, at the time of the scan.
pub record Entry : Type 0 where
  pub name : String
  pub is_dir : Bool
  pub stat : Option FileStamp
  pub content : Result (List ℕ)

pub data Listing : Type 0 where
  missing : Listing
  unreadable : Listing
  entries : List Entry → Listing

pub record Trigger : Type 0 where
  pub stamps : Dict FileStamp
  pub announced : Dict String
  pub primed : Bool
  pub broker : Broker

-- `lab.Hash`, the JSON and base64 of an envelope down to its release and sequence, and
-- `strings.HasSuffix` and `strings.TrimSuffix` on ".json".
pub record Codec : Type 0 where
  pub hash : List ℕ → String
  pub unmarshal_envelope : List ℕ → Result String
  pub decode_base64 : String → Result (List ℕ)
  pub unmarshal_head : List ℕ → Result (String × ℕ)
  pub has_json_suffix : String → Bool
  pub trim_json_suffix : String → String

abbrev pub new_trigger : Broker → Trigger
new_trigger b = record { stamps = []; announced = []; primed = false; broker = b }

unfoldable pub is_channel : List String → String → Bool
is_channel [] base = false
is_channel (c ∷ cs) base = str_eq base c || is_channel cs base

-- `prev, ok := t.announced[name]; ok && prev == digest`
unfoldable pub same_digest : Option String → String → Bool
same_digest none digest = false
same_digest (some prev) digest = str_eq prev digest

publish_parsed : Result Announce → Trigger → Trigger
publish_parsed (err e) t = t
publish_parsed (ok a) t = record t { broker = announce a t.broker }

-- `(seen && cur != prev) || (!seen && primed)`
unfoldable pub is_write : Option FileStamp → Bool → FileStamp → Bool
is_write none primed cur = primed
is_write (some prev) primed cur = not (stamp_eq cur prev)

module _ (f : Codec) (channels : List String) where
  -- The announcement of the bytes `b` of the file `name`.
  unfoldable pub parse : String → List ℕ → Result Announce
  parse name b = do
    payload ← f.unmarshal_envelope b
    bytes ← f.decode_base64 payload
    m ← f.unmarshal_head bytes
    ok (record {
      kind = if is_channel channels (f.trim_json_suffix name) then "promote" else "publish";
      release = m.0;
      sequence = m.1;
      digest = f.hash b;
      envelope = b;
    })

  unfoldable pub announce_file : String → Result (List ℕ) → Trigger → Trigger
  unfolding parse publish_parsed same_digest
  announce_file name (err e) t = t
  announce_file name (ok b) t =
      if same_digest (lookup name t.announced) (f.hash b)
      then t
      else publish_parsed (parse name b)
          (record t { announced = insert name (f.hash b) t.announced })

  unfoldable pub scan_file : Entry → Trigger → Option FileStamp → Trigger
  unfolding is_write announce_file
  scan_file e t none = t
  scan_file e t (some cur) =
      let t' = record t { stamps = insert e.name cur t.stamps } in
      if is_write (lookup e.name t.stamps) t.primed cur
      then announce_file e.name e.content t'
      else t'

  unfoldable pub is_release : Entry → Bool
  is_release e = not e.is_dir && f.has_json_suffix e.name

  unfoldable pub scan_files : List Entry → Trigger → Trigger
  unfolding scan_file is_release
  scan_files [] t = t
  scan_files (e ∷ es) t = scan_files es (if is_release e then scan_file e t e.stat else t)

  unfoldable pub scan_once : Listing → Trigger → Trigger
  unfolding scan_files
  scan_once missing t = t
  scan_once unreadable t = t
  scan_once (entries es) t = let t' = scan_files es t in record t' { primed = true }

  -- `Run`: a scan at the start and one for each tick, with what the directory holds at each.
  unfoldable pub run_trigger : List Listing → Trigger → Trigger
  unfolding scan_once
  run_trigger [] t = t
  run_trigger (listing ∷ ticks) t = run_trigger ticks (scan_once listing t)

  unfoldable pub seen_files : Trigger → ℕ
  seen_files t = length t.stamps

-- The spoke's gate.
unfoldable pub accept : Platform → (List ℕ → String) → Announce → List ℕ → ℤ → Result Manifest
accept os hash a pub_key max_artifact = do
  require (not (length a.envelope == 0)) "empty envelope"
  require (str_eq a.digest "" || str_eq (hash a.envelope) a.digest) "envelope digest mismatch"
  v ← verify os a.envelope pub_key max_artifact
  ok v.0
