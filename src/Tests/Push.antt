-- ===== src/Tests/Push.antt =====
-- Runs of the broker, of the trigger and of the gate.
use edge_delta_lab.Prelude.{
  suc, ◌+◌, ◌^◌, ◌<◌, ◌≡◌, ◌≢◌, ◌↔◌, ap, arith, String, true, false, List, [], ◌∷◌, ok, err, some,
  none, All,
}
use edge_delta_lab.Prelude.Int.{pos}
use edge_delta_lab.Lab.Manifest.{codes}
use edge_delta_lab.Push.Broker.{Announce, Broker, new_broker, announce, subscribe, snapshot}
use edge_delta_lab.Push.Broker.Laws.{
  announces, subscribes, Reach, start, next, Fits, waiting, broker_lem,
}
use edge_delta_lab.Push.Client.{ClientOptions, refused, connected, initial, cap, run}
use edge_delta_lab.Push.Client.Backoff.{Between, lower, higher, pauses_lem}
use edge_delta_lab.Push.Trigger.{Entry, entries, Trigger, Codec, new_trigger, scan_once, accept}
use edge_delta_lab.Push.Trigger.Scan.{IsDistinct, scan_once_lem}
use edge_delta_lab.Push.Trigger.Gate.{IsAcceptable, accept_iff}
use edge_delta_lab.Tests.Samples.{digest, manifest, platform}

abbrev hint : Announce
hint = record { kind = "publish"; release = "r1"; sequence = 7; digest = digest; envelope = 0 ∷ [] }

abbrev one_hint : Broker
one_hint = announce hint (subscribe new_broker).1

one_hint-Reach : Reach one_hint
one_hint-Reach = next (next start (subscribes new_broker)) (announces hint (subscribe new_broker).1)

broker_lem_example :
    All Fits one_hint.subs
    × ((a : Announce)
        → ((snapshot (announce a one_hint)).announced ≡ suc (snapshot one_hint).announced)
          × (waiting (announce a one_hint).subs + (snapshot (announce a one_hint)).dropped
              ≡ waiting one_hint.subs
                + (snapshot one_hint).dropped
                + (snapshot one_hint).subscribers)
          × ((snapshot (announce a one_hint)).subscribers ≡ (snapshot one_hint).subscribers))
broker_lem_example = broker_lem one_hint-Reach

abbrev codec : Codec
codec = record {
  hash = λ b. digest;
  unmarshal_envelope = λ b. ok "payload";
  decode_base64 = λ s. ok [];
  unmarshal_head = λ b. ok ("r1", 7);
  has_json_suffix = λ s. true;
  trim_json_suffix = λ s. s;
}

abbrev two_files : List Entry
two_files =
    record {
      name = "a";
      is_dir = false;
      stat = some (record { size = pos 1; mtime = pos 1 });
      content = ok (0 ∷ []);
    }
    ∷ record { name = "b"; is_dir = false; stat = none; content = err "gone" }
    ∷ []

b-ne-a : (◌≢◌ {A = String} "b" "a")
b-ne-a e = ground (arith, ap codes e)

two_files-IsDistinct : IsDistinct two_files
two_files-IsDistinct = ((b-ne-a, tt), (tt, tt))

scan_once_lem_example :
    ((b : Broker) → (scan_once codec [] (entries two_files) (new_trigger b)).broker ≡ b)
    × ((t : Trigger)
        → scan_once codec [] (entries two_files) (scan_once codec [] (entries two_files) t)
          ≡ scan_once codec [] (entries two_files) t)
scan_once_lem_example = scan_once_lem codec [] two_files two_files-IsDistinct

accept_iff_example :
    (accept platform platform.hash hint [] (pos 100) ≡ ok manifest)
    ↔ IsAcceptable platform platform.hash hint [] (pos 100) manifest
accept_iff_example = accept_iff platform platform.hash hint [] (pos 100) manifest (omega arith)

abbrev client : ClientOptions
client = record {
  backoff = pos 4;
  max_backoff = pos 10;
  unmarshal = λ msg. some hint;
  int63n = λ i n. 0;
}

client_small : higher client < 2 ^ 62
unfolding initial cap
client_small = omega arith

pauses_lem_example :
    All
      (Between (lower client) (higher client))
      (run client (refused ∷ refused ∷ connected ((1 ∷ []) ∷ []) ∷ [])).pauses
pauses_lem_example =
    pauses_lem client (refused ∷ refused ∷ connected ((1 ∷ []) ∷ []) ∷ []) client_small
      (λ i n gt. omega (arith, gt))
