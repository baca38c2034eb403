-- ===== src/Tests/Receipts.antt =====
-- A run of `FlushReceipts` where the response to a stored receipt is lost.
use edge_delta_lab.Prelude.{◌≡◌, ◌≢◌, refl, String, true, false, some, List, [], ◌∷◌, ok, arith, ap}
use edge_delta_lab.Prelude.Dict.{lookup}
use edge_delta_lab.Prelude.Int.{pos}
use edge_delta_lab.Lab.Manifest.{
  codes, safe_codes, safe_release, hex_digest, hex_codes, all, is_safe, is_hex,
}
use edge_delta_lab.Lab.Receipts.{
  Receipt, Codec, Line, Entry, response_lost, receipt_path, validate, flush_receipts,
}
use edge_delta_lab.Lab.Receipts.Delivery.{IsSafe}
use edge_delta_lab.Lab.Receipts.Flush.{flush_receipts-IsSafe}
use edge_delta_lab.Tests.Samples.{world, digest}
use edge_delta_lab.Tests.Server.{origin}

abbrev receipt : Receipt
receipt = record {
  id = "r1";
  device_id = "device";
  release = "release";
  phase = "staged";
  artifact_sha256 = digest;
  recorded_at = "now";
  summary = record {
    release = "release";
    sequence = 1;
    phase = "staged";
    artifact = "image";
    artifact_sha256 = digest;
    artifact_bytes = pos 3;
    unique_chunks = 1;
    reused_chunks = 0;
  };
}

abbrev codec : Codec
codec = record {
  hash = λ b. "r1";
  marshal = λ r. 7 ∷ [];
  decode = λ b. some receipt;
  parse_time = λ t. ok tt;
}

own_temp : (id : String) → receipt_path id ≢ ".tmp-1"
unfolding receipt_path
own_temp id e = ground (arith, ap codes e)

abbrev queued : Line
queued = record {
  client = record { files = ("outbox/r1.json", 7 ∷ []) ∷ []; faults = [] };
  server = record { files = []; faults = [] };
  trips = response_lost ∷ [];
}

abbrev listed : List Entry
listed = record { path = "outbox/r1.json"; is_dir = false; is_json = true } ∷ []

queued_file : lookup "outbox/r1.json" queued.client.files ≡ some (7 ∷ [])
unfolding lookup
queued_file = refl

receipt_valid : validate codec receipt ≡ ok tt
unfolding validate safe_release hex_digest safe_codes hex_codes all is_safe is_hex
receipt_valid = refl

flush_receipts-IsSafe_example :
    IsSafe origin codec ".tmp-1" own_temp "outbox/r1.json"
      (7 ∷ [])
      (flush_receipts world origin codec ".tmp-1" "https://hub/receipts" false false
        (ok (some listed))
        (ok tt)
        queued).1
flush_receipts-IsSafe_example =
    flush_receipts-IsSafe origin codec ".tmp-1" own_temp world "https://hub/receipts" false false
      (ok (some listed)) (ok tt) queued "outbox/r1.json" (7 ∷ []) queued_file
