-- ===== src/Tests/Loaded.antt =====
-- A proof of a loaded image.
use edge_delta_lab.Prelude.{◌≡◌, ◌↔◌, true, [], ◌∷◌, map, ok}
use edge_delta_lab.Prelude.Int.{pos}
use edge_delta_lab.Lab.Loaded.{eof, entry, Archive, Docker, load_report_refs, verify_loaded}
use edge_delta_lab.Lab.Loaded.Identity.{IsProven, verify_loaded_iff}
use edge_delta_lab.Tests.Samples.{digest}

abbrev saved : Archive
saved =
    entry (record { name = "manifest.json"; regular = true; size = pos 1; content = ok (0 ∷ []) })
      (entry (record { name = digest; regular = true; size = pos 1; content = ok (1 ∷ []) }) eof)

abbrev docker : Docker
docker = record {
  images = λ report. "app:v1" ∷ [];
  ids = λ report. [];
  save = λ ref. ok saved;
  unmarshal_configs = λ b. ok (digest ∷ []);
  hash = λ b. digest;
  trim_space = λ s. s;
}

verify_loaded_iff_example :
    (verify_loaded docker "Loaded image: app:v1" ("sha256:0" ∷ []) ≡ ok tt)
    ↔ IsProven docker
        (load_report_refs docker "Loaded image: app:v1")
        (map docker.trim_space ("sha256:0" ∷ []))
verify_loaded_iff_example = verify_loaded_iff docker "Loaded image: app:v1" ("sha256:0" ∷ [])
