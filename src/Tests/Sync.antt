-- ===== src/Tests/Sync.antt =====
-- A run of the agent that ends well.
use edge_delta_lab.Prelude.{◌≡◌, refl, []}
use edge_delta_lab.Prelude.Int.{pos, add64, wrap64, ◌+ℤ◌}
use edge_delta_lab.Lab.Manifest.{
  Manifest, safe_release, safe_codes, all, is_safe, chunk_eq, hex_codes, hex_digest, is_hex,
}
use edge_delta_lab.Lab.Storage.{
  Disk, done, ◌>>=◌, atomic_write, create, deferred_remove, fault, rename, replace_by, succeed,
  syscall, unlink, write, fsync,
}
use edge_delta_lab.Lab.Agent.{Summary, valid_options, allowed_url, admit}
use edge_delta_lab.Lab.Agent.Sync.{
  sync, staged_path, clean_temps, online_envelope, accepted, archive_valid, assemble,
  assemble_unless, cached_envelope, check, collect, deliver, envelope, fail, fetch_all, fetch_chunk,
  fetched_envelope, lift, load_archive, load_unless, load_when, manifest_path, missing_chunks,
  needed_bytes, offline_envelope, or_missing, read_file, read_state, revalidated, state_of,
  sum_missing, valid_cached, write_state,
}
use edge_delta_lab.Lab.Agent.Sync.Integrity.{IsSigned, IsDelivered, sync-IsDelivered}
use edge_delta_lab.Prelude.Dict.{lookup, insert, remove}
use edge_delta_lab.Lab.Verify.{
  verify, check_manifest, valid_header, valid_kind, valid_parameters, is_power_of_two,
  valid_artifact, check_chunks, codes_eq, consistent, seen_chunk, sum_chunks, valid_chunk,
  valid_image_id, valid_images,
}
use edge_delta_lab.Lab.Object.{
  cache_path, contains, decode, first_two, is_intact, unique, unique_from,
}
use edge_delta_lab.Tests.Samples.{digest, world, options}
use edge_delta_lab.Tests.Agent.{world-HasOwnTemp}

abbrev empty_disk : Disk
empty_disk = record { files = []; faults = [] }

abbrev summary : Summary
summary = record {
  release = "r1";
  sequence = 8;
  phase = "staged";
  artifact = staged_path digest;
  artifact_sha256 = digest;
  artifact_bytes = pos 3;
  unique_chunks = 1;
  reused_chunks = 0;
}

sync-done : (sync world options empty_disk).0 ≡ done summary
unfolding sync staged_path ◌>>=◌ valid_options clean_temps lookup online_envelope allowed_url verify
    check_manifest valid_header safe_release safe_codes all is_safe valid_kind valid_parameters
    is_power_of_two valid_artifact accepted archive_valid assemble assemble_unless cached_envelope
    check collect deliver envelope fail fetch_all fetch_chunk fetched_envelope lift load_archive
    load_unless load_when manifest_path missing_chunks needed_bytes offline_envelope or_missing
    read_file read_state revalidated state_of sum_missing valid_cached write_state admit chunk_eq
    hex_codes hex_digest is_hex cache_path contains decode first_two is_intact unique unique_from
    atomic_write create deferred_remove fault rename replace_by succeed syscall unlink write fsync
    check_chunks codes_eq consistent seen_chunk sum_chunks valid_chunk valid_image_id valid_images
    insert remove add64 wrap64 ◌+ℤ◌
sync-done = refl

sync-IsDelivered_example :
    (m : Manifest) × IsSigned world options m
    × IsDelivered world m summary (sync world options empty_disk).1.files
sync-IsDelivered_example =
    sync-IsDelivered world options empty_disk summary world-HasOwnTemp sync-done
