-- ===== src/Admin/EventLog/Forgets.antt =====
-- `OpenEventLog` of internal/admin/admin.go, twice on a file that is full.
use edge_delta_lab.Prelude.{◌<◌, ◌≤◌, ◌≡◌, refl, Option, some, [], length, leb, arith, true, false}
use mathlib.Core.List.{append-nil}
use edge_delta_lab.Prelude.Int.{ℤ, pos, negsuc}
use edge_delta_lab.Admin.EventLog.State.{
  Bytes, Json, World, EventLog, contents, later_faults, next_fault, rename_files, syscall, call,
  append_to_current, set_log, set_files, close_file, rename_to_previous,
}
use edge_delta_lab.Admin.EventLog.Write.{
  open_log, open_append, read_log, rotate_when_full, rotate, open_empty, emptied, limit_of,
}
use edge_delta_lab.Admin.EventLog.Read.{
  last_seq, tail_of, last_seq_from, split_lines, event_of, higher_seq,
}

limit_of-pos : (max_bytes : ℤ) → 0 < limit_of max_bytes
unfolding limit_of
limit_of-pos (pos n) = ground arith
limit_of-pos (negsuc n) = ground arith

abbrev working : EventLog → Option Bytes → Option Bytes → World
working l current previous = record {
  log = l;
  files = record { current = current; previous = previous };
  faults = [];
}

-- What the log is once a full file was renamed
abbrev rotated : Json → ℤ → Bytes → EventLog
rotated json max_bytes b = record {
  max_bytes = limit_of max_bytes;
  size = 0;
  seq = last_seq json (some b);
  file_open = true;
  closed = false;
  hooks = [];
}

module _ (json : Json) (max_bytes : ℤ) where
  open_log-full :
      (l : EventLog) (b : Bytes) (previous : Option Bytes)
      → limit_of max_bytes ≤ length b
      → (open_log json max_bytes (working l (some b) previous)).1
        ≡ working (rotated json max_bytes b) (some []) (some b)
  unfolding open_log syscall call next_fault later_faults open_append set_files append_to_current
      contents read_log set_log rotate_when_full rotate close_file rename_to_previous rename_files
      open_empty emptied
  open_log-full l b previous le =
      let full : leb (limit_of max_bytes) (length b) ≡ true = ground (arith, le) in
      rw (append-nil b, full) refl

  open_log-empty :
      (l : EventLog) (previous : Option Bytes)
      → ((open_log json max_bytes (working l (some []) previous)).1.log.seq ≡ 0)
        × ((open_log json max_bytes (working l (some []) previous)).1.files.previous ≡ previous)
  unfolding open_log syscall call next_fault later_faults open_append set_files append_to_current
      contents read_log set_log rotate_when_full last_seq tail_of last_seq_from split_lines event_of
      higher_seq
  open_log-empty l previous =
      let room : leb (limit_of max_bytes) 0 ≡ false = ground (arith, limit_of-pos max_bytes) in
      rw room (refl, refl)

  -- A log whose file is full is opened, nothing is emitted, and it is opened again, where all calls
  -- work: then its sequence starts at 0 again, while the file before still has all that was there.
  pub restart_forgets :
      (l : EventLog) (b : Bytes) (previous : Option Bytes)
      → limit_of max_bytes ≤ length b
      → ((open_log json max_bytes
            (open_log json max_bytes (working l (some b) previous)).1).1.log.seq
          ≡ 0)
        × ((open_log json max_bytes
              (open_log json max_bytes (working l (some b) previous)).1).1.files.previous
            ≡ some b)
  restart_forgets l b previous le =
      rw (open_log-full l b previous le) (open_log-empty (rotated json max_bytes b) (some b))
