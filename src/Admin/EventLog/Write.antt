-- ===== src/Admin/EventLog/Write.antt =====
-- `OpenEventLog`, `rotateLocked`, `OnEmit`, `Emit` and `Close` of internal/admin/admin.go.
use edge_delta_lab.Prelude.{
  ℕ, suc, ◌+◌, ◌*◌, ◌^◌, String, true, false, some, List, [], ◌∷◌, ◌++◌, map, length, leb,
  if◌then◌else◌, Result, ok, err,
}
use edge_delta_lab.Prelude.Int.{ℤ, pos, pos_part, leb_ℤ}
use edge_delta_lab.Lab.Storage.{Outcome, done, failed, crashed}
use edge_delta_lab.Admin.EventLog.State.{
  Bytes, Event, Json, EventLog, World, Io, ◌>>◌, call, syscall, set_log, set_files, close_file,
  rename_to_previous, contents, write_line, append_to_current,
}
use edge_delta_lab.Admin.EventLog.Read.{last_seq}

-- `os.OpenFile(l.path, O_CREATE|O_WRONLY|O_TRUNC)`, then `l.f = f; l.size = 0`
unfoldable pub emptied : World → World
unfolding set_log set_files
emptied w =
    set_log (λ l. record l { file_open = true; size = 0 })
      (set_files (λ fs. record fs { current = some [] }) w)

unfoldable pub open_empty : Io (Unit {0})
unfolding call emptied
open_empty = call "open" emptied (λ n w. w)

unfoldable pub rotate : Io (Unit {0})
unfolding close_file rename_to_previous open_empty syscall
rotate = do close_file; rename_to_previous; open_empty; syscall "sync dir"

unfoldable pub rotate_when_full : Io (Unit {0})
unfolding rotate
rotate_when_full w = if leb w.log.max_bytes w.log.size then rotate w else (done tt, w)

unfoldable pub on_emit : String → World → World
unfolding set_log
on_emit hook = set_log (λ l. record l { hooks = l.hooks ++ hook ∷ [] })

-- `l.seq--` and the error, where the write did not succeed
unfoldable pub undo_seq : ℕ → Outcome (Unit {0}) × World → Outcome (Unit {0}) × World
unfolding set_log
undo_seq before (done a, w) = (done a, w)
undo_seq before (failed e, w) = (failed e, set_log (λ l. record l { seq = before }) w)
undo_seq before (crashed, w) = (crashed, w)

-- The part of `Emit` from `json.Marshal` on, with what it gave
unfoldable pub append_event : ℕ → Event → Result Bytes → Io (List (String × Event))
unfolding set_log undo_seq write_line syscall
append_event before ev (err e) w = (failed e, set_log (λ l. record l { seq = before }) w)
append_event before ev (ok b) w =
    (do
      λ w. undo_seq before (write_line (b ++ 10 ∷ []) w)
      syscall "sync"
      λ w. (
        done (map (λ h. (h, ev)) w.log.hooks),
        set_log (λ l. record l { size = l.size + length (b ++ 10 ∷ []) }) w,
      ))
      w

-- The part of `Emit` once there is room: the event under the next sequence number
unfoldable pub emit_next : Json → String → String → String → Io (List (String × Event))
unfolding append_event set_log
emit_next json time kind detail w =
    let before = w.log.seq in
    let ev : Event = record { seq = suc before; time = time; kind = kind; detail = detail } in
    append_event before ev (json.marshal ev) (set_log (λ l. record l { seq = suc before }) w)

-- `Emit`, at the time `time`; it returns the calls of the hooks.
unfoldable pub emit : Json → String → String → String → Io (List (String × Event))
unfolding emit_next rotate_when_full
emit json time kind detail w =
    if w.log.closed
    then (failed "event log closed", w)
    else (do rotate_when_full; emit_next json time kind detail) w

-- `Close`
unfoldable pub close : Io (Unit {0})
unfolding close_file set_log
close w =
    if w.log.closed then (done tt, w) else close_file (set_log (λ l. record l { closed = true }) w)

abbrev pub default_event_log_bytes : ℕ
default_event_log_bytes = 8 * 2 ^ 20

unfoldable pub limit_of : ℤ → ℕ
limit_of max_bytes = if leb_ℤ max_bytes (pos 0) then default_event_log_bytes else pos_part max_bytes

-- The file at `path`, opened for appending
unfoldable pub open_append : Io (Unit {0})
unfolding call set_files append_to_current contents
open_append = call "open" (set_files (append_to_current [])) (λ n w. w)

-- The log over the file that is there
unfoldable pub read_log : Json → ℤ → Io (Unit {0})
unfolding set_log contents last_seq limit_of
read_log json max_bytes w =
    let l : EventLog = record {
      max_bytes = limit_of max_bytes;
      size = length (contents w.files.current);
      seq = last_seq json w.files.current;
      file_open = true;
      closed = false;
      hooks = [];
    } in
    (done tt, set_log (λ _. l) w)

-- `OpenEventLog`; of the log that the process had before nothing is left.
unfoldable pub open_log : Json → ℤ → Io (Unit {0})
unfolding syscall open_append read_log rotate_when_full
open_log json max_bytes = do
  syscall "mkdir"
  open_append
  syscall "stat"
  read_log json max_bytes
  syscall "read the tail"
  rotate_when_full
