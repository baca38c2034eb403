-- ===== src/Admin/EventLog/State.antt =====
-- The event log, its two files, and what the operating system does with a call on them.
use edge_delta_lab.Prelude.{ℕ, String, Bool, false, Option, none, some, List, [], ◌∷◌}
use edge_delta_lab.Prelude.{◌++◌, take, if◌then◌else◌, Result}
use edge_delta_lab.Lab.Storage.{Outcome, done, failed, crashed}

abbrev pub Bytes : Type 0
Bytes = List ℕ

-- `Event`; sequence numbers are counted up from 1 and stay below 2^63.
pub record Event : Type 0 where
  pub seq : ℕ
  pub time : String
  pub kind : String
  pub detail : String

-- encoding/json on events, and `bytes.TrimSpace`
pub record Json : Type 0 where
  pub marshal : Event → Result Bytes
  pub unmarshal : Bytes → Option Event
  pub trim_space : Bytes → Bytes

-- What happens to a call: it works, it fails, or the process stops in it. A write that does not work
-- leaves the given number of its bytes in the file, and of one that was not synced before the machine
-- stopped any number may be left.
pub data Fault : Type 0 where
  works : Fault
  breaks : ℕ → Fault
  stops : ℕ → Fault

-- The files at `path` and at `path.1`, where they exist
pub record Files : Type 0 where
  pub current : Option Bytes
  pub previous : Option Bytes

-- `EventLog`. The file behind `f`, while it is open, is the one at `path`; a hook is a name here.
pub record EventLog : Type 0 where
  pub max_bytes : ℕ
  pub size : ℕ
  pub seq : ℕ
  pub file_open : Bool
  pub closed : Bool
  pub hooks : List String

-- A call that is not on the list of faults works.
pub record World : Type 0 where
  pub log : EventLog
  pub files : Files
  pub faults : List Fault

abbrev pub Io : Type 0 → Type 0
Io A = World → Outcome A × World

infixl 5 ◌>>=◌ ◌>>◌
abbrev pub ◌>>=◌ : {A B : Type 0} → Io A → (A → Io B) → Io B
◌>>=◌ m f w =
    let (r, w') = m w in
    elim r [ done a ↦ f a w' | failed e ↦ (failed e, w') | crashed ↦ (crashed, w') ]

abbrev pub ◌>>◌ : {B : Type 0} → Io (Unit {0}) → Io B → Io B
m >> k = m >>= λ _. k

unfoldable pub next_fault : List Fault → Fault
next_fault [] = works
next_fault (f ∷ fs) = f

unfoldable pub later_faults : List Fault → List Fault
later_faults [] = []
later_faults (f ∷ fs) = fs

-- A call that leaves `good` where it works, and of which `broken n` is left otherwise
unfoldable pub call : String → (World → World) → (ℕ → World → World) → Io (Unit {0})
unfolding next_fault later_faults
call what good broken w =
    let w' = record w { faults = later_faults w.faults } in
    elim (next_fault w.faults) [
      | works ↦ (done tt, good w')
      | breaks n ↦ (failed what, broken n w')
      | stops n ↦ (crashed, broken n w')
    ]

-- A call that changes nothing
unfoldable pub syscall : String → Io (Unit {0})
unfolding call
syscall what = call what (λ w. w) (λ n w. w)

unfoldable pub fail {ℓ} : {A : Type 0} → String → Io A
fail e w = (failed e, w)

unfoldable pub set_log : (EventLog → EventLog) → World → World
set_log f w = record w { log = f w.log }

unfoldable pub set_files : (Files → Files) → World → World
set_files f w = record w { files = f w.files }

-- `l.f.Close()`: a file that is closed cannot be closed again; one whose closing fails is closed.
unfoldable pub close_file : Io (Unit {0})
unfolding call set_log
close_file w =
    let shut = set_log (λ l. record l { file_open = false }) in
    if w.log.file_open then call "close" shut (λ n. shut) w else (failed "file already closed", w)

-- `os.Rename(l.path, l.path+".1")`, where a file that is not there is no error
unfoldable pub rename_files : Files → Files
rename_files fs = elim fs.current [
  | none ↦ fs
  | some bytes ↦ record { current = none; previous = some bytes }
]

unfoldable pub rename_to_previous : Io (Unit {0})
unfolding call set_files rename_files
rename_to_previous = call "rename" (set_files rename_files) (λ n w. w)

-- The file that `os.OpenFile` opens for appending: what is there, or a new one
unfoldable pub contents : Option Bytes → Bytes
contents none = []
contents (some bytes) = bytes

unfoldable pub append_to_current : Bytes → Files → Files
unfolding contents
append_to_current bytes fs = record fs { current = some (contents fs.current ++ bytes) }

-- `l.f.Write(b)`
unfoldable pub write_line : Bytes → Io (Unit {0})
unfolding call set_files append_to_current
write_line line w =
    if w.log.file_open
    then call "write" (set_files (append_to_current line))
        (λ n. set_files (append_to_current (take n line))) w
    else (failed "file already closed", w)
