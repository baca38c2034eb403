-- ===== src/Lab/Storage.antt =====
-- internal/lab/storage.go: `AtomicWrite`, with the faults of the calls that it makes. `EnsureDir` and
-- `SyncDir` are one call each, which may fail. The bytes of a file are on the medium once it is synced; a
-- name that is created, renamed or removed counts as being there at once.
pub mod Triple
pub mod Atomic
use edge_delta_lab.Prelude.{ℕ, String, List, [], ◌∷◌, Option, none, some}
use edge_delta_lab.Prelude.Dict.{Dict, lookup, insert, remove}

-- What the operating system does with one call: it succeeds, it fails, or the machine stops.
pub data Fault : Type 0 where
  works : Fault
  breaks : Fault
  stops : Fault

-- A call that is not on the list works.
pub record Disk : Type 0 where
  pub files : Dict (List ℕ)
  pub faults : List Fault

pub data Outcome (A : Type 0) : Type 0 where
  done : A → Outcome A
  failed : String → Outcome A
  crashed : Outcome A

abbrev pub Io : Type 0 → Type 0
Io A = Disk → Outcome A × Disk

infixl 5 ◌>>=◌ ◌>>◌
unfoldable pub ◌>>=◌ : {A B : Type 0} → Io A → (A → Io B) → Io B
◌>>=◌ m f d =
    let (r, d') = m d in
    elim r [ done a ↦ f a d' | failed e ↦ (failed e, d') | crashed ↦ (crashed, d') ]

abbrev pub ◌>>◌ : {B : Type 0} → Io (Unit {0}) → Io B → Io B
m >> k = m >>= λ _. k

unfoldable pub succeed : {A : Type 0} → A → Io A
succeed a d = (done a, d)

-- What the next fault makes of a call that would leave `after`; a call that breaks leaves `broken`.
unfoldable pub fault :
    String → List Fault → Dict (List ℕ) → Dict (List ℕ) → Outcome (Unit {0}) × Disk
fault what [] after broken = (done tt, record { files = after; faults = [] })
fault what (works ∷ fs) after broken = (done tt, record { files = after; faults = fs })
fault what (breaks ∷ fs) after broken = (failed what, record { files = broken; faults = fs })
fault what (stops ∷ fs) after broken = (crashed, record { files = broken; faults = fs })

-- A call that changes no file.
unfoldable pub syscall : String → Io (Unit {0})
unfolding fault
syscall what d = fault what d.faults d.files d.files

unfoldable pub create : String → Io (Unit {0})
unfolding fault
create path d = fault "create" d.faults (insert path [] d.files) d.files

-- `files` is what the medium holds: a write stays in the cache of the system, so the file that was
-- created is still empty, and nothing reads it before `fsync`.
unfoldable pub write : String → List ℕ → Io (Unit {0})
unfolding fault
write path cached d = fault "write" d.faults d.files d.files

-- `fsync` brings what was written to the medium.
unfoldable pub fsync : String → List ℕ → Io (Unit {0})
unfolding fault
fsync path cached d = fault "sync" d.faults (insert path cached d.files) d.files

unfoldable pub unlink : String → Io (Unit {0})
unfolding fault
unlink path d = fault "remove" d.faults (remove path d.files) d.files

-- `os.Rename`: the new name gets what the old one has.
unfoldable pub rename : String → String → Io (Unit {0})
unfolding fault
rename from to d = elim (lookup from d.files) [
  | none ↦ (failed "rename", d)
  | some bytes ↦ fault "rename" d.faults (remove from (insert to bytes d.files)) d.files
]

-- From `Chmod` to the end.
unfoldable pub replace_by : String → String → List ℕ → Io (Unit {0})
unfolding syscall write fsync rename
replace_by tmp path bytes = do
  syscall "chmod"
  write tmp bytes
  fsync tmp bytes
  syscall "close"
  rename tmp path
  syscall "sync dir"

-- The deferred `os.Remove(tmp)`, whose error is dropped; a machine that has stopped runs it not.
unfoldable pub deferred_remove : String → Outcome (Unit {0}) × Disk → Outcome (Unit {0}) × Disk
unfolding unlink
deferred_remove tmp (crashed, d) = (crashed, d)
deferred_remove tmp (done a, d) = (done a, (unlink tmp d).1)
deferred_remove tmp (failed e, d) = (failed e, (unlink tmp d).1)

-- `AtomicWrite(path, bytes)`; `tmp` is the name that `os.CreateTemp` finds free.
unfoldable pub atomic_write : String → String → List ℕ → Io (Unit {0})
unfolding syscall create replace_by deferred_remove
atomic_write tmp path bytes = do
  syscall "ensure dir"
  create tmp
  λ d. deferred_remove tmp (replace_by tmp path bytes d)
