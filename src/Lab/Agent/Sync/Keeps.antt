-- ===== src/Lab/Agent/Sync/Keeps.antt =====
-- Properties of the files that a run keeps, whether it ends well, fails or stops.
use edge_delta_lab.Prelude.{
  ℕ, ◌≡◌, ◌≢◌, refl, String, Bool, true, false, Option, none, some, List, inl, inr, arith,
  if◌then◌else◌, Result, ok, err, Option-cases, str_eq, eq_iff,
}
use edge_delta_lab.Prelude.Dict.{lookup, lookup-remove}
use edge_delta_lab.Lab.Storage.{
  Disk, Outcome, done, failed, crashed, Io, ◌>>=◌, succeed, atomic_write,
}
use edge_delta_lab.Lab.Storage.Atomic.{atomic_write_lem}
use edge_delta_lab.Lab.Storage.Triple.{Files, unlink-keeps}
use edge_delta_lab.Lab.Agent.Sync.{fail, lift, check, or_missing, read_file, clean_temps}

pub record Keeps (P : Files → Type 0) {A : Type 0} (m : Io A) : Type 0 where
  pub at : (d : Disk) → P d.files → P (m d).1.files

module _ (P : Files → Type 0) where
  pub Keeps-succeed : {A : Type 0} (a : A) → Keeps P (succeed a)
  unfolding succeed
  Keeps-succeed a = record { at = λ d p. p }

  pub Keeps-fail : {A : Type 0} (e : String) → Keeps P (fail {A = A} e)
  unfolding fail
  Keeps-fail e = record { at = λ d p. p }

  pub Keeps-lift : {A : Type 0} (r : Result A) → Keeps P (lift r)
  unfolding lift
  Keeps-lift (ok a) = record { at = λ d p. p }
  Keeps-lift (err e) = record { at = λ d p. p }

  pub Keeps-check : (b : Bool) (e : String) → Keeps P (check b e)
  unfolding check
  Keeps-check true e = record { at = λ d p. p }
  Keeps-check false e = record { at = λ d p. p }

  pub Keeps-read_file : (path : String) → Keeps P (read_file path)
  unfolding read_file
  Keeps-read_file path = record { at = λ d p. p }

  pub Keeps-or_missing : (e : String) (b : Option (List ℕ)) → Keeps P (or_missing e b)
  unfolding or_missing
  Keeps-or_missing e none = record { at = λ d p. p }
  Keeps-or_missing e (some b) = record { at = λ d p. p }

  pub Keeps-if :
      {A : Type 0} (test : Bool) (then_run else_run : Io A)
      → (test ≡ true → Keeps P then_run)
      → (test ≡ false → Keeps P else_run)
      → Keeps P (if test then then_run else else_run)
  Keeps-if false then_run else_run ky kn = kn refl
  Keeps-if true then_run else_run ky kn = ky refl

  continue-keeps :
      {A B : Type 0} (r : Outcome A) (d : Disk) (f : A → Io B)
      → P d.files
      → ((a : A) → r ≡ done a → Keeps P (f a))
      → P (◌>>=◌ (λ _. (r, d)) f d).1.files
  unfolding ◌>>=◌
  continue-keeps (done a) d f p kf = (kf a refl).at d p
  continue-keeps (failed e) d f p kf = p
  continue-keeps crashed d f p kf = p

  pub Keeps-bind :
      {A B : Type 0} (m : Io A) (f : A → Io B)
      → Keeps P m
      → ((a : A) → Keeps P (f a))
      → Keeps P (m >>= f)
  unfolding ◌>>=◌
  Keeps-bind m f km kf = record {
    at = λ d p. continue-keeps (m d).0 (m d).1 f (km.at d p) (λ a _. kf a);
  }

  -- The rest of the block may use what is known of the result.
  pub Keeps-bind-result :
      {A B : Type 0} (R : A → Type 0) (m : Io A) (f : A → Io B)
      → Keeps P m
      → ((d : Disk) (a : A) → P d.files → (m d).0 ≡ done a → R a)
      → ((a : A) → R a → Keeps P (f a))
      → Keeps P (m >>= f)
  unfolding ◌>>=◌
  Keeps-bind-result R m f km post kf = record {
    at = λ d p. continue-keeps (m d).0 (m d).1 f (km.at d p) (λ a e. kf a (post d a p e));
  }

  -- The rest of the block may use that `r` is no error.
  pub Keeps-bind-lift :
      {A B : Type 0} (r : Result A) (f : A → Io B)
      → ((a : A) → r ≡ ok a → Keeps P (f a))
      → Keeps P (lift r >>= f)
  unfolding lift ◌>>=◌
  Keeps-bind-lift (ok a) f kf = kf a refl
  Keeps-bind-lift (err e) f kf = record { at = λ d p. p }

pub ruleset keeps_rules = (
  Keeps-succeed, Keeps-fail, Keeps-lift, Keeps-check, Keeps-read_file, Keeps-or_missing, Keeps-if,
  Keeps-bind,
)

-- Properties of one file alone.
module _ (path : String) (Q : Option (List ℕ) → Type 0) where
  abbrev pub AtPath : Files → Type 0
  AtPath fs = Q (lookup path fs)

  pub AtPath-atomic_write_ne :
      (tmp other : String) (bytes : List ℕ)
      → path ≢ tmp
      → other ≢ tmp
      → path ≢ other
      → Keeps AtPath (atomic_write tmp other bytes)
  AtPath-atomic_write_ne tmp other bytes nt ot ne = record {
    at = λ d p. rw ((atomic_write_lem tmp other bytes d ot).1 path nt ne) p;
  }

  pub AtPath-atomic_write :
      (tmp : String) (bytes : List ℕ)
      → path ≢ tmp
      → Q (some bytes)
      → Keeps AtPath (atomic_write tmp path bytes)
  AtPath-atomic_write tmp bytes nt q = record {
    at = λ d p. elim ((atomic_write_lem tmp path bytes d nt).0) [ inl o ↦ rw o p | inr n ↦ rw n q ];
  }

  if_other :
      (tmp : String) (fs : Files)
      → path ≢ tmp
      → (if str_eq tmp path then none else lookup path fs) ≡ lookup path fs
  if_other tmp fs nt = ground (arith, eq_iff tmp path)

  pub AtPath-clean_temps : (tmp : String) → path ≢ tmp → Keeps AtPath (clean_temps tmp)
  unfolding clean_temps
  AtPath-clean_temps tmp nt = record {
    at = λ d p. elim (Option-cases (lookup tmp d.files)) [
      | inl free ↦ rw (free, clean_temps) p
      | inr (b, taken) ↦
          rw (taken, clean_temps)
            (unlink-keeps tmp AtPath d.files d.faults p
              (rw lookup-remove (rw (if_other tmp d.files nt) p)))
    ];
  }
