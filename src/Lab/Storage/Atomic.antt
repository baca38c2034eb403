-- ===== src/Lab/Storage/Atomic.antt =====
-- `AtomicWrite` is atomic, whichever of its calls fails and wherever the machine stops.
use edge_delta_lab.Prelude.{
  ℕ, ◌≡◌, ◌≢◌, ◌⊎◌, ◌∙◌, refl, String, some, List, [], arith, eq_iff, eq_refl, str_eq,
  if◌then◌else◌, inl, inr,
}
use edge_delta_lab.Prelude.Dict.{lookup, insert, remove, lookup-insert, lookup-remove}
use edge_delta_lab.Lab.Storage.Triple.{Files, Post, Triple, fault-Post, unlink-keeps, bind-Triple}
use edge_delta_lab.Lab.Storage.{
  Fault, Disk, Outcome, done, failed, crashed, syscall, create, write, fsync, rename, replace_by,
  deferred_remove, atomic_write,
}

module _ (tmp path : String) (bytes : List ℕ) (start : Files) where
  -- Nothing but the temporary file has changed.
  abbrev IsOld : Files → Type 0
  IsOld fs = (k : String) → k ≢ tmp → lookup k fs ≡ lookup k start

  -- The temporary file has the new content.
  abbrev IsReady : Files → Type 0
  IsReady fs = IsOld fs × (lookup tmp fs ≡ some bytes)

  -- The file has its new content, and nothing else but the temporary file has changed.
  abbrev IsNew : Files → Type 0
  IsNew fs =
      (k : String) → k ≢ tmp → lookup k fs ≡ (if str_eq path k then some bytes else lookup k start)

  abbrev IsEither : Files → Type 0
  IsEither fs = IsOld fs ⊎ IsNew fs

  IsOld-insert : (fs : Files) (b : List ℕ) → IsOld fs → IsOld (insert tmp b fs)
  IsOld-insert fs b h k ne = rw lookup-insert (ground (arith, eq_iff tmp k, h k ne))

  IsOld-remove : (fs : Files) → IsOld fs → IsOld (remove tmp fs)
  IsOld-remove fs h k ne = rw lookup-remove (ground (arith, eq_iff tmp k, h k ne))

  IsNew-remove : (fs : Files) → IsNew fs → IsNew (remove tmp fs)
  IsNew-remove fs h k ne = rw lookup-remove (ground (arith, eq_iff tmp k, h k ne))

  syscall-Triple :
      (P : Files → Type 0) (what : String)
      → ((fs : Files) → P fs → IsEither fs)
      → Triple P P IsEither (syscall what)
  unfolding syscall
  syscall-Triple P what e = record {
    at = λ d p. fault-Post P IsEither what d.faults d.files d.files p (e d.files p);
  }

  create-Triple : Triple IsOld IsOld IsEither (create tmp)
  unfolding create
  create-Triple = record {
    at = λ d p. fault-Post IsOld IsEither _ d.faults _ d.files (IsOld-insert d.files [] p) (inl p);
  }

  write-Triple : Triple IsOld IsOld IsEither (write tmp bytes)
  unfolding write
  write-Triple = record {
    at = λ d p. fault-Post IsOld IsEither _ d.faults d.files d.files p (inl p);
  }

  fsync-Triple : Triple IsOld IsReady IsEither (fsync tmp bytes)
  unfolding fsync
  fsync-Triple = record {
    at = λ d p.
        fault-Post IsReady IsEither _ d.faults _ d.files
          (IsOld-insert d.files bytes p, rw lookup-insert (rw eq_refl refl)) (inl p);
  }

  renamed : (fs : Files) → IsReady fs → IsNew (remove tmp (insert path bytes fs))
  renamed fs h k ne = rw lookup-remove (rw lookup-insert (ground (arith, eq_iff tmp k, h.0 k ne)))

  rename-Triple : Triple IsReady IsNew IsEither (rename tmp path)
  unfolding rename
  rename-Triple = record {
    at = λ d p.
        rw (p.1, rename)
          (fault-Post IsNew IsEither "rename" d.faults _ d.files (renamed d.files p) (inl p.0));
  }

  replace_by-Triple : Triple IsOld IsNew IsEither (replace_by tmp path bytes)
  unfolding replace_by
  replace_by-Triple =
      bind-Triple IsOld IsOld IsNew IsEither _ _ (syscall-Triple IsOld _ (λ fs h. inl h)) λ _.
        bind-Triple IsOld IsOld IsNew IsEither _ _ write-Triple λ _.
          bind-Triple IsOld IsReady IsNew IsEither _ _ fsync-Triple λ _.
            bind-Triple IsReady IsReady IsNew IsEither _ _
              (syscall-Triple IsReady _ (λ fs h. inl h.0))
              λ _.
                bind-Triple IsReady IsNew IsNew IsEither _ _ rename-Triple
                  λ _. syscall-Triple IsNew _ (λ fs h. inr h)

  IsEither-remove : (fs : Files) → IsEither fs → IsEither (remove tmp fs)
  IsEither-remove fs (inl o) = inl (IsOld-remove fs o)
  IsEither-remove fs (inr n) = inr (IsNew-remove fs n)

  deferred-Post :
      (r : Outcome (Unit {0})) (fs : Files) (faults : List Fault)
      → Post IsNew IsEither r fs
      → Post IsNew IsEither
          (deferred_remove tmp (r, record { files = fs; faults = faults })).0
          (deferred_remove tmp (r, record { files = fs; faults = faults })).1.files
  unfolding deferred_remove
  deferred-Post (done a) fs faults p = unlink-keeps tmp IsNew fs faults p (IsNew-remove fs p)
  deferred-Post (failed e) fs faults p =
      unlink-keeps tmp IsEither fs faults p (IsEither-remove fs p)
  deferred-Post crashed fs faults p = p

  replace-Triple :
      Triple IsOld IsNew IsEither (λ d. deferred_remove tmp (replace_by tmp path bytes d))
  replace-Triple = record {
    at = λ d p.
        deferred-Post (replace_by tmp path bytes d).0 (replace_by tmp path bytes d).1.files
          (replace_by tmp path bytes d).1.faults (replace_by-Triple.at d p);
  }

  atomic_write-Triple : Triple IsOld IsNew IsEither (atomic_write tmp path bytes)
  unfolding atomic_write
  atomic_write-Triple =
      bind-Triple IsOld IsOld IsNew IsEither _ _ (syscall-Triple IsOld _ (λ fs h. inl h))
        λ _. bind-Triple IsOld IsOld IsNew IsEither _ _ create-Triple λ _. replace-Triple

module _ (tmp path : String) (bytes : List ℕ) where
  Post-IsEither :
      (start : Files) (r : Outcome (Unit {0})) (fs : Files)
      → Post (IsNew tmp path bytes start) (IsEither tmp path bytes start) r fs
      → IsEither tmp path bytes start fs
  Post-IsEither start (done a) fs p = inr p
  Post-IsEither start (failed e) fs p = p
  Post-IsEither start crashed fs p = p

  Post-done :
      (start : Files) (r : Outcome (Unit {0})) (fs : Files)
      → Post (IsNew tmp path bytes start) (IsEither tmp path bytes start) r fs
      → r ≡ done tt
      → IsNew tmp path bytes start fs
  Post-done start (done a) fs p e = p
  Post-done start (failed e') fs p e = cc
  Post-done start crashed fs p e = cc

  pub atomic_write_lem :
      (d : Disk)
      → path ≢ tmp
      → ((lookup path (atomic_write tmp path bytes d).1.files ≡ lookup path d.files)
          ⊎ (lookup path (atomic_write tmp path bytes d).1.files ≡ some bytes))
        × ((k : String)
            → k ≢ tmp
            → k ≢ path
            → lookup k (atomic_write tmp path bytes d).1.files ≡ lookup k d.files)
        × ((atomic_write tmp path bytes d).0 ≡ done tt
            → lookup path (atomic_write tmp path bytes d).1.files ≡ some bytes)
  atomic_write_lem d ne =
      let r = (atomic_write tmp path bytes d).0 in
      let fs = (atomic_write tmp path bytes d).1.files in
      let p = (atomic_write-Triple tmp path bytes d.files).at d (λ k _. refl) in
      let either = Post-IsEither d.files r fs p in
      (
        elim either [ inl o ↦ inl (o path ne) | inr n ↦ inr (n path ne ∙ rw eq_refl refl) ],
        λ k nt np. elim either [ inl o ↦ o k nt | inr n ↦ n k nt ∙ ground (arith, eq_iff path k) ],
        λ e. Post-done d.files r fs p e path ne ∙ rw eq_refl refl,
      )
