-- ===== src/Lab/Storage/Triple.antt =====
-- What a chain of calls leaves on the disk: one condition where it succeeded, one where it did not.
use edge_delta_lab.Prelude.{ℕ, String, List, [], ◌∷◌}
use edge_delta_lab.Prelude.Dict.{Dict, remove}
use edge_delta_lab.Lab.Storage.{
  Fault, works, breaks, stops, Disk, Outcome, done, failed, crashed, Io, ◌>>=◌, fault, unlink,
}

abbrev pub Files : Type 0
Files = Dict (List ℕ)

module _ {A : Type 0} where
  abbrev pub Post : (Files → Type 0) → (Files → Type 0) → Outcome A → Files → Type 0
  Post good bad (done a) fs = good fs
  Post good bad (failed e) fs = bad fs
  Post good bad crashed fs = bad fs

  pub record Triple (pre good bad : Files → Type 0) (m : Io A) : Type 0 where
    pub at : (d : Disk) → pre d.files → Post good bad (m d).0 (m d).1.files

pub fault-Post :
    (good bad : Files → Type 0) (what : String) (fs : List Fault) (after broken : Files)
    → good after
    → bad broken
    → Post good bad (fault what fs after broken).0 (fault what fs after broken).1.files
unfolding fault
fault-Post good bad what [] after broken g b = g
fault-Post good bad what (works ∷ fs) after broken g b = g
fault-Post good bad what (breaks ∷ fs) after broken g b = b
fault-Post good bad what (stops ∷ fs) after broken g b = b

pub unlink-keeps :
    (tmp : String) (P : Files → Type 0) (fs : Files) (faults : List Fault)
    → P fs
    → P (remove tmp fs)
    → P (unlink tmp (record { files = fs; faults = faults })).1.files
unfolding unlink fault
unlink-keeps tmp P fs [] p q = q
unlink-keeps tmp P fs (works ∷ faults) p q = q
unlink-keeps tmp P fs (breaks ∷ faults) p q = p
unlink-keeps tmp P fs (stops ∷ faults) p q = p

module _ {A B : Type 0} (pre mid good bad : Files → Type 0) where
  continue-Post :
      (r : Outcome A) (d : Disk) (f : A → Io B)
      → Post mid bad r d.files
      → ((a : A) → Triple mid good bad (f a))
      → Post good bad (◌>>=◌ (λ _. (r, d)) f d).0 (◌>>=◌ (λ _. (r, d)) f d).1.files
  unfolding ◌>>=◌
  continue-Post (done a) d f p t = (t a).at d p
  continue-Post (failed e) d f p t = p
  continue-Post crashed d f p t = p

  pub bind-Triple :
      (m : Io A) (f : A → Io B)
      → Triple pre mid bad m
      → ((a : A) → Triple mid good bad (f a))
      → Triple pre good bad (m >>= f)
  unfolding ◌>>=◌
  bind-Triple m f tm tf = record { at = λ d p. continue-Post (m d).0 (m d).1 f (tm.at d p) tf }
