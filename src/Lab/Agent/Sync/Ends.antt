-- ===== src/Lab/Agent/Sync/Ends.antt =====
-- What the files and the result of a block of agent.go satisfy where it ends well.
use edge_delta_lab.Prelude.{◌≡◌, refl, String, Bool, true, false, Result, ok, err}
use edge_delta_lab.Prelude.Dict.{lookup}
use edge_delta_lab.Lab.Storage.{Disk, Outcome, done, failed, crashed, Io, ◌>>=◌, succeed}
use edge_delta_lab.Lab.Storage.Triple.{Files}
use edge_delta_lab.Lab.Agent.Sync.{lift, check, read_file}
use edge_delta_lab.Lab.Agent.Sync.Keeps.{Keeps}

abbrev pub Gives : {A : Type 0} → (A → Files → Type 0) → Outcome A → Files → Type 0
Gives post (done a) fs = post a fs
Gives post (failed e) fs = Unit
Gives post crashed fs = Unit

pub record Ends {A : Type 0} (pre : Files → Type 0) (post : A → Files → Type 0) (m : Io A)
    : Type 0 where
  pub at : (d : Disk) → pre d.files → Gives post (m d).0 (m d).1.files

pub Ends-bind :
    {A B : Type 0} (pre : Files → Type 0) (mid : A → Files → Type 0) (post : B → Files → Type 0)
    (m : Io A) (f : A → Io B)
    → Ends pre mid m
    → ((a : A) → Ends (mid a) post (f a))
    → Ends pre post (m >>= f)
unfolding ◌>>=◌
Ends-bind {A = A} {B = B} pre mid post m f em ef = record {
  at = λ d p. go (m d).0 (m d).1 (em.at d p);
}
  where
    go :
        (r : Outcome A) (d : Disk)
        → Gives mid r d.files
        → Gives post (◌>>=◌ (λ _. (r, d)) f d).0 (◌>>=◌ (λ _. (r, d)) f d).1.files
    go (done a) d p = (ef a).at d p
    go (failed e) d p = tt
    go crashed d p = tt

-- What a block keeps.
pub Ends-Keeps : {A : Type 0} (P : Files → Type 0) (m : Io A) → Keeps P m → Ends P (λ _ fs. P fs) m
Ends-Keeps {A = A} P m k = record { at = λ d p. go (m d).0 (m d).1 (k.at d p) }
  where
    go : (r : Outcome A) (d : Disk) → P d.files → Gives (λ _ fs. P fs) r d.files
    go (done a) d p = p
    go (failed e) d p = tt
    go crashed d p = tt

-- A block of which nothing is asked.
pub Ends-any : {A : Type 0} (pre : Files → Type 0) (m : Io A) → Ends pre (λ _ _. Unit) m
Ends-any {A = A} pre m = record { at = λ d p. go (m d).0 (m d).1 }
  where
    go : (r : Outcome A) (d : Disk) → Gives (λ _ _. Unit) r d.files
    go (done a) d = tt
    go (failed e) d = tt
    go crashed d = tt

pub Ends-succeed :
    {A : Type 0} (pre : Files → Type 0) (post : A → Files → Type 0) (a : A)
    → ((fs : Files) → pre fs → post a fs)
    → Ends pre post (succeed a)
unfolding succeed
Ends-succeed pre post a h = record { at = λ d p. h d.files p }

pub Ends-lift :
    {A : Type 0} (pre : Files → Type 0) (r : Result A)
    → Ends pre (λ a fs. pre fs × (r ≡ ok a)) (lift r)
unfolding lift
Ends-lift pre (ok a) = record { at = λ d p. (p, refl) }
Ends-lift pre (err e) = record { at = λ d p. tt }

pub Ends-check :
    (pre : Files → Type 0) (b : Bool) (e : String)
    → Ends pre (λ _ fs. pre fs × (b ≡ true)) (check b e)
unfolding check
Ends-check pre true e = record { at = λ d p. (p, refl) }
Ends-check pre false e = record { at = λ d p. tt }

pub Ends-read_file :
    (pre : Files → Type 0) (path : String)
    → Ends pre (λ b fs. pre fs × (lookup path fs ≡ b)) (read_file path)
unfolding read_file
Ends-read_file pre path = record { at = λ d p. (p, refl) }

-- The part of what is known that does not mention the files.
pub Ends-with :
    {A : Type 0} (P : Files → Type 0) (Q : Type 0) (post : A → Files → Type 0) (m : Io A)
    → (Q → Ends P post m)
    → Ends (λ fs. P fs × Q) post m
Ends-with P Q post m h = record { at = λ d p. (h p.1).at d p.0 }

pub Ends-weaken :
    {A : Type 0} (pre pre' : Files → Type 0) (post : A → Files → Type 0) (m : Io A)
    → ((fs : Files) → pre fs → pre' fs)
    → Ends pre' post m
    → Ends pre post m
Ends-weaken pre pre' post m h e = record { at = λ d p. e.at d (h d.files p) }

-- A step that keeps `P`, before the rest of a block.
pub Ends-kept :
    {A B : Type 0} (P : Files → Type 0) (post : B → Files → Type 0) (m : Io A) (f : A → Io B)
    → Keeps P m
    → ((a : A) → Ends P post (f a))
    → Ends P post (m >>= f)
Ends-kept P post m f k ef = Ends-bind P (λ _ fs. P fs) post m f (Ends-Keeps P m k) ef

abbrev pub Anything : Files → Type 0
Anything fs = Unit

-- A step of which nothing is asked, before the rest of a block.
pub Ends-after :
    {A B : Type 0} (post : B → Files → Type 0) (m : Io A) (f : A → Io B)
    → ((a : A) → Ends Anything post (f a))
    → Ends Anything post (m >>= f)
Ends-after post m f ef = Ends-bind Anything (λ _ _. Unit) post m f (Ends-any Anything m) ef

-- The same of a result, which is then no error.
pub Ends-after_lift :
    {A B : Type 0} (post : B → Files → Type 0) (r : Result A) (f : A → Io B)
    → ((a : A) → r ≡ ok a → Ends Anything post (f a))
    → Ends Anything post (lift r >>= f)
Ends-after_lift post r f ef =
    Ends-bind Anything (λ a fs. Unit × (r ≡ ok a)) post (lift r) f (Ends-lift Anything r)
      (λ a. Ends-with Anything (r ≡ ok a) post (f a) (ef a))

pub Ends-to :
    {A : Type 0} (pre : Files → Type 0) (post post' : A → Files → Type 0) (m : Io A)
    → ((a : A) (fs : Files) → post a fs → post' a fs)
    → Ends pre post m
    → Ends pre post' m
Ends-to {A = A} pre post post' m h e = record { at = λ d p. go (m d).0 (m d).1.files (e.at d p) }
  where
    go : (r : Outcome A) (fs : Files) → Gives post r fs → Gives post' r fs
    go (done a) fs g = h a fs g
    go (failed x) fs g = tt
    go crashed fs g = tt
