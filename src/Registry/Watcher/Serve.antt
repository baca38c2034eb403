-- ===== src/Registry/Watcher/Serve.antt =====
-- What a turn of `Run` in internal/registry/watcher.go records, in memory and on the disk.
use edge_delta_lab.Prelude.{
  ℕ, ◌≡◌, ◌≢◌, ◌⊎◌, inl, inr, refl, sym, ap, ◌∙◌, String, Bool, true, false, some, List, [], ◌∷◌,
  arith, Result, ok, str_eq, eq_iff, eq_refl, Result-cases, if◌then◌else◌, Bool-cases, Has, All-at,
}
use edge_delta_lab.Prelude.Int.{ℤ, pos, ◌≤ℤ◌, add64, wrap64, ◌+ℤ◌}
use edge_delta_lab.Prelude.Dict.{Dict, lookup, insert, lookup-insert}
use edge_delta_lab.Lab.Storage.{Disk, Outcome, done, failed, crashed, atomic_write}
use edge_delta_lab.Lab.Storage.Atomic.{atomic_write_lem}
use edge_delta_lab.Registry.Watcher.Poll.{Wanted, poll_once_lem}
use edge_delta_lab.Registry.Watcher.{
  Answers, Config, PublishRequest, Engine, Watcher, state_key, load_state, loaded, acknowledge,
  acknowledged, serve, next_backoff, go_on, poll_once,
}

-- JSON gives back the digests that were written.
pub record DigestsLaw (lib : Engine) : Type 0 where
  pub round_trip : (m : Dict String) → lib.unmarshal (lib.marshal m) ≡ ok m

module _ (lib : Engine) (law : DigestsLaw lib) (cfg : Config) (temp : String)
    (own : cfg.state_file ≢ temp) where
  -- A new watcher started on the disk has the digests that memory has.
  abbrev pub IsDurable : Watcher → Disk → Type 0
  IsDurable w d = load_state lib cfg d ≡ ok w.state

  acknowledge-IsDurable :
      (w : Watcher) (req : PublishRequest) (d : Disk)
      → (acknowledge lib cfg temp w req d).0 ≡ done tt
      → ((k : String)
          → lookup k (acknowledge lib cfg temp w req d).1.state
            ≡ (if str_eq (state_key req.repo req.tag) k then some req.digest else lookup k w.state))
        × IsDurable (acknowledge lib cfg temp w req d).1 (acknowledge lib cfg temp w req d).2
  unfolding acknowledge acknowledged load_state loaded
  acknowledge-IsDurable w req d =
      recorded (atomic_write temp cfg.state_file (lib.marshal digests) d)
        ((atomic_write_lem temp cfg.state_file (lib.marshal digests) d own).2)
    where
      digests : Dict String
      digests = insert (state_key req.repo req.tag) req.digest w.state

      recorded :
          (r : Outcome (Unit {0}) × Disk)
          → (r.0 ≡ done tt → lookup cfg.state_file r.1.files ≡ some (lib.marshal digests))
          → (acknowledged w digests r).0 ≡ done tt
          → ((k : String)
              → lookup k (acknowledged w digests r).1.state ≡ (
                  if str_eq (state_key req.repo req.tag) k
                  then some req.digest
                  else lookup k w.state))
            × IsDurable (acknowledged w digests r).1 (acknowledged w digests r).2
      recorded (done u, d') h e = (
        λ k. lookup-insert (state_key req.repo req.tag) k req.digest w.state,
        rw (h refl) (law.round_trip digests),
      )
      recorded (failed f, d') h e = ground (arith, e)
      recorded (crashed, d') h e = ground (arith, e)

  -- After a request is acknowledged without an error, memory and disk both have its digest and the
  -- digests of the other tags that memory had, and the request is not made again by the next scan: whatever the registry
  -- answers and whatever is watched, the scan does not emit the same digest of the tag.
  pub acknowledge_lem :
      (w : Watcher) (req : PublishRequest) (d : Disk)
      → (acknowledge lib cfg temp w req d).0 ≡ done tt
      → ((k : String)
          → lookup k (acknowledge lib cfg temp w req d).1.state
            ≡ (if str_eq (state_key req.repo req.tag) k then some req.digest else lookup k w.state))
        × IsDurable (acknowledge lib cfg temp w req d).1 (acknowledge lib cfg temp w req d).2
        × ((a : Answers) (cfg' : Config)
            → ¬ Has req (poll_once lib cfg' a (acknowledge lib cfg temp w req d).1).0)
  acknowledge_lem w req d e =
      let r = acknowledge-IsDurable w req d e in
      let w' = (acknowledge lib cfg temp w req d).1 in
      (
        r.0,
        r.1,
        λ a cfg' m.
            let wanted = All-at (Wanted lib a w' cfg'.repos) _ (poll_once_lem lib a w' cfg').0 m in
            wanted.tag.fresh (r.0 (state_key req.repo req.tag) ∙ rw eq_refl refl),
      )

  module _ (Good : String → String → Type 0) where
    -- Every digest of the state is good for its tag.
    abbrev pub AllGood : Dict String → Type 0
    AllGood m = (k v : String) → lookup k m ≡ some v → Good k v

    -- So it is in memory, and in what a new watcher reads.
    pub record OnlyGood (w : Watcher) (d : Disk) : Type 0 where
      pub memory : AllGood w.state
      pub disk : (m : Dict String) → load_state lib cfg d ≡ ok m → AllGood m

    insert-AllGood :
        (k v : String) (m : Dict String) → AllGood m → Good k v → AllGood (insert k v m)
    insert-AllGood k v m h g j u e =
        let found : (if str_eq k j then some v else lookup j m) ≡ some u =
          sym (lookup-insert k j v m) ∙ e in
        elim (Bool-cases (str_eq k j)) [
          | inl c ↦
              let same : k ≡ j = ground (arith, eq_iff k j, c) in
              let value : v ≡ u = ground (arith, c, found) in rw (sym same, sym value) g
          | inr c ↦ h j u (ground (arith, c, found))
        ]

    acknowledge-OnlyGood :
        (w : Watcher) (req : PublishRequest) (d : Disk)
        → OnlyGood w d
        → Good (state_key req.repo req.tag) req.digest
        → OnlyGood (acknowledge lib cfg temp w req d).1 (acknowledge lib cfg temp w req d).2
    unfolding acknowledge acknowledged load_state
    acknowledge-OnlyGood w req d h g =
        recorded (atomic_write temp cfg.state_file (lib.marshal digests) d)
          ((atomic_write_lem temp cfg.state_file (lib.marshal digests) d own).0)
      where
        digests : Dict String
        digests = insert (state_key req.repo req.tag) req.digest w.state

        good : AllGood digests
        good = insert-AllGood (state_key req.repo req.tag) req.digest w.state h.memory g

        on_disk :
            (fs : Dict (List ℕ))
            → ((lookup cfg.state_file fs ≡ lookup cfg.state_file d.files)
                ⊎ (lookup cfg.state_file fs ≡ some (lib.marshal digests)))
            → (m : Dict String) → loaded lib (lookup cfg.state_file fs) ≡ ok m
            → AllGood m
        on_disk fs (inl e) m k = h.disk m (ap (loaded lib) (sym e) ∙ k)
        on_disk fs (inr e) m k =
            let read : lib.unmarshal (lib.marshal digests) ≡ ok m = ap (loaded lib) (sym e) ∙ k in
            let same : digests ≡ m = ground (arith, law.round_trip digests, read) in
            rw (sym same) good

        recorded :
            (r : Outcome (Unit {0}) × Disk)
            → ((lookup cfg.state_file r.1.files ≡ lookup cfg.state_file d.files)
                ⊎ (lookup cfg.state_file r.1.files ≡ some (lib.marshal digests)))
            → OnlyGood (acknowledged w digests r).1 (acknowledged w digests r).2
        recorded (done u, d') c = record { memory = good; disk = on_disk d'.files c }
        recorded (failed f, d') c = record { memory = h.memory; disk = on_disk d'.files c }
        recorded (crashed, d') c = record { memory = h.memory; disk = on_disk d'.files c }

    go_on-OnlyGood :
        (rest : Watcher → Disk → Outcome (Unit {0}) × Watcher × Disk)
        (r : Outcome (Unit {0}) × Watcher × Disk)
        → ((w : Watcher) (d : Disk) → OnlyGood w d → OnlyGood (rest w d).1 (rest w d).2)
        → OnlyGood r.1 r.2
        → OnlyGood (go_on rest r).1 (go_on rest r).2
    unfolding go_on
    go_on-OnlyGood rest (done u, w, d) k h = k w d h
    go_on-OnlyGood rest (failed e, w, d) k h = h
    go_on-OnlyGood rest (crashed, w, d) k h = h

    -- However a turn ends, every digest recorded in memory or on the disk is one whose trigger
    -- succeeded, or was recorded before: a turn that fails or stops never records an unpublished
    -- digest.
    pub serve-OnlyGood :
        (trigger : PublishRequest → Result (Unit {0})) (reqs : List PublishRequest) (w : Watcher)
        (d : Disk)
        → ((req : PublishRequest)
            → trigger req ≡ ok tt
            → Good (state_key req.repo req.tag) req.digest)
        → OnlyGood w d
        → OnlyGood (serve lib cfg temp trigger reqs w d).1 (serve lib cfg temp trigger reqs w d).2
    unfolding serve
    serve-OnlyGood trigger [] w d t h = h
    serve-OnlyGood trigger (req ∷ reqs) w d t h = elim (Result-cases (trigger req)) [
      | inl (e, bad) ↦ rw (bad, serve) h
      | inr (u, good) ↦
          rw (good, serve)
            (go_on-OnlyGood (serve lib cfg temp trigger reqs) (acknowledge lib cfg temp w req d)
              (λ w' d' h'. serve-OnlyGood trigger reqs w' d' t h')
              (acknowledge-OnlyGood w req d h (t req good)))
    ]

-- The backoff of `Run` stays between 0 and ten minutes, whatever turns fail, and it is positive after
-- a turn that fails where the poll interval is positive (which a validated configuration has).
pub next_backoff_lem :
    (cfg : Config) (failing : Bool) (backoff : ℤ)
    → pos 1 ≤ℤ cfg.poll
    → pos 0 ≤ℤ backoff
    → backoff ≤ℤ pos 600000000000
    → (pos 0 ≤ℤ next_backoff cfg failing backoff)
      × (next_backoff cfg failing backoff ≤ℤ pos 600000000000)
      × (failing ≡ true → pos 1 ≤ℤ next_backoff cfg failing backoff)
unfolding next_backoff add64 wrap64 ◌+ℤ◌
next_backoff_lem cfg true backoff p l h = ground arith
next_backoff_lem cfg false backoff p l h = ground arith
