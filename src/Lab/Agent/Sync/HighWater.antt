-- ===== src/Lab/Agent/Sync/HighWater.antt =====
-- What every part of `Sync` (agent.go) does to the state file.
use edge_delta_lab.Prelude.{
  ℕ, ◌≡◌, ◌≢◌, ◌∙◌, refl, sym, String, Bool, true, false, Option, none, some, List, [], ◌∷◌, ◌++◌,
  arith, if◌then◌else◌, Result, ok, err, str_eq,
}
use edge_delta_lab.Prelude.Dict.{lookup}
use edge_delta_lab.Lab.Manifest.{Chunk, Manifest}
use edge_delta_lab.Lab.Verify.{verify}
use edge_delta_lab.Lab.Object.{cache_path, unique, decode}
use edge_delta_lab.Lab.Storage.{Disk, done, ◌>>=◌, atomic_write}
use edge_delta_lab.Lab.Storage.Triple.{Files}
use edge_delta_lab.Lab.Agent.{
  State, AgentOptions, World, Fetched, body, not_modified, lost, Attempt, got, transient, permanent,
  admit,
}
use edge_delta_lab.Lab.Agent.Sync.{
  lift, valid_cached, assemble_unless, read_file, state_path, manifest_path, staged_path, state_of,
  read_state, write_state, envelope, offline_envelope, online_envelope, cached_envelope,
  fetched_envelope, revalidated, etag_of, missing_chunks, fetch_chunk, fetch_all, collect, assemble,
  load_archive, load_unless, load_when, deliver, planned, accepted, sync,
}
use edge_delta_lab.Lab.Agent.Sync.Order.{
  StateLaw, HasOwnTemp, AtLeast, AtLeast-refl, AtLeast-trans, admit-AtLeast, state-ne-manifest,
  state-ne-cache, state-ne-staged,
}
use edge_delta_lab.Lab.Agent.Sync.Keeps.{
  Keeps, Keeps-succeed, Keeps-fail, Keeps-lift, Keeps-check, Keeps-read_file, Keeps-or_missing,
  Keeps-if, Keeps-bind, Keeps-bind-lift, Keeps-bind-result, AtPath, AtPath-atomic_write,
  AtPath-atomic_write_ne, AtPath-clean_temps,
}

module _ (w : World) (law : StateLaw w) (own : HasOwnTemp w) (old : State) where
  -- The state on the disk is readable and not behind `old`.
  abbrev pub NotBehind : Option (List ℕ) → Type 0
  NotBehind b = (s : State) × (state_of w b ≡ ok s) × AtLeast old s

  abbrev Kept : Files → Type 0
  Kept = AtPath state_path NotBehind

  write_state-Keeps : (s : State) → AtLeast old s → Keeps Kept (write_state w s)
  unfolding write_state state_of
  write_state-Keeps s h = AtPath-atomic_write state_path NotBehind w.temp _ own.not_state (
    record s { updated = w.now },
    law.round_trip (record s { updated = w.now }),
    record { sequence = h.sequence; same = h.same },
  )

  other-Keeps :
      (path : String) (bytes : List ℕ)
      → path ≢ w.temp
      → state_path ≢ path
      → Keeps Kept (atomic_write w.temp path bytes)
  other-Keeps path bytes temp ne =
      AtPath-atomic_write_ne state_path NotBehind w.temp path bytes own.not_state temp ne

  fetch_chunk-Keeps : (c : Chunk) (as' : List Attempt) → Keeps Kept (fetch_chunk w c as')
  unfolding fetch_chunk
  fetch_chunk-Keeps c [] = Keeps-fail Kept _
  fetch_chunk-Keeps c (permanent e ∷ rest) = Keeps-fail Kept e
  fetch_chunk-Keeps c (transient e ∷ rest) = fetch_chunk-Keeps c rest
  fetch_chunk-Keeps c (got b ∷ rest) = decoded (decode w.os b c) (fetch_chunk-Keeps c rest)
    where
      decoded :
          (r : Result (List ℕ))
          → Keeps Kept (fetch_chunk w c rest)
          → Keeps Kept (elim r [
            | err e ↦ fetch_chunk w c rest
            | ok raw ↦ atomic_write w.temp (cache_path c) raw
          ])
      decoded (err e) k = k
      decoded (ok raw) k = other-Keeps (cache_path c) raw (own.not_cache c) (state-ne-cache c)

  fetch_all-Keeps : (cs : List Chunk) → Keeps Kept (fetch_all w cs)
  unfolding fetch_all
  fetch_all-Keeps [] = Keeps-succeed Kept tt
  fetch_all-Keeps (c ∷ cs) =
      Keeps-bind Kept _ _ (fetch_chunk-Keeps c (w.attempts c)) (λ _. fetch_all-Keeps cs)

  missing_chunks-Keeps : (cs : List Chunk) → Keeps Kept (missing_chunks w cs)
  unfolding missing_chunks
  missing_chunks-Keeps [] = Keeps-succeed Kept []
  missing_chunks-Keeps (c ∷ cs) = Keeps-bind Kept _ _ (Keeps-read_file Kept (cache_path c)) λ b.
      Keeps-bind Kept _ _ (missing_chunks-Keeps cs)
        λ rest. Keeps-succeed Kept (if valid_cached w c b then rest else c ∷ rest)

  collect-Keeps : (cs : List Chunk) → Keeps Kept (collect w cs)
  unfolding collect
  collect-Keeps [] = Keeps-succeed Kept []
  collect-Keeps (c ∷ cs) = Keeps-bind Kept _ _ (Keeps-read_file Kept (cache_path c)) λ b.
      Keeps-bind Kept _ _ (Keeps-or_missing Kept _ b) λ raw.
        Keeps-bind Kept _ _ (Keeps-check Kept _ _)
          λ _. Keeps-bind Kept _ _ (collect-Keeps cs) λ rest. Keeps-succeed Kept (raw ++ rest)

  assemble-Keeps : (m : Manifest) → Keeps Kept (assemble w m (staged_path m.artifact_sha256))
  unfolding assemble
  assemble-Keeps m = Keeps-bind Kept _ _ (collect-Keeps m.chunks) λ bytes.
      Keeps-bind Kept _ _ (Keeps-check Kept _ _) λ _.
        other-Keeps (staged_path m.artifact_sha256) bytes (own.not_staged m.artifact_sha256)
          (state-ne-staged m.artifact_sha256)

  offline-Keeps : (o : AgentOptions) (s : State) → Keeps Kept (offline_envelope w o s)
  unfolding offline_envelope cached_envelope
  offline-Keeps o s = Keeps-bind Kept _ _ (Keeps-check Kept _ _) λ _.
      Keeps-bind Kept _ _ (Keeps-check Kept _ _) λ _.
        Keeps-bind Kept _ _ (Keeps-read_file Kept (manifest_path s.manifest_sha256))
          λ b. Keeps-or_missing Kept "open manifest" b

  fetched-Keeps :
      (cached : Option (List ℕ)) (f : Fetched) → Keeps Kept (fetched_envelope w cached f)
  unfolding fetched_envelope
  fetched-Keeps none (body b) = Keeps-succeed Kept b
  fetched-Keeps none not_modified = Keeps-fail Kept "not modified"
  fetched-Keeps none (lost e) = Keeps-fail Kept e
  fetched-Keeps (some c) (body b) = Keeps-succeed Kept b
  fetched-Keeps (some c) not_modified = Keeps-succeed Kept c
  fetched-Keeps (some c) (lost e) = Keeps-fail Kept e

  online-Keeps :
      (o : AgentOptions) (s : State) (key : List ℕ) → Keeps Kept (online_envelope w o s key)
  unfolding online_envelope
  online-Keeps o s key = Keeps-bind Kept _ _ (Keeps-lift Kept _) λ _.
      Keeps-bind Kept _ _ (Keeps-lift Kept _) λ _.
        Keeps-bind Kept _ _ (Keeps-read_file Kept (manifest_path s.manifest_sha256)) λ b.
          fetched-Keeps (revalidated w o s key b) (w.fetch (etag_of w (revalidated w o s key b)))

  load_archive-Keeps :
      (m : Manifest) (digest : String) (s : State)
      → AtLeast old s
      → Keeps Kept (load_archive w m digest s)
  unfolding load_archive
  load_archive-Keeps m digest s h =
      Keeps-bind Kept _ _
        (write_state-Keeps (record s { loaded_manifest_sha256 = ""; phase = "loading" })
          (record { sequence = h.sequence; same = h.same }))
        λ _.
          Keeps-bind Kept _ _ (Keeps-lift Kept (w.load_image (staged_path m.artifact_sha256)))
            λ report.
              Keeps-bind Kept _ _ (Keeps-lift Kept (w.prove_loaded report m.image_ids)) λ _.
                Keeps-succeed Kept (record { loaded_manifest_sha256 = digest; phase = "loaded" })

  load_unless-Keeps :
      (b : Bool) (m : Manifest) (digest : String) (s : State)
      → AtLeast old s
      → Keeps Kept (load_unless w b m digest s)
  unfolding load_unless
  load_unless-Keeps true m digest s h = Keeps-succeed Kept _
  load_unless-Keeps false m digest s h = load_archive-Keeps m digest s h

  load_when-Keeps :
      (b : Bool) (m : Manifest) (digest : String) (s : State)
      → AtLeast old s
      → Keeps Kept (load_when w b m digest s)
  unfolding load_when
  load_when-Keeps false m digest s h = Keeps-succeed Kept _
  load_when-Keeps true m digest s h =
      Keeps-bind Kept _ _ (Keeps-check Kept _ _)
        λ _. load_unless-Keeps (str_eq s.loaded_manifest_sha256 digest) m digest s h

  assemble_unless-Keeps : (b : Bool) (m : Manifest) → Keeps Kept (assemble_unless w b m)
  unfolding assemble_unless
  assemble_unless-Keeps true m = Keeps-succeed Kept tt
  assemble_unless-Keeps false m = assemble-Keeps m

  deliver-Keeps :
      (o : AgentOptions) (m : Manifest) (digest : String) (s : State)
      → AtLeast old s
      → Keeps Kept (deliver w o m digest s)
  unfolding deliver
  deliver-Keeps o m digest s h = Keeps-bind Kept _ _ (missing_chunks-Keeps (unique m)) λ missing.
      Keeps-bind Kept _ _ (Keeps-check Kept _ _) λ _.
        Keeps-bind Kept _ _ (Keeps-read_file Kept (staged_path m.artifact_sha256)) λ archive.
          Keeps-bind Kept _ _ (Keeps-lift Kept w.available) λ free.
            Keeps-bind Kept _ _ (Keeps-check Kept _ _) λ _.
              Keeps-bind Kept _ _ (write_state-Keeps (record s { phase = "fetching" }) (marked _ _))
                λ _. Keeps-bind Kept _ _ (fetch_all-Keeps missing) λ _.
                  Keeps-bind Kept _ _
                    (write_state-Keeps (record s { phase = "assembling" }) (marked _ _))
                    λ _. Keeps-bind Kept _ _ (assemble_unless-Keeps _ m) λ _.
                      Keeps-bind Kept _ _ (load_when-Keeps o.docker_load m digest s h) λ mark.
                        Keeps-bind Kept _ _
                          (write_state-Keeps _ (marked mark.loaded_manifest_sha256 mark.phase))
                          λ _. Keeps-succeed Kept _
    where
      marked : (l p : String) → AtLeast old (record s { loaded_manifest_sha256 = l; phase = p })
      marked l p = record { sequence = h.sequence; same = h.same }

  lift-done : {A : Type 0} (r : Result A) (d : Disk) (a : A) → (lift r d).0 ≡ done a → r ≡ ok a
  unfolding lift
  lift-done (ok b) d a e = ground (arith, e)
  lift-done (err f) d a e = ground (arith, e)

  read_state-AtLeast :
      (d : Disk) (s : State) → Kept d.files → (read_state w d).0 ≡ done s → AtLeast old s
  unfolding read_state read_file ◌>>=◌
  read_state-AtLeast d s k e =
      let same : ok k.0 ≡ ok s =
        sym k.1 ∙ lift-done (state_of w (lookup state_path d.files)) d s e in
      let equal : k.0 ≡ s = ground (arith, same) in rw (sym equal) k.2

  read_state-Keeps : Keeps Kept (read_state w)
  unfolding read_state
  read_state-Keeps =
      Keeps-bind Kept _ _ (Keeps-read_file Kept state_path) λ b. Keeps-lift Kept (state_of w b)

  envelope-Keeps : (o : AgentOptions) (s : State) (key : List ℕ) → Keeps Kept (envelope w o s key)
  unfolding envelope
  envelope-Keeps o s key =
      Keeps-if Kept o.offline (offline_envelope w o s) (online_envelope w o s key)
        (λ _. offline-Keeps o s) (λ _. online-Keeps o s key)

  accepted-Keeps :
      (o : AgentOptions) (s : State) (bytes : List ℕ) (m : Manifest) (digest : String)
      → AtLeast old s
      → Keeps Kept (accepted w o s bytes m digest)
  unfolding accepted
  accepted-Keeps o s bytes m digest h = Keeps-bind-lift Kept (admit s m digest) _ λ _ ok_admit.
      let next = planned w (if o.offline then s.manifest_url else o.manifest_url) s m digest in
      let ahead = AtLeast-trans old s next h (admit-AtLeast s next m digest ok_admit refl refl) in
      Keeps-bind Kept _ _
        (other-Keeps (manifest_path digest) bytes (own.not_manifest digest)
          (state-ne-manifest digest))
        λ _.
          Keeps-bind Kept _ _ (write_state-Keeps next ahead)
            λ _. deliver-Keeps o m digest next ahead

  sync-Keeps : (o : AgentOptions) → Keeps Kept (sync w o)
  unfolding sync
  sync-Keeps o = Keeps-bind Kept _ _ (Keeps-check Kept _ _) λ _.
      Keeps-bind Kept _ _ (Keeps-check Kept _ _) λ _.
        Keeps-bind Kept _ _ (AtPath-clean_temps state_path NotBehind w.temp own.not_state) λ _.
          Keeps-bind Kept _ _ (Keeps-lift Kept w.pub_key) λ key.
            Keeps-bind-result Kept (AtLeast old) _ _ read_state-Keeps read_state-AtLeast λ s h.
              Keeps-bind Kept _ _ (envelope-Keeps o s key) λ bytes.
                Keeps-bind Kept _ _ (Keeps-lift Kept (verify w.os bytes key o.max_artifact))
                  λ v. accepted-Keeps o s bytes v.0 v.1 h

-- However a run of `Sync` ends (it returns, fails, or stops at any call of the disk), the state
-- file still reads, and to a state that is not behind the one before the run: its sequence is no
-- lower, and at the same sequence a recorded manifest digest is the same. It is assumed that JSON
-- gives back the states written and that the temporary file has a name of its own.
pub sync-AtLeast :
    (w : World) (o : AgentOptions) (d : Disk) (old : State)
    → StateLaw w
    → HasOwnTemp w
    → state_of w (lookup state_path d.files) ≡ ok old
    → (s : State) × (state_of w (lookup state_path (sync w o d).1.files) ≡ ok s) × AtLeast old s
sync-AtLeast w o d old law own h = (sync-Keeps w law own old o).at d (old, h, AtLeast-refl old)
