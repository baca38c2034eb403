-- ===== src/Lab/Agent/Sync/Integrity.antt =====
-- What `Sync` of internal/lab/agent.go leaves where it reports an artifact.
use edge_delta_lab.Prelude.{
  ℕ, ◌≡◌, ◌≢◌, refl, sym, ap, String, Bool, true, false, Option, some, List, [], ◌∷◌, arith, Result,
  ok, err, str_eq,
}
use edge_delta_lab.Prelude.Dict.{lookup}
use edge_delta_lab.Lab.Manifest.{codes, Chunk, Manifest}
use edge_delta_lab.Lab.Verify.{verify}
use edge_delta_lab.Lab.Object.{cache_path, decode, is_intact}
use edge_delta_lab.Lab.Storage.{Disk, Outcome, done, failed, crashed, ◌>>=◌, succeed, atomic_write}
use edge_delta_lab.Lab.Storage.Atomic.{atomic_write_lem}
use edge_delta_lab.Lab.Storage.Triple.{Files}
use edge_delta_lab.Lab.Agent.{
  State, Summary, AgentOptions, World, Attempt, got, transient, permanent,
}
use edge_delta_lab.Lab.Agent.Sync.{
  assemble_unless, state_path, staged_path, write_state, fetch_chunk, fetch_all, collect, assemble,
  LoadMark, load_archive, load_unless, load_when, archive_valid, deliver, accepted, sync,
  read_state, envelope,
}
use edge_delta_lab.Lab.Agent.Sync.Order.{HasOwnTemp, state-ne-staged}
use edge_delta_lab.Lab.Agent.Sync.Keeps.{
  Keeps, Keeps-succeed, Keeps-fail, Keeps-lift, Keeps-check, Keeps-bind, AtPath,
  AtPath-atomic_write_ne,
}
use edge_delta_lab.Lab.Agent.Sync.Ends.{
  Gives, Ends, Ends-bind, Ends-Keeps, Ends-any, Ends-succeed, Ends-check, Ends-read_file, Ends-with,
  Ends-weaken, Ends-kept, Anything, Ends-after, Ends-after_lift, Ends-to,
}

staged-ne-cache : (sha256 : String) (c : Chunk) → staged_path sha256 ≢ cache_path c
unfolding staged_path cache_path
staged-ne-cache sha256 c e = ground (arith, ap codes e)

module _ (w : World) (own : HasOwnTemp w) (sha256 : String) (Q : Option (List ℕ) → Type 0) where
  abbrev Kept : Files → Type 0
  Kept = AtPath (staged_path sha256) Q

  write_state-Keeps : (s : State) → Keeps Kept (write_state w s)
  unfolding write_state
  write_state-Keeps s =
      AtPath-atomic_write_ne (staged_path sha256) Q w.temp state_path _ (own.not_staged sha256)
        own.not_state (λ e. state-ne-staged sha256 (sym e))

  fetch_chunk-Keeps : (c : Chunk) (as' : List Attempt) → Keeps Kept (fetch_chunk w c as')
  unfolding fetch_chunk
  fetch_chunk-Keeps c [] = Keeps-fail Kept _
  fetch_chunk-Keeps c (permanent e ∷ rest) = Keeps-fail Kept e
  fetch_chunk-Keeps c (transient e ∷ rest) = fetch_chunk-Keeps c rest
  fetch_chunk-Keeps c (got b ∷ rest) = decoded (decode w.os b c) (fetch_chunk-Keeps c rest)
    where
      decoded :
          (r : Result (List ℕ))
          → Keeps Kept (fetch_chunk w c rest)
          → Keeps Kept (elim r [
            | err e ↦ fetch_chunk w c rest
            | ok raw ↦ atomic_write w.temp (cache_path c) raw
          ])
      decoded (err e) k = k
      decoded (ok raw) k =
          AtPath-atomic_write_ne (staged_path sha256) Q w.temp (cache_path c) raw
            (own.not_staged sha256) (own.not_cache c) (staged-ne-cache sha256 c)

  fetch_all-Keeps : (cs : List Chunk) → Keeps Kept (fetch_all w cs)
  unfolding fetch_all
  fetch_all-Keeps [] = Keeps-succeed Kept tt
  fetch_all-Keeps (c ∷ cs) =
      Keeps-bind Kept _ _ (fetch_chunk-Keeps c (w.attempts c)) (λ _. fetch_all-Keeps cs)

  load_unless-Keeps :
      (b : Bool) (m : Manifest) (digest : String) (s : State)
      → Keeps Kept (load_unless w b m digest s)
  unfolding load_unless load_archive
  load_unless-Keeps true m digest s = Keeps-succeed Kept _
  load_unless-Keeps false m digest s = Keeps-bind Kept _ _ (write_state-Keeps _) λ _.
      Keeps-bind Kept _ _ (Keeps-lift Kept (w.load_image (staged_path m.artifact_sha256))) λ report.
        Keeps-bind Kept _ _ (Keeps-lift Kept (w.prove_loaded report m.image_ids))
          λ _. Keeps-succeed Kept _

  load_when-Keeps :
      (b : Bool) (m : Manifest) (digest : String) (s : State)
      → Keeps Kept (load_when w b m digest s)
  unfolding load_when
  load_when-Keeps false m digest s = Keeps-succeed Kept _
  load_when-Keeps true m digest s =
      Keeps-bind Kept _ _ (Keeps-check Kept _ _)
        λ _. load_unless-Keeps (str_eq s.loaded_manifest_sha256 digest) m digest s

-- A write that succeeds leaves the bytes.
atomic_write-Ends :
    (tmp path : String) (bytes : List ℕ) (Q : Option (List ℕ) → Type 0)
    → path ≢ tmp
    → Q (some bytes)
    → Ends (λ _. Unit) (λ _ fs. Q (lookup path fs)) (atomic_write tmp path bytes)
atomic_write-Ends tmp path bytes Q ne q = record {
  at = λ d p.
      go (atomic_write tmp path bytes d).0 (atomic_write tmp path bytes d).1.files
        ((atomic_write_lem tmp path bytes d ne).2);
}
  where
    go :
        (r : Outcome (Unit {0})) (fs : Files)
        → (r ≡ done tt → lookup path fs ≡ some bytes)
        → Gives (λ _ fs. Q (lookup path fs)) r fs
    go (done t) fs h = rw (h refl) q
    go (failed e) fs h = tt
    go crashed fs h = tt

module _ (w : World) (m : Manifest) where
  -- The staged file has the signed size and digest.
  abbrev pub Intact : Option (List ℕ) → Type 0
  Intact b = archive_valid w m b ≡ true

  abbrev Staged : Files → Type 0
  Staged = AtPath (staged_path m.artifact_sha256) Intact

  -- The result names the staged file with what was signed for it, and the file is that.
  abbrev pub IsDelivered : Summary → Files → Type 0
  IsDelivered s fs =
      (s.artifact_sha256 ≡ m.artifact_sha256)
      × (s.artifact_bytes ≡ m.artifact_size)
      × Intact (lookup s.artifact fs)

module _ (w : World) (own : HasOwnTemp w) (m : Manifest) where
  assemble-Ends :
      Ends (λ _. Unit) (λ _ fs. Staged w m fs) (assemble w m (staged_path m.artifact_sha256))
  unfolding assemble archive_valid
  assemble-Ends =
      Ends-bind (λ _. Unit) (λ _ _. Unit) _ _ _ (Ends-any (λ _. Unit) (collect w m.chunks))
        (λ bytes.
          Ends-bind (λ _. Unit)
            (λ _ _. Unit × (is_intact w.os bytes m.artifact_size m.artifact_sha256 ≡ true)) _ _ _
            (Ends-check (λ _. Unit) _ _)
            (λ _.
              Ends-with (λ _. Unit) _ _ _
                (λ q.
                  atomic_write-Ends w.temp (staged_path m.artifact_sha256) bytes (Intact w m)
                    (own.not_staged m.artifact_sha256) q)))

  -- The archive is there, or it is assembled.
  assemble_unless-Ends :
      (valid : Bool)
      → Ends
          (λ fs. valid ≡ true → Staged w m fs)
          (λ _ fs. Staged w m fs)
          (assemble_unless w valid m)
  unfolding assemble_unless
  assemble_unless-Ends true = Ends-succeed _ _ tt (λ fs h. h refl)
  assemble_unless-Ends false = record { at = λ d p. assemble-Ends.at d tt }

  -- Once the archive is staged, the rest of the run keeps it.
  finish-Ends :
      (o : AgentOptions) (digest : String) (s : State) (summary : LoadMark → Summary)
      → ((mark : LoadMark)
          → ((summary mark).artifact ≡ staged_path m.artifact_sha256)
            × ((summary mark).artifact_sha256 ≡ m.artifact_sha256)
            × ((summary mark).artifact_bytes ≡ m.artifact_size))
      → Ends (Staged w m) (IsDelivered w m) (
          load_when w o.docker_load m digest s >>= λ mark.
          write_state w
            (record s { loaded_manifest_sha256 = mark.loaded_manifest_sha256; phase = mark.phase })
          >>= λ _. succeed (summary mark))
  finish-Ends o digest s summary names =
      Ends-bind (Staged w m) (λ _ fs. Staged w m fs) (IsDelivered w m) _ _
        (Ends-Keeps (Staged w m) _
          (load_when-Keeps w own m.artifact_sha256 (Intact w m) o.docker_load m digest s))
        (λ mark.
          Ends-bind (Staged w m) (λ _ fs. Staged w m fs) (IsDelivered w m) _ _
            (Ends-Keeps (Staged w m) _ (write_state-Keeps w own m.artifact_sha256 (Intact w m) _))
            (λ _.
              Ends-succeed (Staged w m) (IsDelivered w m) (summary mark)
                (λ fs h. let n = names mark in (n.1, n.2, rw n.0 h))))

  deliver-Ends :
      (o : AgentOptions) (digest : String) (s : State)
      → Ends (λ _. Unit) (IsDelivered w m) (deliver w o m digest s)
  unfolding deliver
  deliver-Ends o digest s =
      let post = IsDelivered w m in
      let any : Files → Type 0 = λ _. Unit in
      Ends-bind any (λ _ _. Unit) post _ _ (Ends-any any _)
        λ missing.
          Ends-bind any (λ _ _. Unit) post _ _ (Ends-any any _)
            λ _.
              Ends-bind any (λ old fs. Unit × (lookup (staged_path m.artifact_sha256) fs ≡ old))
                post _ _ (Ends-read_file any (staged_path m.artifact_sha256))
                λ old.
                  let Q : Option (List ℕ) → Type 0 =
                    λ b. archive_valid w m old ≡ true → Intact w m b in
                  let P : Files → Type 0 = AtPath (staged_path m.artifact_sha256) Q in
                  Ends-weaken _ P post _ (λ fs h valid. rw h.1 valid)
                    (Ends-kept P post _ _ (Keeps-lift P w.available) λ free.
                      Ends-kept P post _ _ (Keeps-check P _ _) λ _.
                        Ends-kept P post _ _ (write_state-Keeps w own m.artifact_sha256 Q _) λ _.
                          Ends-kept P post _ _ (fetch_all-Keeps w own m.artifact_sha256 Q missing)
                            λ _.
                              Ends-kept P post _ _ (write_state-Keeps w own m.artifact_sha256 Q _)
                                λ _.
                                  Ends-bind P (λ _ fs. Staged w m fs) post _ _
                                    (assemble_unless-Ends (archive_valid w m old))
                                    λ _. finish-Ends o digest s _ (λ mark. (refl, refl, refl)))

-- Of the envelope that `Sync` took nothing but its signature counts.
abbrev pub IsSigned : World → AgentOptions → Manifest → Type 0
IsSigned w o m =
    (key bytes : List ℕ) × (digest : String) × (w.pub_key ≡ ok key)
    × (verify w.os bytes key o.max_artifact ≡ ok (m, digest))

accepted-Ends :
    (w : World) (o : AgentOptions)
    → HasOwnTemp w
    → (old : State) (bytes : List ℕ) (m : Manifest) (digest : String)
    → Ends Anything (IsDelivered w m) (accepted w o old bytes m digest)
unfolding accepted
accepted-Ends w o own old bytes m digest = Ends-after (IsDelivered w m) _ _ λ _.
    Ends-after (IsDelivered w m) _ _
      λ _. Ends-after (IsDelivered w m) _ _ λ _. deliver-Ends w own m o digest _

sync-Ends :
    (w : World) (o : AgentOptions)
    → HasOwnTemp w
    → Ends Anything
        (λ summary fs. (m : Manifest) × IsSigned w o m × IsDelivered w m summary fs)
        (sync w o)
unfolding sync
sync-Ends w o own =
    let post : Summary → Files → Type 0 =
      λ summary fs. (m : Manifest) × IsSigned w o m × IsDelivered w m summary fs in
    Ends-after post _ _ λ _. Ends-after post _ _ λ _. Ends-after post _ _ λ _.
      Ends-after_lift post w.pub_key _ λ key key_e. Ends-after post (read_state w) _ λ old.
        Ends-after post (envelope w o old key) _ λ bytes.
          Ends-after_lift post (verify w.os bytes key o.max_artifact) _ λ v verify_e.
            Ends-to Anything (IsDelivered w v.0) post (accepted w o old bytes v.0 v.1)
              (λ summary fs h. (v.0, (key, bytes, v.1, key_e, verify_e), h))
              (accepted-Ends w o own old bytes v.0 v.1)

-- Where `Sync` returns a summary, there is a manifest that `Verify` accepted under the agent's key, the
-- summary has the size and the digest signed in it, and the file that the summary names is there with just
-- that size and digest, whichever chunks were downloaded, cached or already assembled. The temporary file
-- has a name of its own.
pub sync-IsDelivered :
    (w : World) (o : AgentOptions) (d : Disk) (summary : Summary)
    → HasOwnTemp w
    → (sync w o d).0 ≡ done summary
    → (m : Manifest) × IsSigned w o m × IsDelivered w m summary (sync w o d).1.files
sync-IsDelivered w o d summary own h =
    given (sync w o d).0 (sync w o d).1.files ((sync-Ends w o own).at d tt) h
  where
    given :
        (r : Outcome Summary) (fs : Files)
        → Gives (λ summary fs. (m : Manifest) × IsSigned w o m × IsDelivered w m summary fs) r fs
        → r ≡ done summary
        → (m : Manifest) × IsSigned w o m × IsDelivered w m summary fs
    given (done s) fs g e = let same : s ≡ summary = ground (arith, e) in rw⁻¹ same g
    given (failed x) fs g e = ground (arith, e)
    given crashed fs g e = ground (arith, e)
