-- ===== src/Lab/Publish/Immutable.antt =====
-- `Publish` of internal/lab/publish.go never changes a release that is there and can be read.
use edge_delta_lab.Prelude.{
  ℕ, ◌≡◌, ◌≢◌, refl, sym, ap, ◌∙◌, arith, String, Bool, true, false, Option, some, List, [], ◌∷◌,
}
use edge_delta_lab.Prelude.Dict.{lookup}
use edge_delta_lab.Lab.Manifest.{codes, Chunk, Manifest, Platform}
use edge_delta_lab.Lab.Verify.{codes_eq→eq}
use edge_delta_lab.Lab.Object.{blob_rel, describe}
use edge_delta_lab.Lab.Storage.{Disk, done}
use edge_delta_lab.Lab.Agent.Sync.{check, read_file}
use edge_delta_lab.Lab.Agent.Sync.Keeps.{
  Keeps, Keeps-succeed, Keeps-lift, Keeps-check, Keeps-read_file, Keeps-bind, Keeps-bind-result,
  AtPath, AtPath-atomic_write, AtPath-atomic_write_ne,
}
use edge_delta_lab.Lab.Publish.{
  PublishOptions, release_path, may_write, write_unless, store_chunk, store_chunks, release_of,
  write_release, publish, sign_release, read_release,
}

release-ne-blob : (release : String) (c : Chunk) → release_path release ≢ blob_rel c
unfolding release_path blob_rel
release-ne-blob release c e = ground (arith, ap codes e)

module _ (os : Platform) (temp : String) (release : String) (old : List ℕ)
    (own : release_path release ≢ temp) (own_blob : (c : Chunk) → blob_rel c ≢ temp) where
  abbrev pub IsStill : Option (List ℕ) → Type 0
  IsStill b = b ≡ some old

  write_unless-Keeps :
      (b : Bool) (c : Chunk) (encoded : List ℕ)
      → Keeps (AtPath (release_path release) IsStill) (write_unless os temp b c encoded)
  unfolding write_unless
  write_unless-Keeps true c encoded = Keeps-succeed _ tt
  write_unless-Keeps false c encoded =
      AtPath-atomic_write_ne (release_path release) IsStill temp (blob_rel c) encoded own
        (own_blob c) (release-ne-blob release c)

  store_chunk-Keeps :
      (raw : List ℕ) → Keeps (AtPath (release_path release) IsStill) (store_chunk os temp raw)
  unfolding store_chunk
  store_chunk-Keeps raw = Keeps-bind _ _ _ (Keeps-lift _ _) λ encoded.
      Keeps-bind _ _ _ (Keeps-read_file _ _) λ there.
        Keeps-bind _ _ _ (write_unless-Keeps _ (describe os raw encoded) encoded)
          λ _. Keeps-succeed _ _

  store_chunks-Keeps :
      (raws : List (List ℕ))
      → Keeps (AtPath (release_path release) IsStill) (store_chunks os temp raws)
  unfolding store_chunks
  store_chunks-Keeps [] = Keeps-succeed _ _
  store_chunks-Keeps (raw ∷ raws) =
      Keeps-bind _ _ _ (store_chunk-Keeps raw)
        λ c. Keeps-bind _ _ _ (store_chunks-Keeps raws) λ cs. Keeps-succeed _ _

check-done : (b : Bool) (e : String) (d : Disk) (u : Unit {0}) → (check b e d).0 ≡ done u → b ≡ true
unfolding check
check-done true e d u h = refl
check-done false e d u h = ground (arith, h)

read-IsStill :
    (release : String) (old : List ℕ) (d : Disk) (b : Option (List ℕ))
    → lookup (release_path release) d.files ≡ some old
    → (read_file (release_path release) d).0 ≡ done b
    → b ≡ some old
unfolding read_file
read-IsStill release old d b p e = ground (arith, p, e)

-- The check before the write leaves nothing but the same bytes to write.
may_write-eq :
    (b : Option (List ℕ)) (old envelope : List ℕ)
    → b ≡ some old
    → may_write b envelope ≡ true
    → envelope ≡ old
unfolding may_write
may_write-eq b old envelope still may =
    sym (codes_eq→eq old envelope (ap (λ x. may_write x envelope) (sym still) ∙ may))

write_release-Keeps :
    (os : Platform) (temp : String) (m : Manifest) (key old : List ℕ)
    → release_path m.release ≢ temp
    → Keeps (AtPath (release_path m.release) (λ b. b ≡ some old)) (write_release os temp true m key)
unfolding write_release read_release
write_release-Keeps os temp m key old own = Keeps-bind _ _ _ (Keeps-lift _ _) λ _.
    Keeps-bind-result _ (λ b. b ≡ some old) _ _ (Keeps-read_file _ (release_path m.release))
      (read-IsStill m.release old)
      λ b still.
        Keeps-bind-result _ (λ _. may_write b (sign_release os m key) ≡ true) _ _
          (Keeps-check _ _ _) (λ d u p e. check-done _ _ d u e)
          λ _ may.
            Keeps-bind _ _ _
              (AtPath-atomic_write (release_path m.release) (λ b. b ≡ some old) temp
                (sign_release os m key) own
                (ap some (may_write-eq b old (sign_release os m key) still may)))
              λ _. Keeps-succeed _ m

-- However a publication ends, a release file that was there before and can be read has the envelope that it
-- had, whichever writes fail or stop: publishing other bytes under a release name that is taken fails. It is
-- assumed that temporary files have names of their own. Where the release file cannot be read, the code
-- skips the test and replaces it.
pub publish_immutable :
    (os : Platform) (gear : ℕ → ℕ) (temp : String) (o : PublishOptions) (old : List ℕ) (d : Disk)
    → release_path o.release ≢ temp
    → ((c : Chunk) → blob_rel c ≢ temp)
    → o.readable ≡ true
    → lookup (release_path o.release) d.files ≡ some old
    → lookup (release_path o.release) (publish os temp gear o d).1.files ≡ some old
unfolding publish release_of
publish_immutable os gear temp o old d own own_blob readable h = rw readable (
    (Keeps-bind _ _ _ (Keeps-check _ _ _) λ _. Keeps-bind _ _ _ (Keeps-lift _ o.key) λ key.
        Keeps-bind _ _ _ (Keeps-lift _ o.input) λ input. Keeps-bind _ _ _ (Keeps-lift _ _) λ raws.
          Keeps-bind _ _ _ (store_chunks-Keeps os temp o.release old own own_blob raws)
            λ cs. write_release-Keeps os temp (release_of os temp o input cs) key old own).at
      d h)
