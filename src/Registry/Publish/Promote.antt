-- ===== src/Registry/Publish/Promote.antt =====
-- What `promote` and `nextSequence` of internal/registry/publish.go do to their files.
use edge_delta_lab.Prelude.{
  ℕ, ◌+◌, ◌%◌, ◌^◌, ◌<◌, ◌≡◌, ◌≢◌, ◌⊎◌, inl, inr, refl, sym, String, Bool, true, false, Option,
  some, List, arith, ok, Bool-cases, ltb, ◌==◌,
}
use edge_delta_lab.Prelude.Dict.{lookup}
use edge_delta_lab.Lab.Manifest.{Manifest, Platform}
use edge_delta_lab.Lab.Verify.{verify, codes_eq}
use edge_delta_lab.Lab.Storage.{Disk, Outcome, done, failed, crashed, ◌>>=◌, succeed, atomic_write}
use edge_delta_lab.Lab.Storage.Atomic.{atomic_write_lem}
use edge_delta_lab.Lab.Agent.Sync.{lift, check, read_file}
use edge_delta_lab.Lab.Agent.Sync.Keeps.{
  Keeps, Keeps-succeed, Keeps-fail, Keeps-bind-lift, Keeps-if, AtPath, AtPath-atomic_write,
}
use edge_delta_lab.Registry.Publish.{
  Decimal, scanned, next_sequence, channel_path, max_release, promote_over, promote_current,
  promote_to, promote,
}

module _ (os : Platform) (key : List ℕ) (current envelope : List ℕ) where
  -- `b` is `current` still, or `envelope` with a higher sequence; both are signed.
  abbrev pub IsForward : Option (List ℕ) → Type 0
  IsForward b =
      (b ≡ some current)
      ⊎ ((b ≡ some envelope)
          × (old next : Manifest × String) × (verify os current key max_release ≡ ok old)
          × (verify os envelope key max_release ≡ ok next)
          × (old.0.sequence < next.0.sequence))

  promote_over-Keeps :
      (temp path : String) (old next : Manifest × String)
      → path ≢ temp
      → verify os current key max_release ≡ ok old
      → verify os envelope key max_release ≡ ok next
      → Keeps
          (AtPath path IsForward)
          (promote_over temp path envelope old.0.sequence next.0.sequence)
  unfolding promote_over
  promote_over-Keeps temp path old next ne vo vn =
      Keeps-if _ (ltb next.0.sequence old.0.sequence) _ _ (λ _. Keeps-succeed _ tt)
        λ above.
          Keeps-if _ (old.0.sequence == next.0.sequence) _ _ (λ _. Keeps-fail _ _)
            λ differ.
              AtPath-atomic_write path IsForward temp envelope ne
                (inr (refl, old, next, vo, vn, ground (arith, above, differ)))

  promote_current-Keeps :
      (temp path : String) (same : Bool)
      → path ≢ temp
      → Keeps (AtPath path IsForward) (promote_current os (ok key) temp path envelope same current)
  unfolding promote_current
  promote_current-Keeps temp path true ne = Keeps-succeed _ tt
  promote_current-Keeps temp path false ne = Keeps-bind-lift _ (ok key) _ λ k ek.
      Keeps-bind-lift _ (verify os current k max_release) _ λ old vo.
        Keeps-bind-lift _ (verify os envelope k max_release) _ λ next vn.
          let same : key ≡ k = ground (arith, ek) in
          promote_over-Keeps temp path old next ne (rw same vo) (rw same vn)

-- However a promotion ends, the channel has the envelope that it had, or the promoted one, and then
-- both are signed by the key and the sequence of the promoted one is higher: a channel never goes
-- back and never changes its release under the same sequence.
pub promote_lem :
    (os : Platform) (key : List ℕ) (temp channel : String) (current envelope : List ℕ) (d : Disk)
    → channel_path channel ≢ temp
    → lookup (channel_path channel) d.files ≡ some current
    → IsForward os key current envelope
        (lookup (channel_path channel) (promote os (ok key) temp channel envelope d).1.files)
unfolding promote read_file promote_to ◌>>=◌
promote_lem os key temp channel current envelope d ne h = rw h (
    (promote_current-Keeps os key current envelope temp (channel_path channel)
        (codes_eq current envelope) ne).at
      d (inl h))

then-done :
    (r : Outcome (Unit {0}) × Disk) (n k : ℕ)
    → ((◌>>=◌ (λ _. r) (λ _. succeed n) r.1).1.files ≡ r.1.files)
      × ((◌>>=◌ (λ _. r) (λ _. succeed n) r.1).0 ≡ done k → (r.0 ≡ done tt) × (n ≡ k))
unfolding ◌>>=◌ succeed
then-done (done tt, d) n k = (refl, λ e. (refl, ground (arith, e)))
then-done (failed f, d) n k = (refl, λ e. ground (arith, e))
then-done (crashed, d) n k = (refl, λ e. ground (arith, e))

-- However the allocation of a sequence ends, the file holds what it held or the next number; a
-- number that is returned is the next one, fits in 64 bits, and is in the file. A file with the
-- last number gives an error.
pub next_sequence_lem :
    (f : Decimal) (temp path : String) (seq : ℕ) (d : Disk)
    → path ≢ temp
    → seq < 2 ^ 64
    → scanned f (lookup path d.files) ≡ ok seq
    → ((lookup path (next_sequence f temp path d).1.files ≡ lookup path d.files)
        ⊎ (lookup path (next_sequence f temp path d).1.files ≡ some (f.print (seq + 1))))
      × ((n : ℕ)
          → (next_sequence f temp path d).0 ≡ done n
          → (n ≡ seq + 1)
            × (n < 2 ^ 64)
            × (lookup path (next_sequence f temp path d).1.files ≡ some (f.print n)))
unfolding next_sequence read_file lift check ◌>>=◌
next_sequence_lem f temp path seq d ne b e = elim (Bool-cases ((seq + 1) % 2 ^ 64 == 0)) [
  | inl last ↦ rw (e, last) (inl refl, λ n k. ground (arith, k))
  | inr more ↦
      let fits : (seq + 1) % 2 ^ 64 ≡ seq + 1 = ground (arith, more) in
      let bound : seq + 1 < 2 ^ 64 = ground (arith, more) in
      let stored = atomic_write_lem temp path (f.print (seq + 1)) d ne in
      let rest = then-done (atomic_write temp path (f.print (seq + 1)) d) (seq + 1) in
      rw (e, more, fits)
        (
          rw (rest 0).0 stored.0,
          λ n k.
              let both = (rest n).1 k in
              (sym both.1, rw (sym both.1) bound, rw ((rest 0).0, sym both.1) (stored.2 both.0)),
        )
]
