-- ===== src/Lab/Verify/Chunks.antt =====
-- The loop of `Verify` over the chunk descriptors, against what it has to establish.
use edge_delta_lab.Prelude.{
  ℕ, ◌+◌, ◌^◌, ◌≤◌, ◌≡◌, refl, sym, ◌∙◌, String, true, false, some, List, [], ◌∷◌, arith, str_eq,
  eq_iff, eq_refl, ok, All, Bool-cases, Option-cases, inl, inr, ltb→ge,
}
use edge_delta_lab.Prelude.Int.{ℤ, pos, negsuc, pos_part, ltb_ℤ, add64, add64_pos, ◌+ℤ◌, ◌≤ℤ◌}
use edge_delta_lab.Lab.Manifest.{
  hex_digest, Chunk, Manifest, chunk_eq, chunk_eq→eq, max_chunk_bytes,
}
use edge_delta_lab.Lab.Verify.{valid_chunk, seen_chunk, consistent, sum_chunks}

pub record IsChunk (max : ℤ) (c : Chunk) : Type 0 where
  pub raw_digest : hex_digest c.sha256 ≡ true
  pub encoded_digest : hex_digest c.encoded_sha256 ≡ true
  pub positive : pos 1 ≤ℤ c.size
  pub bounded : c.size ≤ℤ max
  pub encoded_positive : pos 1 ≤ℤ c.encoded_size
  pub encoded_bounded : c.encoded_size ≤ℤ max +ℤ pos 65536

-- The sum of the raw sizes, without a wrap-around.
unfoldable pub sum_sizes : List Chunk → ℕ
sum_sizes [] = 0
sum_sizes (c ∷ cs) = pos_part c.size + sum_sizes cs

-- Descriptors of the same content are the same descriptor.
abbrev pub IsConsistent : List Chunk → Type 0
IsConsistent [] = Unit
IsConsistent (c ∷ cs) = All (λ (d : Chunk). c.sha256 ≡ d.sha256 → c ≡ d) cs × IsConsistent cs

-- `c` is the descriptor that `seen` has for its content, if it has one.
abbrev pub Agrees : List Chunk → Chunk → Type 0
Agrees seen c = (old : Chunk) → seen_chunk c.sha256 seen ≡ some old → old ≡ c

valid_chunk→IsChunk : (max : ℤ) (c : Chunk) → valid_chunk max c ≡ true → IsChunk max c
unfolding valid_chunk
valid_chunk→IsChunk max c h = ground arith

IsChunk→valid_chunk : (max : ℤ) (c : Chunk) → IsChunk max c → valid_chunk max c ≡ true
unfolding valid_chunk
IsChunk→valid_chunk max c v = ground arith

chunk_eq_refl : (c : Chunk) → chunk_eq c c ≡ true
unfolding chunk_eq
chunk_eq_refl c = ground (arith, eq_refl c.sha256, eq_refl c.encoded_sha256)

consistent→Agrees : (seen : List Chunk) (c : Chunk) → consistent seen c ≡ true → Agrees seen c
unfolding consistent
consistent→Agrees seen c h old p = chunk_eq→eq old c (ground arith)

Agrees→consistent : (seen : List Chunk) (c : Chunk) → Agrees seen c → consistent seen c ≡ true
unfolding consistent
Agrees→consistent seen c a = elim (Option-cases (seen_chunk c.sha256 seen)) [
  | inl p ↦ rw (p, consistent) refl
  | inr (old, p) ↦ rw (p, consistent) (rw (a old p) (chunk_eq_refl c))
]

seen_same :
    (seen : List Chunk) (c : Chunk) (sha : String)
    → c.sha256 ≡ sha
    → seen_chunk sha (c ∷ seen) ≡ some c
unfolding seen_chunk
seen_same seen c sha e = ground (arith, eq_iff c.sha256 sha)

seen_other :
    (seen : List Chunk) (c : Chunk) (sha : String)
    → str_eq c.sha256 sha ≡ false
    → seen_chunk sha (c ∷ seen) ≡ seen_chunk sha seen
unfolding seen_chunk
seen_other seen c sha e = rw e refl

-- Agreement with `c ∷ seen` is agreement with `seen` and with `c`.
Agrees-tail :
    (seen : List Chunk) (c d : Chunk)
    → Agrees seen c
    → Agrees (c ∷ seen) d
    → Agrees seen d × (c.sha256 ≡ d.sha256 → c ≡ d)
Agrees-tail seen c d ac ad = (
  λ old p. elim (Bool-cases (str_eq c.sha256 d.sha256)) [
    | inl t ↦
        let e = (eq_iff c.sha256 d.sha256).0 t in
        ac old (rw e p) ∙ ad c (seen_same seen c d.sha256 e)
    | inr t ↦ ad old (seen_other seen c d.sha256 t ∙ p)
  ],
  λ e. ad c (seen_same seen c d.sha256 e),
)

Agrees-cons :
    (seen : List Chunk) (c d : Chunk)
    → Agrees seen d
    → (c.sha256 ≡ d.sha256 → c ≡ d)
    → Agrees (c ∷ seen) d
Agrees-cons seen c d ad same old p = elim (Bool-cases (str_eq c.sha256 d.sha256)) [
  | inl t ↦ let e = (eq_iff c.sha256 d.sha256).0 t in cc (p, seen_same seen c d.sha256 e, same e)
  | inr t ↦ ad old (sym (seen_other seen c d.sha256 t) ∙ p)
]

All-tail :
    (seen : List Chunk) (c : Chunk) (cs : List Chunk)
    → Agrees seen c
    → All (Agrees (c ∷ seen)) cs
    → All (Agrees seen) cs × All (λ (d : Chunk). c.sha256 ≡ d.sha256 → c ≡ d) cs
All-tail seen c [] ac as' = (tt, tt)
All-tail seen c (d ∷ cs) ac as' =
    let (a, e) = Agrees-tail seen c d ac as'.0 in
    let (rest, same) = All-tail seen c cs ac as'.1 in ((a, rest), (e, same))

All-cons :
    (seen : List Chunk) (c : Chunk) (cs : List Chunk)
    → All (Agrees seen) cs
    → All (λ (d : Chunk). c.sha256 ≡ d.sha256 → c ≡ d) cs
    → All (Agrees (c ∷ seen)) cs
All-cons seen c [] a same = tt
All-cons seen c (d ∷ cs) a same = (Agrees-cons seen c d a.0 same.0, All-cons seen c cs a.1 same.1)

-- What the loop establishes of the chunks that are left.
pub record Summed (m : Manifest) (seen : List Chunk) (k : ℕ) (cs : List Chunk) (n : ℤ)
    : Type 0 where
  pub chunks : All (IsChunk m.max) cs
  pub agree : All (Agrees seen) cs
  pub consistent_rest : IsConsistent cs
  pub sum : n ≡ pos (k + sum_sizes cs)

add64_size :
    (k : ℕ) (size : ℤ)
    → pos 1 ≤ℤ size
    → size ≤ℤ pos max_chunk_bytes
    → k ≤ 2 ^ 62
    → add64 (pos k) size ≡ pos (k + pos_part size)
add64_size k (pos n) positive small h = add64_pos k n (omega arith)
add64_size k (negsuc n) positive small h = absurd (omega arith)

sum_chunks-inv :
    (m : Manifest) (seen : List Chunk) (k : ℤ) (c : Chunk) (cs : List Chunk) (n : ℤ)
    → sum_chunks m seen k (c ∷ cs) ≡ ok n
    → (valid_chunk m.max c ≡ true)
      × (consistent seen c ≡ true)
      × (ltb_ℤ m.artifact_size (add64 k c.size) ≡ false)
      × (sum_chunks m (c ∷ seen) (add64 k c.size) cs ≡ ok n)
unfolding sum_chunks
sum_chunks-inv m seen k c cs n h = ground arith

-- An accepted list of chunks is as it has to be, and the sum did not wrap around.
pub sum_chunks-Summed :
    (m : Manifest) (seen : List Chunk) (k : ℕ) (cs : List Chunk) (n : ℤ)
    → m.max ≤ℤ pos max_chunk_bytes
    → m.artifact_size ≤ℤ pos (2 ^ 62)
    → pos k ≤ℤ m.artifact_size
    → sum_chunks m seen (pos k) cs ≡ ok n
    → Summed m seen k cs n
unfolding sum_sizes
sum_chunks-Summed m seen k [] n small size le h =
    unfold sum_chunks in
    record { chunks = tt; agree = tt; consistent_rest = tt; sum = ground arith }
sum_chunks-Summed m seen k (c ∷ cs) n small size le h =
    let (valid, con, fits, rest) = sum_chunks-inv m seen (pos k) c cs n h in
    let ic = valid_chunk→IsChunk m.max c valid in
    let a = consistent→Agrees seen c con in
    let e = add64_size k c.size ic.positive (omega (arith, ic.bounded)) (omega arith) in
    let s =
      sum_chunks-Summed m (c ∷ seen) (k + pos_part c.size) cs n small size
        (ltb→ge _ _ (rw e at fits)) (rw e at rest) in
    let (agree, same) = All-tail seen c cs a s.agree in
    record {
      chunks = (ic, s.chunks);
      agree = (a, agree);
      consistent_rest = (same, s.consistent_rest);
      sum = ground (arith, s.sum);
    }

-- And every such list whose sum fits in the artifact is accepted.
pub Summed-sum_chunks :
    (m : Manifest) (seen : List Chunk) (k : ℕ) (cs : List Chunk)
    → m.max ≤ℤ pos max_chunk_bytes
    → m.artifact_size ≤ℤ pos (2 ^ 62)
    → pos (k + sum_sizes cs) ≤ℤ m.artifact_size
    → Summed m seen k cs (pos (k + sum_sizes cs))
    → sum_chunks m seen (pos k) cs ≡ ok (pos (k + sum_sizes cs))
unfolding sum_chunks sum_sizes
Summed-sum_chunks m seen k [] small size le s = ground arith
Summed-sum_chunks m seen k (c ∷ cs) small size le s =
    let ic = s.chunks.0 in
    let e = add64_size k c.size ic.positive (omega (arith, ic.bounded)) (omega arith) in
    let rest =
      Summed-sum_chunks m (c ∷ seen) (k + pos_part c.size) cs small size (omega arith) (record {
        chunks = s.chunks.1;
        agree = All-cons seen c cs s.agree.1 s.consistent_rest.0;
        consistent_rest = s.consistent_rest.1;
        sum = refl;
      }) in
    ground (arith, e, rest, IsChunk→valid_chunk m.max c ic, Agrees→consistent seen c s.agree.0)
