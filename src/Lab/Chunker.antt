-- ===== src/Lab/Chunker.antt =====
-- internal/lab/chunker.go: content-defined chunking with a rolling 64-bit Gear hash.
-- The table (SHA-256 of numbered strings) is a parameter; the reader is the list of bytes it yields
-- before it ends. `emit` cannot fail here: Lab.Publish takes its errors.
pub mod Laws
pub mod Resume
use Prim.Native.Nat.{bit_and}
use edge_delta_lab.Prelude.{
  ℕ, suc, ◌+◌, ◌-◌, ◌*◌, ◌%◌, ◌^◌, Bool, true, false, ◌&&◌, ◌||◌, List, [], ◌∷◌, ◌++◌, leb, ◌==◌,
  if◌then◌else◌, length, Result, ok, err,
}
use edge_delta_lab.Prelude.Int.{ℤ, pos_part}
use edge_delta_lab.Lab.Verify.{valid_parameters}

-- `rolling = (rolling << 1) + gearTable[b]` on uint64
unfoldable pub roll : (ℕ → ℕ) → ℕ → ℕ → ℕ
roll gear rolling b = (rolling * 2 + gear b) % 2 ^ 64

-- At the end of the input: `if len(buf) > 0 { emit(buf) }`
unfoldable pub flush : List ℕ → List (List ℕ)
flush [] = []
flush (b ∷ buf) = (b ∷ buf) ∷ []

-- The test after a byte was appended; `len` is the length of the buffer.
unfoldable pub is_boundary : ℕ → ℕ → ℕ → ℕ → ℕ → Bool
is_boundary min avg max len rolling = leb max len || (leb min len && bit_and rolling (avg - 1) == 0)

module _ (gear : ℕ → ℕ) (min avg max : ℕ) where
  -- The loop: the buffer, the rolling hash, and the bytes to come.
  unfoldable pub split_loop : List ℕ → ℕ → List ℕ → List (List ℕ)
  split_loop buf rolling [] = flush buf
  split_loop buf rolling (b ∷ bytes) =
      let buf' = buf ++ b ∷ [] in
      let rolling' = roll gear rolling b in
      let cut = buf' ∷ split_loop [] 0 bytes in
      let more = split_loop buf' rolling' bytes in
      if is_boundary min avg max (length buf') rolling' then cut else more

unfoldable pub split : (ℕ → ℕ) → ℤ → ℤ → ℤ → List ℕ → Result (List (List ℕ))
split gear min avg max bytes =
    if valid_parameters min avg max
    then ok (split_loop gear (pos_part min) (pos_part avg) (pos_part max) [] 0 bytes)
    else err "invalid CDC parameters"
