-- ===== src/Lab/Server/Transfer.antt =====
-- The loop of `ServeHTTP` in internal/lab/server.go that sends a body.
use edge_delta_lab.Prelude.{
  ℕ, zero, suc, ◌+◌, ◌-◌, ◌/◌, ◌%◌, String, Bool, true, false, not, Option, none, some, List, [],
  ◌++◌, if◌then◌else◌, length, take, drop, get_elem?, set, Result, ltb, leb, ◌==◌,
}
use edge_delta_lab.Prelude.Int.{ℤ, pos, pos_part, leb_ℤ}
use edge_delta_lab.Lab.Server.State.{FaultPlan, ServerStats}

pub record Env : Type 0 where
  -- `plan`
  pub plan : Result FaultPlan
  -- whether a sleep of so many milliseconds ends before the request is cancelled
  pub sleep : ℤ → Bool
  -- whether the server started less than so many milliseconds ago
  pub started_within : ℤ → Bool
  -- `ObjectLoader`, or `os.ReadFile` under the root
  pub load : String → Result (List ℕ)
  pub hash : List ℕ → String
  pub if_none_match : Option String
  -- `pacer.Wait` for the block at an offset, and what `Write` returns for it
  pub pace : ℕ → ℕ → Bool
  pub write : ℕ → List ℕ → ℕ × Bool

-- `^= 0x40` on a byte
unfoldable pub flip : ℕ → ℕ
flip b = if b / 64 % 2 == 0 then b + 64 else b - 64

unfoldable pub flip_at : Option ℕ → ℕ → List ℕ → List ℕ
unfolding flip
flip_at none i body = body
flip_at (some b) i body = set body i (flip b)

unfoldable pub corrupted : List ℕ → List ℕ
unfolding flip_at
corrupted body = let i = length body / 2 in flip_at (get_elem? body i) i body

-- How many bytes are sent before the connection is dropped.
unfoldable pub drop_limit : ℤ → ℕ → ℕ
drop_limit after size =
    let n = if leb_ℤ after (pos 0) then 4096 else pos_part after in
    if leb size n then size / 2 else n

-- How the loop that sends the body ended.
pub data Sent : Type 0 where
  whole : Sent
  interrupted : Sent
  out_of_fuel : Sent

pub record Sending : Type 0 where
  pub ending : Sent
  pub body : List ℕ
  pub stats : ServerStats

-- The counters of body bytes
unfoldable pub count_bytes : Bool → Bool → ℕ → ServerStats → ServerStats
count_bytes true true n s = record s {
  chunk_body_bytes = s.chunk_body_bytes + n;
  chunk_retry_body_bytes = s.chunk_retry_body_bytes + n;
}
count_bytes true false n s = record s { chunk_body_bytes = s.chunk_body_bytes + n }
count_bytes false repeated n s = record s { metadata_body_bytes = s.metadata_body_bytes + n }

-- The end of the block at an offset
unfoldable pub end_at : ℕ → ℕ → ℕ
end_at limit sent = if ltb limit (sent + 8192) then limit else sent + 8192

unfoldable pub block_at : List ℕ → ℕ → ℕ → List ℕ
unfolding end_at
block_at body limit sent = take (end_at limit sent - sent) (drop sent body)

module _ (env : Env) (chunk repeated : Bool) (body : List ℕ) (limit : ℕ) where
  unfoldable pub send_from : ℕ → ℕ → ServerStats → Sending
  unfolding block_at count_bytes
  send_from zero sent s = record { ending = out_of_fuel; body = []; stats = s }
  send_from (suc fuel) sent s =
      let block = block_at body limit sent in
      let (n, failed) = env.write sent block in
      let s' = count_bytes chunk repeated n s in
      let rest = send_from fuel (sent + n) s' in
      if leb limit sent
      then record { ending = whole; body = []; stats = s }
      else if not (env.pace sent (length block))
      then record { ending = interrupted; body = []; stats = s }
      else if failed
      then record { ending = interrupted; body = take n block; stats = s' }
      else record rest { body = take n block ++ rest.body }
