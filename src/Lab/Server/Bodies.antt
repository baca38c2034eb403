-- ===== src/Lab/Server/Bodies.antt =====
-- What a client of internal/lab/server.go gets of an object.
use edge_delta_lab.Prelude.{
  ℕ, ◌+◌, ◌-◌, ◌≤◌, ◌<◌, ◌≡◌, ◌≢◌, refl, Bool, true, false, List, ◌++◌, if◌then◌else◌, length, take,
  drop, ◌&&◌, ◌||◌, ◌%◌, none, some, ◌⊎◌, set, get_elem?, ◌==◌, arith, take_add, drop-drop,
  take-take,
}
use edge_delta_lab.Prelude.Int.{pos, pos_part, leb_ℤ, ltb_ℤ}
use edge_delta_lab.Lab.Server.State.{FaultPlan, ServerStats}
use edge_delta_lab.Lab.Server.Transfer.{Env, Sent, whole, out_of_fuel, Sending, end_at, block_at}
use edge_delta_lab.Lab.Server.Handler.{Response, nothing, failure, unchanged, etag_of, content}

-- The promise of `Write`: no more bytes than given, and an error where it takes fewer.
abbrev pub IsWriter : Env → Type 0
IsWriter env =
    (sent : ℕ)
    → (block : List ℕ)
    → ((env.write sent block).0 ≤ length block)
      × ((env.write sent block).0 < length block → (env.write sent block).1 ≡ true)

-- Of `data_`, from the offset `sent` on, a part was sent that does not pass `limit`.
record IsPart (data_ : List ℕ) (limit sent : ℕ) (r : Sending) : Type 0 where
  count : ℕ
  body_eq : r.body ≡ take count (drop sent data_)
  inside : sent + count ≤ limit
  ends : r.ending ≢ out_of_fuel
  full : r.ending ≡ whole → sent + count ≡ limit

-- The bytes of a block that were taken are the next ones of the body.
take-block_at :
    (body : List ℕ) (limit sent n : ℕ)
    → n ≤ end_at limit sent - sent
    → take n (block_at body limit sent) ≡ take n (drop sent body)
unfolding block_at
take-block_at body limit sent n h = take-take n (end_at limit sent - sent) (drop sent body) h

module _ (env : Env) (writes : IsWriter env) (chunk repeated : Bool) (body : List ℕ) (limit : ℕ)
    (fits : limit ≤ length body) where
  joined :
      (sent n : ℕ) (rest : Sending)
      → n ≤ end_at limit sent - sent
      → IsPart body limit (sent + n) rest
      → IsPart body limit sent
          (record rest { body = take n (block_at body limit sent) ++ rest.body })
  joined sent n rest h r = record {
    count = n + r.count;
    body_eq =
        rw
          (
            take-block_at body limit sent n h,
            r.body_eq,
            take_add n r.count (drop sent body),
            drop-drop n sent body,
          )
          refl;
    inside = omega (arith, r.inside);
    ends = r.ends;
    full = λ e. omega (arith, r.full e);
  }

-- The body with one byte changed
abbrev pub IsCorrupt : List ℕ → List ℕ → Type 0
IsCorrupt loaded served =
    (i b b' : ℕ) × (get_elem? loaded i ≡ some b) × (b' ≢ b) × (served ≡ set loaded i b')

-- The plan corrupts this chunk request, or drops its connection.
abbrev pub corrupts : FaultPlan → Bool → ℕ → Bool
corrupts p chunk n = chunk && leb_ℤ (pos n) p.corrupt_first

abbrev pub drops : FaultPlan → Bool → ℕ → Bool
drops p chunk n = chunk && ltb_ℤ (pos 0) p.drop_every && n % pos_part p.drop_every == 0

-- What a body is for the client, with what was loaded.
pub record IsAnswer (p : FaultPlan) (chunk : Bool) (chunk_no : ℕ) (loaded : List ℕ) (size : ℕ)
    (body : List ℕ) (ending : Sent) (dropped : Bool) : Type 0 where
  pub served : List ℕ
  pub kept : corrupts p chunk chunk_no ≡ false → served ≡ loaded
  pub changed : corrupts p chunk chunk_no ≡ true → 0 < length loaded → IsCorrupt loaded served
  pub size_eq : size ≡ length loaded
  pub ends : ending ≢ out_of_fuel
  pub prefix : body ≡ take (length body) served
  pub dropped_eq : dropped ≡ drops p chunk chunk_no
  pub whole_body : ending ≡ whole → dropped ≡ false → body ≡ served
  pub cut : dropped ≡ true → 0 < size → length body < size

-- What an answer without a body means, and what one with a body is.
unfoldable pub AnswersWith : Env → FaultPlan → Bool → ServerStats → List ℕ → Response → Type 0
AnswersWith env p chunk s loaded nothing =
    (env.sleep p.latency_ms ≡ false)
    ⊎ (((chunk && ltb_ℤ (pos 0) p.stall_first && leb_ℤ (pos s.chunk_requests) p.stall_first) ≡ true)
        × (env.sleep p.stall_ms ≡ false))
AnswersWith env p chunk s loaded (failure status) =
    (status ≡ 503)
    × (((p.offline || (ltb_ℤ (pos 0) p.offline_for_ms && env.started_within p.offline_for_ms))
          || leb_ℤ (pos s.requests) p.fail_first)
        ≡ true)
AnswersWith env p chunk s loaded (unchanged etag) =
    (chunk ≡ false) × (env.if_none_match ≡ some etag) × (etag ≡ etag_of env loaded)
AnswersWith env p chunk s loaded (content etag size body ending dropped) =
    (etag ≡ (if chunk then none else some (etag_of env loaded)))
    × IsAnswer p chunk s.chunk_requests loaded size body ending dropped

module _ (env : Env) (writes : IsWriter env) (p : FaultPlan) (chunk repeated : Bool)
    (counted : ServerStats) (loaded : List ℕ) where
  abbrev n : ℕ
  n = counted.chunk_requests

  abbrev Answers : Response → Type 0
  Answers r = AnswersWith env p chunk counted loaded r
