-- ===== src/Lab/Server/Counters.antt =====
-- The counters of internal/lab/server.go agree with each other.
use edge_delta_lab.Prelude.{
  ℕ, zero, suc, ◌+◌, ◌≤◌, ◌%◌, ◌≡◌, refl, String, Bool, true, false, not, ◌&&◌, ◌||◌, List, [], ◌∷◌,
  length, if◌then◌else◌, ltb, leb, ◌==◌, Result, ok, err, arith, if-elim,
}
use edge_delta_lab.Prelude.Int.{pos, pos_part, leb_ℤ, ltb_ℤ}
use edge_delta_lab.Prelude.Dict.{lookup, count_of, total, total-insert}
use edge_delta_lab.Lab.Server.State.{FaultPlan, ServerStats, no_stats}
use edge_delta_lab.Lab.Server.Transfer.{
  Env, Sending, block_at, count_bytes, send_from, corrupted, drop_limit,
}
use edge_delta_lab.Lab.Server.Handler.{
  Response, count_request, etag_of, send_content, send_object, tag_matches, respond_with,
  is_offline, is_stalled, serve_counted, serve_planned, serve_with, serve,
}

-- Each request is one for a chunk or for metadata, the chunk requests are those counted per object, and
-- the repeated bytes are among the bytes of chunks.
abbrev pub IsCounted : ServerStats → Type 0
IsCounted s =
    (s.requests ≡ s.chunk_requests + s.metadata_requests)
    × (total s.object_requests ≡ s.chunk_requests)
    × (s.chunk_retry_body_bytes ≤ s.chunk_body_bytes)

count_bytes-IsCounted :
    (chunk repeated : Bool) (n : ℕ) (s : ServerStats)
    → IsCounted s
    → IsCounted (count_bytes chunk repeated n s)
unfolding count_bytes
count_bytes-IsCounted true true n s h = (h.0, h.1, omega (arith, h.2))
count_bytes-IsCounted true false n s h = (h.0, h.1, omega (arith, h.2))
count_bytes-IsCounted false repeated n s h = h

count_request-IsCounted :
    (chunk : Bool) (rel : String) (s : ServerStats)
    → IsCounted s
    → IsCounted (count_request chunk rel s)
unfolding count_request
count_request-IsCounted true rel s h = (
  omega (arith, h.0),
  omega (
    arith,
    h.1,
    total-insert rel (suc (count_of (lookup rel s.object_requests))) s.object_requests,
  ),
  h.2,
)
count_request-IsCounted false rel s h = (omega (arith, h.0), h.1, h.2)

module _ (env : Env) (chunk repeated : Bool) where
  send_from-IsCounted :
      (body : List ℕ) (limit fuel sent : ℕ) (s : ServerStats)
      → IsCounted s
      → IsCounted (send_from env chunk repeated body limit fuel sent s).stats
  unfolding send_from
  send_from-IsCounted body limit zero sent s h = h
  send_from-IsCounted body limit (suc fuel) sent s h =
      let block = block_at body limit sent in
      let n = (env.write sent block).0 in
      let h' = count_bytes-IsCounted chunk repeated n s h in
      let P : Sending → Type 0 = λ r. IsCounted r.stats in
      if-elim P (leb limit sent) (λ e. h)
        (λ e.
          if-elim P (not (env.pace sent (length block))) (λ f. h)
            (λ f.
              if-elim P ((env.write sent block).1) (λ g. h')
                (λ g.
                  send_from-IsCounted body limit fuel (sent + n) (count_bytes chunk repeated n s)
                    h')))

  send_content-IsCounted :
      (p : FaultPlan) (corrupt dropped : Bool) (loaded : List ℕ) (s : ServerStats)
      → IsCounted s
      → IsCounted (send_content env p chunk repeated corrupt dropped loaded s).1
  unfolding send_content
  send_content-IsCounted p corrupt dropped loaded s h =
      let body = if corrupt then corrupted loaded else loaded in
      let s1 = if corrupt then record s { corruptions = suc s.corruptions } else s in
      let limit = if dropped then drop_limit p.drop_after_bytes (length body) else length body in
      let s2 = if dropped then record s1 { drops = suc s1.drops } else s1 in
      let h1 =
        if-elim IsCounted corrupt {x = record s { corruptions = suc s.corruptions }} {y = s}
          (λ e. h) (λ e. h) in
      let h2 =
        if-elim IsCounted dropped {x = record s1 { drops = suc s1.drops }} {y = s1} (λ e. h1)
          (λ e. h1) in
      send_from-IsCounted body limit (suc limit) 0 s2 h2

  send_object-IsCounted :
      (p : FaultPlan) (n : ℕ) (loaded : List ℕ) (s : ServerStats)
      → IsCounted s
      → IsCounted (send_object env p chunk repeated n loaded s).1
  unfolding send_object
  send_object-IsCounted p n loaded s h =
      send_content-IsCounted p (chunk && leb_ℤ (pos n) p.corrupt_first && not (length loaded == 0))
        (chunk && ltb_ℤ (pos 0) p.drop_every && n % pos_part p.drop_every == 0) loaded s h

  respond_with-IsCounted :
      (p : FaultPlan) (n : ℕ) (load : Result (List ℕ)) (s : ServerStats)
      → IsCounted s
      → IsCounted (respond_with env p chunk repeated n load s).1
  unfolding respond_with
  respond_with-IsCounted p n (err e) s h = h
  respond_with-IsCounted p n (ok loaded) s h =
      if-elim {A = Response × ServerStats} (λ r. IsCounted r.1)
        (not chunk && tag_matches env.if_none_match (etag_of env loaded)) (λ e. h)
        (λ e. send_object-IsCounted p n loaded s h)

serve_counted-IsCounted :
    (env : Env) (p : FaultPlan) (rel : String) (chunk : Bool) (s : ServerStats)
    → IsCounted s
    → IsCounted (serve_counted env p rel chunk s).1
unfolding serve_counted
serve_counted-IsCounted env p rel chunk s h =
    let P : Response × ServerStats → Type 0 = λ r. IsCounted r.1 in
    let stalled = is_stalled p chunk s.chunk_requests in
    let s1 = if stalled then record s { stalls = suc s.stalls } else s in
    let h1 =
      if-elim IsCounted stalled {x = record s { stalls = suc s.stalls }} {y = s} (λ e. h)
        (λ e. h) in
    if-elim P (not (env.sleep p.latency_ms)) (λ e. h)
      (λ e.
        if-elim P (is_offline env p || leb_ℤ (pos s.requests) p.fail_first) (λ f. h)
          (λ f.
            if-elim P (stalled && not (env.sleep p.stall_ms)) (λ g. h1)
              (λ g.
                respond_with-IsCounted env chunk
                  (chunk && ltb 1 (count_of (lookup rel s.object_requests))) p s.chunk_requests
                  (env.load rel) s1 h1)))

serve_with-IsCounted :
    (env : Env) (plan : Result FaultPlan) (rel : String) (chunk : Bool) (s : ServerStats)
    → IsCounted s
    → IsCounted (serve_with env plan rel chunk s).1
unfolding serve_with serve_planned
serve_with-IsCounted env (err e) rel chunk s h = h
serve_with-IsCounted env (ok p) rel chunk s h =
    serve_counted-IsCounted env p rel chunk (count_request chunk rel s)
      (count_request-IsCounted chunk rel s h)

serve-IsCounted :
    (env : Env) (rel : String) (chunk : Bool) (s : ServerStats)
    → IsCounted s
    → IsCounted (serve env rel chunk s).1
unfolding serve
serve-IsCounted env rel chunk s h = serve_with-IsCounted env env.plan rel chunk s h

pub record Request : Type 0 where
  pub env : Env
  pub rel : String
  pub chunk : Bool

-- The counters after a sequence of requests.
unfoldable pub serve_all : List Request → ServerStats → ServerStats
unfolding serve
serve_all [] s = s
serve_all (r ∷ rs) s = serve_all rs (serve r.env r.rel r.chunk s).1

serve_all-IsCounted :
    (rs : List Request) (s : ServerStats) → IsCounted s → IsCounted (serve_all rs s)
unfolding serve_all
serve_all-IsCounted [] s h = h
serve_all-IsCounted (r ∷ rs) s h =
    serve_all-IsCounted rs (serve r.env r.rel r.chunk s).1 (serve-IsCounted r.env r.rel r.chunk s h)

-- After any sequence of requests to a new server, whatever faults its plan injects and wherever a
-- handler ends: its requests are those for chunks and those for metadata, the chunk requests are the sum
-- of the counts of the objects, and no more bytes of chunks were repeated than sent.
pub counters : (rs : List Request) → IsCounted (serve_all rs no_stats)
unfolding total
counters rs = serve_all-IsCounted rs no_stats (omega arith, refl, omega arith)
