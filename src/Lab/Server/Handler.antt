-- ===== src/Lab/Server/Handler.antt =====
-- `ServeHTTP` of internal/lab/server.go, for the objects.
use edge_delta_lab.Prelude.{
  ℕ, suc, ◌%◌, String, Bool, true, false, not, ◌&&◌, ◌||◌, Option, none, some, List, if◌then◌else◌,
  length, Result, ok, err, ltb, ◌==◌, str_eq,
}
use edge_delta_lab.Prelude.Int.{pos, pos_part, leb_ℤ, ltb_ℤ}
use edge_delta_lab.Prelude.Dict.{lookup, insert, count_of}
use edge_delta_lab.Lab.Object.{join}
use edge_delta_lab.Lab.Server.State.{FaultPlan, ServerStats}
use edge_delta_lab.Lab.Server.Transfer.{Env, corrupted, drop_limit, Sent, send_from}

pub data Response : Type 0 where
  -- the handler returned without a response
  nothing : Response
  failure : ℕ → Response
  unchanged : String → Response
  -- the tag of the body, its announced length, the bytes that were sent, whether all that were to be sent
  -- were, and whether the connection is then closed
  content : Option String → ℕ → List ℕ → Sent → Bool → Response

-- The counters that a request changes when it comes in
unfoldable pub count_request : Bool → String → ServerStats → ServerStats
count_request true rel s = record s {
  requests = suc s.requests;
  chunk_requests = suc s.chunk_requests;
  object_requests = insert rel (suc (count_of (lookup rel s.object_requests))) s.object_requests;
}
count_request false rel s = record s {
  requests = suc s.requests;
  metadata_requests = suc s.metadata_requests;
}

unfoldable pub is_offline : Env → FaultPlan → Bool
is_offline env p =
    p.offline || (ltb_ℤ (pos 0) p.offline_for_ms && env.started_within p.offline_for_ms)

-- The hash in quotes
unfoldable pub etag_of : Env → List ℕ → String
etag_of env loaded = join "\"" (join (env.hash loaded) "\"")

-- The part of the handler from the loaded body on, with whether the body is to be corrupted and whether
-- the connection is to be dropped
unfoldable pub send_content :
    Env → FaultPlan → Bool → Bool → Bool → Bool → List ℕ → ServerStats → Response × ServerStats
unfolding send_from corrupted drop_limit etag_of
send_content env p chunk repeated corrupt dropped loaded s =
    let etag = if chunk then none else some (etag_of env loaded) in
    let body = if corrupt then corrupted loaded else loaded in
    let s1 = if corrupt then record s { corruptions = suc s.corruptions } else s in
    let limit = if dropped then drop_limit p.drop_after_bytes (length body) else length body in
    let s2 = if dropped then record s1 { drops = suc s1.drops } else s1 in
    let out = send_from env chunk repeated body limit (suc limit) 0 s2 in
    (content etag (length body) out.body out.ending dropped, out.stats)

unfoldable pub send_object :
    Env → FaultPlan → Bool → Bool → ℕ → List ℕ → ServerStats → Response × ServerStats
unfolding send_content
send_object env p chunk repeated chunk_no loaded s =
    let corrupt = chunk && leb_ℤ (pos chunk_no) p.corrupt_first && not (length loaded == 0) in
    let dropped = chunk && ltb_ℤ (pos 0) p.drop_every && chunk_no % pos_part p.drop_every == 0 in
    send_content env p chunk repeated corrupt dropped loaded s

-- `r.Header.Get("If-None-Match") == etag`
unfoldable pub tag_matches : Option String → String → Bool
tag_matches none tag = false
tag_matches (some t) tag = str_eq t tag

unfoldable pub respond_with :
    Env → FaultPlan → Bool → Bool → ℕ → Result (List ℕ) → ServerStats → Response × ServerStats
unfolding tag_matches etag_of
respond_with env p chunk repeated chunk_no (err e) s = (failure 404, s)
respond_with env p chunk repeated chunk_no (ok loaded) s =
    if not chunk && tag_matches env.if_none_match (etag_of env loaded)
    then (unchanged (etag_of env loaded), s)
    else send_object env p chunk repeated chunk_no loaded s

unfoldable pub is_stalled : FaultPlan → Bool → ℕ → Bool
is_stalled p chunk chunk_no =
    chunk && ltb_ℤ (pos 0) p.stall_first && leb_ℤ (pos chunk_no) p.stall_first

-- The part of `ServeHTTP` for the objects, once the plan is known and the request is counted
unfoldable pub serve_counted :
    Env → FaultPlan → String → Bool → ServerStats → Response × ServerStats
unfolding is_offline is_stalled respond_with
serve_counted env p rel chunk s =
    let repeated = chunk && ltb 1 (count_of (lookup rel s.object_requests)) in
    let stalled = is_stalled p chunk s.chunk_requests in
    let s1 = if stalled then record s { stalls = suc s.stalls } else s in
    if not (env.sleep p.latency_ms)
    then (nothing, s)
    else if is_offline env p || leb_ℤ (pos s.requests) p.fail_first
    then (failure 503, record s { failures = suc s.failures })
    else if stalled && not (env.sleep p.stall_ms)
    then (nothing, s1)
    else respond_with env p chunk repeated s.chunk_requests (env.load rel) s1

unfoldable pub serve_planned :
    Env → FaultPlan → String → Bool → ServerStats → Response × ServerStats
unfolding count_request serve_counted
serve_planned env p rel chunk s = serve_counted env p rel chunk (count_request chunk rel s)

-- Without a plan the request is refused before it is counted.
unfoldable pub serve_with :
    Env → Result FaultPlan → String → Bool → ServerStats → Response × ServerStats
serve_with env (err e) rel chunk s = (failure 500, s)
serve_with env (ok p) rel chunk s = serve_planned env p rel chunk s

unfoldable pub serve : Env → String → Bool → ServerStats → Response × ServerStats
unfolding serve_with
serve env rel chunk s = serve_with env env.plan rel chunk s
