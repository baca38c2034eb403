-- ===== src/ClientConf/Runner/Restart.antt =====
-- `RestartMatching`, `recreate` and `WriteAudit` of internal/clientconf/runner.go.
use edge_delta_lab.Prelude.{
  String, Bool, true, false, not, ◌&&◌, ◌||◌, List, [], ◌∷◌, ◌++◌, if◌then◌else◌, str_eq, Result,
  ok, err,
}
use edge_delta_lab.Lab.Object.{join}
use edge_delta_lab.Registry.Client.Challenges.{cut}
use edge_delta_lab.ClientConf.Config.{Config, Regexp}
use edge_delta_lab.ClientConf.Runner.Base.{
  Command, ps, stop_container, remove_container, run_image, AuditRecord, Journal, Host, exec,
  lines_from, Container, container_of,
}

unfoldable pub after_exec :
    Journal → Result String → Journal × Result (Unit {0}) → Journal × Result (Unit {0})
after_exec j (err e) rest = (j, err e)
after_exec j (ok out) rest = rest

-- One command after the other, while they succeed
unfoldable pub exec_all : Host → List Command → Journal → Journal × Result (Unit {0})
unfolding exec after_exec
exec_all h [] j = (j, ok tt)
exec_all h (c ∷ cs) j = let (j', r) = exec h c j in after_exec j' r (exec_all h cs j')

unfoldable pub recreate :
    Host → Config → Container → String → String → Journal → Journal × Result (Unit {0})
unfolding exec_all
recreate h c k new_name image_id = exec_all h (
    stop_container k.cid c.restart.stop_timeout
    ∷ remove_container k.cid
    ∷ run_image new_name image_id
    ∷ [])

unfoldable pub record_of : Config → Container → String → String → Result (Unit {0}) → AuditRecord
record_of c k new_name image_id (ok u) = record {
  container = k.cid;
  image = k.image_name;
  image_id = image_id;
  recreated = true;
  new_name = new_name;
  error = "";
  stop_timeout = c.restart.stop_timeout;
}
record_of c k new_name image_id (err e) = record {
  container = k.cid;
  image = k.image_name;
  image_id = image_id;
  recreated = false;
  new_name = "";
  error = e;
  stop_timeout = c.restart.stop_timeout;
}

-- The filters on the name
unfoldable pub is_selected : Regexp → Config → String → Bool
is_selected re c name =
    not (not (str_eq c.restart.exclude "") && re.matches c.restart.exclude name)
    && (str_eq c.restart.include "" || re.matches c.restart.include name)

unfoldable pub restart_one :
    Host → Config → String → Container → Journal → Journal × List AuditRecord
unfolding recreate record_of is_selected
restart_one h c image_id k j =
    let new_name = join k.name "-restarted" in
    let (j', r) = recreate h c k new_name image_id j in
    if is_selected h.re c k.name then (j', record_of c k new_name image_id r ∷ []) else (j, [])

unfoldable pub restart_lines :
    Host → Config → String → List String → Journal → Journal × List AuditRecord
unfolding restart_one container_of
restart_lines h c image_id [] j = (j, [])
restart_lines h c image_id (line ∷ lines) j =
    let (j', first) =
      (if str_eq line ""
        then (j, [])
        else restart_one h c image_id (container_of (cut 32 line) line) j) in
    let (j'', rest) = restart_lines h c image_id lines j' in (j'', first ++ rest)

unfoldable pub split_lines : String → List String
unfolding lines_from
split_lines s = let (first, rest) = lines_from s in first ∷ rest

unfoldable pub add_records :
    List AuditRecord → Journal × Result (List AuditRecord) → Journal × Result (List AuditRecord)
add_records rs (j, err e) = (j, err e)
add_records rs (j, ok more) = (j, ok (rs ++ more))

-- With what `docker ps` gave, and the loop over the other images
unfoldable pub restart_listed :
    Host
    → Config
    → String
    → Result String
    → (Journal → Journal × Result (List AuditRecord))
    → Journal
    → Journal × Result (List AuditRecord)
unfolding restart_lines split_lines add_records
restart_listed h c id (err e) next j = (j, err "restart: docker ps")
restart_listed h c id (ok out) next j =
    let (j', rs) = restart_lines h c id (split_lines (h.trim_space out)) j in
    add_records rs (next j')

unfoldable pub restart_images :
    Host → Config → List String → Journal → Journal × Result (List AuditRecord)
unfolding exec restart_listed
restart_images h c [] j = (j, ok [])
restart_images h c (id ∷ ids) j =
    let (j', listed) = exec h (ps id) j in
    restart_listed h c id listed (λ j''. restart_images h c ids j'') j'

unfoldable pub audited :
    List AuditRecord → Result (Unit {0}) → Journal → Journal × Result (List AuditRecord)
audited rs (err e) j = (j, err e)
audited rs (ok u) j = (record j { audits = rs ∷ j.audits }, ok rs)

-- `WriteAudit`, where the containers were gone through
unfoldable pub with_audit :
    Host → Journal × Result (List AuditRecord) → Journal × Result (List AuditRecord)
unfolding audited
with_audit h (j, err e) = (j, err e)
with_audit h (j, ok rs) = audited rs (h.write_audit rs) j

-- `RestartMatching`
unfoldable pub restart_matching :
    Host → Config → List String → Journal → Journal × Result (List AuditRecord)
unfolding restart_images with_audit
restart_matching h c image_ids j =
    if not (str_eq c.restart.include "" || h.re.compiles c.restart.include)
      || not (str_eq c.restart.exclude "" || h.re.compiles c.restart.exclude)
    then (j, err "regexp")
    else with_audit h (restart_images h c image_ids j)
