-- ===== src/ClientConf/Runner/Gate.antt =====
-- Which commands internal/clientconf/runner.go runs.
use edge_delta_lab.Prelude.{
  ◌≡◌, refl, String, Bool, false, not, ◌&&◌, ◌||◌, List, [], ◌∷◌, str_eq, length, ◌==◌, Result, ok,
  err, All, Has, here, there, if-elim, arith,
}
use edge_delta_lab.Lab.Object.{join}
use edge_delta_lab.Registry.Client.Challenges.{cut}
use edge_delta_lab.ClientConf.Config.{Config, eligible}
use edge_delta_lab.ClientConf.Runner.Base.{
  Command, ps, stop_container, remove_container, run_image, AuditRecord, SyncOptions, Plan, Journal,
  Host, emit, exec, Container, container_of,
}
use edge_delta_lab.ClientConf.Runner.Restart.{
  after_exec, exec_all, recreate, is_selected, restart_one, restart_lines, split_lines, add_records,
  restart_listed, restart_images, audited, with_audit, restart_matching,
}
use edge_delta_lab.ClientConf.Runner.Actions.{Acted, reported, act_eligible, act}

-- A command names no image but one of these.
abbrev pub IsAllowed : List String → Command → Type 0
IsAllowed ids (ps id) = Has id ids
IsAllowed ids (stop_container cid timeout) = Unit
IsAllowed ids (remove_container cid) = Unit
IsAllowed ids (run_image name id) = Has id ids

abbrev Fine : List String → Journal → Type 0
Fine ids j = All (IsAllowed ids) j.commands

module _ (h : Host) (c : Config) (ids : List String) where
  exec_all-Fine :
      (cs : List Command) (j : Journal)
      → All (IsAllowed ids) cs
      → Fine ids j
      → Fine ids (exec_all h cs j).0
  unfolding exec_all exec
  exec_all-Fine [] j a f = f
  exec_all-Fine (x ∷ cs) j a f =
      go (h.docker j.commands x)
        (exec_all-Fine cs (record j { commands = x ∷ j.commands }) a.1 (a.0, f))
    where
      go :
          (r : Result String)
          → Fine ids (exec_all h cs (record j { commands = x ∷ j.commands })).0
          → Fine ids
              (after_exec
                (record j { commands = x ∷ j.commands })
                r
                (exec_all h cs (record j { commands = x ∷ j.commands }))).0
      go (err e) rest = (a.0, f)
      go (ok out) rest = rest

  restart_one-Fine :
      (id : String) (k : Container) (j : Journal)
      → Has id ids
      → Fine ids j
      → Fine ids (restart_one h c id k j).0
  unfolding restart_one recreate
  restart_one-Fine id k j m f =
      if-elim {A = Journal × List AuditRecord} (λ r. Fine ids r.0) (is_selected h.re c k.name)
        (λ e.
          exec_all-Fine
            (stop_container k.cid c.restart.stop_timeout
              ∷ remove_container k.cid
              ∷ run_image (join k.name "-restarted") id
              ∷ [])
            j (tt, (tt, (m, tt))) f)
        (λ e. f)

  restart_lines-Fine :
      (id : String) (lines : List String) (j : Journal)
      → Has id ids
      → Fine ids j
      → Fine ids (restart_lines h c id lines j).0
  unfolding restart_lines
  restart_lines-Fine id [] j m f = f
  restart_lines-Fine id (line ∷ lines) j m f = restart_lines-Fine id lines _ m (
      if-elim {A = Journal × List AuditRecord} (λ r. Fine ids r.0) (str_eq line "") (λ e. f)
        (λ e. restart_one-Fine id (container_of (cut 32 line) line) j m f))

  add_records-Fine :
      (rs : List AuditRecord) (r : Journal × Result (List AuditRecord))
      → Fine ids r.0
      → Fine ids (add_records rs r).0
  unfolding add_records
  add_records-Fine rs (j, err e) f = f
  add_records-Fine rs (j, ok more) f = f

  restart_listed-Fine :
      (id : String) (listed : Result String) (next : Journal → Journal × Result (List AuditRecord))
      (j : Journal)
      → Has id ids
      → Fine ids j
      → ((j' : Journal) → Fine ids j' → Fine ids (next j').0)
      → Fine ids (restart_listed h c id listed next j).0
  unfolding restart_listed
  restart_listed-Fine id (err e) next j m f n = f
  restart_listed-Fine id (ok out) next j m f n =
      add_records-Fine _ (next (restart_lines h c id (split_lines (h.trim_space out)) j).0)
        (n _ (restart_lines-Fine id (split_lines (h.trim_space out)) j m f))

  restart_images-Fine :
      (some_ids : List String) (j : Journal)
      → All (λ id. Has id ids) some_ids
      → Fine ids j
      → Fine ids (restart_images h c some_ids j).0
  unfolding restart_images exec
  restart_images-Fine [] j a f = f
  restart_images-Fine (id ∷ some_ids) j a f =
      restart_listed-Fine id (h.docker j.commands (ps id)) (λ j'. restart_images h c some_ids j')
        (record j { commands = ps id ∷ j.commands }) a.0 (a.0, f)
        (λ j' f'. restart_images-Fine some_ids j' a.1 f')

  with_audit-Fine :
      (r : Journal × Result (List AuditRecord)) → Fine ids r.0 → Fine ids (with_audit h r).0
  unfolding with_audit
  with_audit-Fine (j, err e) f = f
  with_audit-Fine (j, ok rs) f = written (h.write_audit rs)
    where
      written : (w : Result (Unit {0})) → Fine ids (audited rs w j).0
      written (err e) = f
      written (ok u) = f

  restart_matching-Fine : (j : Journal) → Fine ids j → Fine ids (restart_matching h c ids j).0
  unfolding restart_matching
  restart_matching-Fine j f =
      if-elim {A = Journal × Result (List AuditRecord)} (λ r. Fine ids r.0)
        (not (str_eq c.restart.include "" || h.re.compiles c.restart.include)
          || not (str_eq c.restart.exclude "" || h.re.compiles c.restart.exclude))
        (λ e. f)
        (λ e. with_audit-Fine (restart_images h c ids j) (restart_images-Fine ids j (every ids) f))
    where
      weaken :
          (id : String) (some_ids more : List String)
          → All (λ i. Has i more) some_ids
          → All (λ i. Has i (id ∷ more)) some_ids
      weaken id [] more a = tt
      weaken id (i ∷ some_ids) more a = (there a.0, weaken id some_ids more a.1)

      every : (some_ids : List String) → All (λ i. Has i some_ids) some_ids
      every [] = tt
      every (i ∷ some_ids) = (here, weaken i some_ids some_ids (every some_ids))

  reported-Fine :
      (release : String) (p : Plan) (r : Journal × Result (List AuditRecord))
      → Fine ids r.0
      → Fine ids (reported h release p r).journal
  unfolding reported emit
  reported-Fine release p (j, err e) f = f
  reported-Fine release p (j, ok rs) f = f

-- The release may be restarted.
abbrev pub may_restart : Host → Config → SyncOptions → Bool
may_restart h c so =
    eligible h.re c so.release && str_eq c.action "restart" && str_eq so.phase "loaded"

-- What an action leaves of the commands.
abbrev IsGated : Bool → List String → Journal → Acted → Type 0
IsGated may ids j a =
    (Fine ids j → Fine ids a.journal) × (may ≡ false → a.journal.commands ≡ j.commands)

act_eligible-IsGated :
    (h : Host) (c : Config) (so : SyncOptions) (p : Plan) (j : Journal)
    → IsGated
        (str_eq c.action "restart" && str_eq so.phase "loaded")
        so.image_ids
        j
        (act_eligible h c so p j)
unfolding act_eligible emit
act_eligible-IsGated h c so p j =
    let P : Acted → Type 0 =
      IsGated (str_eq c.action "restart" && str_eq so.phase "loaded") so.image_ids j in
    if-elim P (str_eq c.action "dry-run") (λ e. (λ f. f, λ g. refl))
      (λ e.
        if-elim P (str_eq c.action "load")
          (λ e1.
            if-elim P (not (str_eq so.phase "loaded")) (λ e2. (λ f. f, λ g. refl))
              (λ e2. (λ f. f, λ g. refl)))
          (λ e1.
            if-elim P (str_eq c.action "restart")
              (λ e2.
                if-elim P (not (str_eq so.phase "loaded")) (λ e3. (λ f. f, λ g. refl))
                  (λ e3.
                    if-elim P (length so.image_ids == 0) (λ e4. (λ f. f, λ g. refl))
                      (λ e4. (
                        λ f.
                            reported-Fine h c so.image_ids so.release p
                              (restart_matching h c so.image_ids j)
                              (restart_matching-Fine h c so.image_ids j f),
                        λ g. ground (arith, g, e2, e3),
                      ))))
              (λ e2. (λ f. f, λ g. refl))))

-- Whatever the docker command answers, each image that the runner asks for or starts is one of the signed
-- image IDs, where it was so before; and it runs no command at all unless the release passes the filters, the
-- action is restart, and the image was loaded.
pub act_lem :
    (h : Host) (c : Config) (so : SyncOptions) (j : Journal)
    → All (IsAllowed so.image_ids) j.commands
    → All (IsAllowed so.image_ids) (act h c so j).journal.commands
      × (may_restart h c so ≡ false → (act h c so j).journal.commands ≡ j.commands)
unfolding act emit
act_lem h c so j f =
    if-elim {A = Acted}
      (λ a.
        All (IsAllowed so.image_ids) a.journal.commands
        × (may_restart h c so ≡ false → a.journal.commands ≡ j.commands))
      (not (eligible h.re c so.release)) (λ e. (f, λ g. refl))
      (λ e. let r = act_eligible-IsGated h c so _ j in (r.0 f, λ g. r.1 (ground (arith, g, e))))
