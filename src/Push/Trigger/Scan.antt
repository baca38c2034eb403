-- ===== src/Push/Trigger/Scan.antt =====
-- When a scan of internal/push/trigger.go announces.
use edge_delta_lab.Prelude.{
  ℕ, ◌≡◌, ◌≢◌, ◌∙◌, refl, sym, ap, String, true, false, none, some, List, [], ◌∷◌, if◌then◌else◌,
  str_eq, eq_iff, eq_refl, Result, ok, err, All, arith, Bool-cases, Option-cases, inl, inr,
}
use edge_delta_lab.Prelude.Int.{eqb_ℤ_refl}
use edge_delta_lab.Prelude.Dict.{Dict, lookup, insert, lookup-insert}
use edge_delta_lab.Push.Broker.{Announce, Broker}
use edge_delta_lab.Push.Trigger.{
  FileStamp, Entry, entries, Trigger, Codec, same_digest, publish_parsed, is_write, parse,
  announce_file, scan_file, is_release, scan_files, scan_once, new_trigger,
}

-- The names of a directory are distinct.
abbrev pub IsDistinct : List Entry → Type 0
IsDistinct [] = Unit
IsDistinct (e ∷ es) = All (λ x. x.name ≢ e.name) es × IsDistinct es

module _ (f : Codec) (channels : List String) where
  -- The trigger has the stamp of a release file that has one.
  abbrev pub IsKnown : Trigger → Entry → Type 0
  IsKnown t e =
      is_release f channels e ≡ true
      → (s : FileStamp) → e.stat ≡ some s
      → lookup e.name t.stamps ≡ some s

  announce_file-stamps :
      (name : String) (content : Result (List ℕ)) (t : Trigger)
      → (announce_file f channels name content t).stamps ≡ t.stamps
  unfolding announce_file
  announce_file-stamps name (err e) t = refl
  announce_file-stamps name (ok b) t =
      elim (Bool-cases (same_digest (lookup name t.announced) (f.hash b))) [
        | inl e ↦ rw e refl
        | inr e ↦ rw e (parsed (parse f channels name b) _)
      ]
    where
      parsed : (r : Result Announce) (t : Trigger) → (publish_parsed r t).stamps ≡ t.stamps
      parsed (err e) t = refl
      parsed (ok a) t = refl

  scan_file-stamps :
      (e : Entry) (t : Trigger) (s : FileStamp) (k : String)
      → lookup k (scan_file f channels e t (some s)).stamps
        ≡ (if str_eq e.name k then some s else lookup k t.stamps)
  unfolding scan_file
  scan_file-stamps e t s k = elim (Bool-cases (is_write (lookup e.name t.stamps) t.primed s)) [
    | inl w ↦ rw (w, announce_file-stamps e.name e.content _) (lookup-insert e.name k s t.stamps)
    | inr w ↦ rw w (lookup-insert e.name k s t.stamps)
  ]

  scan_file-other :
      (e : Entry) (t : Trigger) (k : String)
      → e.name ≢ k
      → lookup k (scan_file f channels e t e.stat).stamps ≡ lookup k t.stamps
  unfolding scan_file
  scan_file-other e t k ne = elim (Option-cases e.stat) [
    | inl n ↦ rw n refl
    | inr (s, st) ↦ rw st (scan_file-stamps e t s k ∙ ground (arith, eq_iff e.name k, ne))
  ]

  scan_files-other :
      (es : List Entry) (t : Trigger) (k : String)
      → All (λ x. x.name ≢ k) es
      → lookup k (scan_files f channels es t).stamps ≡ lookup k t.stamps
  unfolding scan_files
  scan_files-other [] t k h = refl
  scan_files-other (e ∷ es) t k h = elim (Bool-cases (is_release f channels e)) [
    | inl r ↦
        rw (r, scan_files)
          (scan_files-other es (scan_file f channels e t e.stat) k h.1 ∙ scan_file-other e t k h.0)
    | inr r ↦ rw (r, scan_files) (scan_files-other es t k h.1)
  ]

  scan_files-IsKnown :
      (es : List Entry) (t : Trigger)
      → IsDistinct es
      → All (IsKnown (scan_files f channels es t)) es
  unfolding scan_files
  scan_files-IsKnown [] t h = tt
  scan_files-IsKnown (e ∷ es) t h = (
    λ r s st.
        rw (r, scan_files)
          (scan_files-other es (scan_file f channels e t e.stat) e.name h.0
            ∙ rw st (scan_file-stamps e t s e.name ∙ rw eq_refl refl)),
    scan_files-IsKnown es (if is_release f channels e then scan_file f channels e t e.stat else t)
        h.1,
  )

  insert-same :
      (k : String) (s : FileStamp) (m : Dict FileStamp) → lookup k m ≡ some s → insert k s m ≡ m
  unfolding lookup insert
  insert-same k s [] h = ground (arith, h)
  insert-same k s ((j, v) ∷ m) h = elim (Bool-cases (str_eq j k)) [
    | inl e ↦ ground (arith, h, e, eq_iff j k)
    | inr e ↦ ground (arith, h, e, insert-same k s m)
  ]

  scan_file-quiet :
      (e : Entry) (t : Trigger)
      → is_release f channels e ≡ true
      → IsKnown t e
      → scan_file f channels e t e.stat ≡ t
  unfolding scan_file is_write
  scan_file-quiet e t r h = elim (Option-cases e.stat) [
    | inl n ↦ rw n refl
    | inr (s, st) ↦
        rw
          (
            st,
            h r s st,
            eqb_ℤ_refl s.size,
            eqb_ℤ_refl s.mtime,
            insert-same e.name s t.stamps (h r s st),
          )
          refl
  ]

  scan_files-quiet :
      (es : List Entry) (t : Trigger) → All (IsKnown t) es → scan_files f channels es t ≡ t
  unfolding scan_files
  scan_files-quiet [] t h = refl
  scan_files-quiet (e ∷ es) t h = elim (Bool-cases (is_release f channels e)) [
    | inl r ↦ rw (r, scan_files) (rw (scan_file-quiet e t r h.0) (scan_files-quiet es t h.1))
    | inr r ↦ rw (r, scan_files) (scan_files-quiet es t h.1)
  ]

  rescan_lem :
      (es : List Entry) (t : Trigger)
      → IsDistinct es
      → scan_once f channels (entries es) (scan_once f channels (entries es) t)
        ≡ scan_once f channels (entries es) t
  unfolding scan_once
  rescan_lem es t h =
      ap {A = Trigger} (λ x. record x { primed = true })
        (scan_files-quiet es (record (scan_files f channels es t) { primed = true })
          (scan_files-IsKnown es t h))

  abbrev IsUnseen : Trigger → Entry → Type 0
  IsUnseen t e = lookup e.name t.stamps ≡ none

  scan_file-silent :
      (e : Entry) (t : Trigger)
      → t.primed ≡ false
      → IsUnseen t e
      → ((scan_file f channels e t e.stat).broker ≡ t.broker)
        × ((scan_file f channels e t e.stat).primed ≡ false)
  unfolding scan_file is_write
  scan_file-silent e t p h = elim (Option-cases e.stat) [
    | inl n ↦ rw n (refl, p)
    | inr (s, st) ↦ rw (st, h, p) (refl, refl)
  ]

  still-IsUnseen :
      (e : Entry) (t : Trigger) (es : List Entry)
      → All (λ x. x.name ≢ e.name) es
      → All (IsUnseen t) es
      → All (IsUnseen (scan_file f channels e t e.stat)) es
  still-IsUnseen e t [] d h = tt
  still-IsUnseen e t (x ∷ es) d h =
      (scan_file-other e t x.name (λ same. d.0 (sym same)) ∙ h.0, still-IsUnseen e t es d.1 h.1)

  scan_files-silent :
      (es : List Entry) (t : Trigger)
      → t.primed ≡ false
      → All (IsUnseen t) es
      → IsDistinct es
      → (scan_files f channels es t).broker ≡ t.broker
  unfolding scan_files
  scan_files-silent [] t p h d = refl
  scan_files-silent (e ∷ es) t p h d =
      let step = scan_file-silent e t p h.0 in
      elim (Bool-cases (is_release f channels e)) [
        | inl r ↦
            rw (r, scan_files)
              (scan_files-silent es (scan_file f channels e t e.stat) step.1
                  (still-IsUnseen e t es d.0 h.1) d.1
                ∙ step.0)
        | inr r ↦ rw (r, scan_files) (scan_files-silent es t p h.1 d.1)
      ]

  first_scan_lem :
      (es : List Entry) (b : Broker)
      → IsDistinct es
      → (scan_once f channels (entries es) (new_trigger b)).broker ≡ b
  unfolding scan_once lookup
  first_scan_lem es b h = scan_files-silent es (new_trigger b) refl (unseen es) h
    where
      unseen : (es : List Entry) → All (IsUnseen (new_trigger b)) es
      unseen [] = tt
      unseen (e ∷ es) = (refl, unseen es)

  -- The first scan of a new trigger announces nothing, whatever release files are there already, and a
  -- second scan of a directory in which nothing was written since the first changes nothing, so it announces
  -- nothing, whatever the first one did. The names of a directory are distinct.
  pub scan_once_lem :
      (es : List Entry)
      → IsDistinct es
      → ((b : Broker) → (scan_once f channels (entries es) (new_trigger b)).broker ≡ b)
        × ((t : Trigger)
            → scan_once f channels (entries es) (scan_once f channels (entries es) t)
              ≡ scan_once f channels (entries es) t)
  scan_once_lem es h = (λ b. first_scan_lem es b h, λ t. rescan_lem es t h)
