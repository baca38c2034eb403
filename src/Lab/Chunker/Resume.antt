-- ===== src/Lab/Chunker/Resume.antt =====
-- The chunking starts afresh at every cut, so a suffix that two inputs share is chunked alike after
-- a cut: this is what lets a receiver reuse the chunks of an earlier release.
use edge_delta_lab.Prelude.{
  ℕ, ◌≡◌, refl, ap, Bool, true, false, List, [], ◌∷◌, ◌++◌, arith, ◌==◌, if◌then◌else◌, length,
  Bool-cases, inl, inr,
}
use edge_delta_lab.Lab.Chunker.{roll, flush, is_boundary, split_loop}

module _ (gear : ℕ → ℕ) (min avg max : ℕ) where
  abbrev is_fresh : List ℕ → ℕ → Bool
  is_fresh [] rolling = rolling == 0
  is_fresh (_ ∷ _) rolling = false

  -- After these bytes the buffer is empty: the last of them ended a chunk.
  unfoldable pub ends_at_cut : List ℕ → ℕ → List ℕ → Bool
  ends_at_cut buf rolling [] = is_fresh buf rolling
  ends_at_cut buf rolling (b ∷ bytes) =
      let buf' = buf ++ b ∷ [] in
      let rolling' = roll gear rolling b in
      let cut = ends_at_cut [] 0 bytes in
      let more = ends_at_cut buf' rolling' bytes in
      if is_boundary min avg max (length buf') rolling' then cut else more

  split_loop-append :
      (buf : List ℕ) (rolling : ℕ) (xs ys : List ℕ)
      → ends_at_cut buf rolling xs ≡ true
      → split_loop gear min avg max buf rolling (xs ++ ys)
        ≡ split_loop gear min avg max buf rolling xs ++ split_loop gear min avg max [] 0 ys
  unfolding split_loop ends_at_cut flush
  split_loop-append [] rolling [] ys h = let fresh : rolling ≡ 0 = ground arith in rw fresh refl
  split_loop-append (x ∷ buf) rolling [] ys h = cc
  split_loop-append buf rolling (b ∷ xs) ys h =
      elim (Bool-cases (is_boundary min avg max (length (buf ++ b ∷ [])) (roll gear rolling b))) [
        | inl cut ↦ rw cut (ap (◌∷◌ (buf ++ b ∷ [])) (split_loop-append [] 0 xs ys (rw cut at h)))
        | inr more ↦
            rw more (split_loop-append (buf ++ b ∷ []) (roll gear rolling b) xs ys (rw more at h))
      ]

  -- Two inputs that end in the same bytes, each cut where these begin, share all the chunks from
  -- there on: each is its own chunks followed by the chunks of the common suffix.
  pub shared_suffix :
      (xs xs' ys : List ℕ)
      → ends_at_cut [] 0 xs ≡ true
      → ends_at_cut [] 0 xs' ≡ true
      → (cs : List (List ℕ)) × (cs' : List (List ℕ)) × (common : List (List ℕ)) × (split_loop gear
            min avg max [] 0
            (xs ++ ys)
          ≡ cs ++ common)
        × (split_loop gear min avg max [] 0 (xs' ++ ys) ≡ cs' ++ common)
        × (common ≡ split_loop gear min avg max [] 0 ys)
  shared_suffix xs xs' ys h h' = (
    split_loop gear min avg max [] 0 xs,
    split_loop gear min avg max [] 0 xs',
    split_loop gear min avg max [] 0 ys,
    split_loop-append [] 0 xs ys h,
    split_loop-append [] 0 xs' ys h',
    refl,
  )
