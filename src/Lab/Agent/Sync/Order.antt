-- ===== src/Lab/Agent/Sync/Order.antt =====
-- When a state of the agent is not behind another, and the assumptions on JSON and on the names of
-- temporary files.
use edge_delta_lab.Prelude.{◌≤◌, ◌≡◌, ◌≢◌, ◌∙◌, refl, sym, ap, String, arith, ok, eq_iff}
use edge_delta_lab.Lab.Manifest.{codes, Chunk, Manifest}
use edge_delta_lab.Lab.Object.{cache_path}
use edge_delta_lab.Lab.Agent.{State, World, admit}
use edge_delta_lab.Lab.Agent.Sync.{state_path, manifest_path, staged_path}

-- JSON gives back the state that was written.
pub record StateLaw (w : World) : Type 0 where
  pub round_trip : (s : State) → w.unmarshal_state (w.marshal_state s) ≡ ok s

-- Temporary files have names of their own.
pub record HasOwnTemp (w : World) : Type 0 where
  pub not_state : state_path ≢ w.temp
  pub not_manifest : (digest : String) → manifest_path digest ≢ w.temp
  pub not_cache : (c : Chunk) → cache_path c ≢ w.temp
  pub not_staged : (sha256 : String) → staged_path sha256 ≢ w.temp

-- `s` is not behind `old`: a lower sequence is behind, and so is another manifest of the same one.
pub record AtLeast (old s : State) : Type 0 where
  pub sequence : old.sequence ≤ s.sequence
  pub same :
      old.sequence ≡ s.sequence → old.manifest_sha256 ≢ "" → s.manifest_sha256 ≡ old.manifest_sha256

pub AtLeast-refl : (s : State) → AtLeast s s
AtLeast-refl s = record { sequence = omega arith; same = λ _ _. refl }

pub AtLeast-trans : (a b c : State) → AtLeast a b → AtLeast b c → AtLeast a c
AtLeast-trans a b c ab bc = record {
  sequence = omega (arith, ab.sequence, bc.sequence);
  same = λ e ne.
      let p = ab.same (omega (arith, ab.sequence, bc.sequence)) ne in
      bc.same (omega (arith, ab.sequence, bc.sequence)) (λ q. ne (sym p ∙ q)) ∙ p;
}

pub admit-AtLeast :
    (old s : State) (m : Manifest) (digest : String)
    → admit old m digest ≡ ok tt
    → s.sequence ≡ m.sequence
    → s.manifest_sha256 ≡ digest
    → AtLeast old s
unfolding admit
admit-AtLeast old s m digest h es ed = record {
  sequence = ground arith;
  same = λ e ne. ground (arith, eq_iff old.manifest_sha256 "", eq_iff digest old.manifest_sha256);
}

pub state-ne-manifest : (digest : String) → state_path ≢ manifest_path digest
unfolding manifest_path
state-ne-manifest digest e = ground (arith, ap codes e)

pub state-ne-cache : (c : Chunk) → state_path ≢ cache_path c
unfolding cache_path
state-ne-cache c e = ground (arith, ap codes e)

pub state-ne-staged : (sha256 : String) → state_path ≢ staged_path sha256
unfolding staged_path
state-ne-staged sha256 e = ground (arith, ap codes e)
