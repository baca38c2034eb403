-- ===== src/Hub/Invalidate.antt =====
-- `Hub.InvalidatePrefix` of internal/hub/hub.go.
pub mod Laws
pub mod Race
use text.Mathlib.Text.{starts_with}
use edge_delta_lab.Prelude.{
  ℕ, zero, suc, ◌+◌, ◌-◌, String, Option, none, some, List, [], ◌∷◌, true, false, length,
}
use edge_delta_lab.Hub.Lru.{Entry, Lru}
use edge_delta_lab.Hub.Load.{Slice, Hub}

-- The inner loop: the first entry under the prefix, and the list without it.
unfoldable pub remove_first {ℓ} :
    {A : Type ℓ} → String → List (Entry A) → Option (Entry A × List (Entry A))
remove_first prefix [] = none
remove_first prefix (e ∷ es) =
    let found : Option (Entry _ × List (Entry _)) = some (e, es) in
    elim (starts_with e.rel prefix) [
      | true ↦ found
      | false ↦ elim (remove_first prefix es) [ none ↦ none | some (x, rest) ↦ some (x, e ∷ rest) ]
    ]

-- The outer loop, which starts over after each removal, with the count of dropped entries.
unfoldable pub remove_all : String → ℕ → Lru Slice → ℕ → Lru Slice × ℕ
remove_all prefix zero l dropped = (l, dropped)
remove_all prefix (suc fuel) l dropped = elim (remove_first prefix l.order) [
  | none ↦ (l, dropped)
  | some (e, rest) ↦
      remove_all prefix fuel (record l { order = rest; cur_bytes = l.cur_bytes - e.body.len })
        (dropped + 1)
]

-- Each round but the last removes an entry, so one round more than there are entries is enough.
unfoldable pub invalidate_prefix : Hub → String → Hub × ℕ
invalidate_prefix h prefix =
    let (lru', dropped) = remove_all prefix (suc (length h.lru.order)) h.lru 0 in
    (record h { lru = lru' }, dropped)
