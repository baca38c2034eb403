-- ===== src/Hub/Lru.antt =====
-- The byte-budgeted LRU of internal/hub/hub.go. The map `items` and the list `order` hold the same
-- elements: both are the one list `order` (front = most recent), whose keys `IsValid` keeps distinct.
-- A body is anything with a size in bytes, so that the hub can store references to its buffers.
pub mod Valid
pub mod Evict
use edge_delta_lab.Prelude.{
  ℕ, zero, suc, ◌+◌, ◌-◌, String, Bool, true, false, ◌&&◌, Option, none, some, List, [], ◌∷◌, ltb,
  if◌then◌else◌, str_eq, length,
}
use edge_delta_lab.Prelude.Int.{ℤ, pos, ltb_ℤ}

pub record Entry {ℓ} (A : Type ℓ) : Type ℓ where
  pub rel : String
  pub body : A

pub record Lru {ℓ} (A : Type ℓ) : Type ℓ where
  pub max_bytes : ℤ
  pub cur_bytes : ℕ
  pub order : List (Entry A)

unfoldable pub new_lru {ℓ} : {A : Type ℓ} → ℤ → Lru A
new_lru max_bytes = record { max_bytes = max_bytes; cur_bytes = 0; order = [] }

module _ {ℓ} {A : Type ℓ} where
  -- `l.items[rel]`
  unfoldable pub find : String → List (Entry A) → Option A
  find rel [] = none
  find rel (e ∷ es) = if str_eq e.rel rel then some e.body else find rel es

  -- The list without the element of `rel`.
  unfoldable pub without : String → List (Entry A) → List (Entry A)
  without rel [] = []
  without rel (e ∷ es) = let rest = without rel es in if str_eq e.rel rel then es else e ∷ rest

  -- The element of `rel`, moved to the front with this body.
  abbrev pub to_front : String → A → List (Entry A) → List (Entry A)
  to_front rel body es = record { rel = rel; body = body } ∷ without rel es

  unfoldable pub get : Lru A → String → Lru A × Option A
  get l rel = elim (find rel l.order) [
    | none ↦ (l, none)
    | some body ↦ (record l { order = to_front rel body l.order }, some body)
  ]

  -- `order.Back()` and the list without it.
  unfoldable pub pop_back : Entry A → List (Entry A) → List (Entry A) × Entry A
  pop_back e [] = ([], e)
  pop_back e (f ∷ es) = let (rest, last) = pop_back f es in (e ∷ rest, last)

module _ {ℓ} {A : Type ℓ} (size : A → ℕ) where
  -- The first half of `put`: a known element gets the new body, a new one is pushed to the front.
  unfoldable pub store : Lru A → String → A → Lru A
  store l rel body = elim (find rel l.order) [
    | some old ↦ record l {
      order = to_front rel body l.order;
      cur_bytes = l.cur_bytes + size body - size old;
    }
    | none ↦ record l {
      order = record { rel = rel; body = body } ∷ l.order;
      cur_bytes = l.cur_bytes + size body;
    }
  ]

  unfoldable pub over_budget : Lru A → Bool
  over_budget l = ltb_ℤ l.max_bytes (pos l.cur_bytes) && ltb 1 (length l.order)

  -- One round of the loop of `put`; with no element left it does nothing (`break`).
  unfoldable pub drop_oldest : Lru A → Lru A
  drop_oldest l = elim l.order [
    | [] ↦ l
    | e ∷ es ↦
        let (rest, last) = pop_back e es in
        record l { order = rest; cur_bytes = l.cur_bytes - size last.body }
  ]

  -- The loop of `put`, with the number of entries that it evicted.
  unfoldable pub evict : ℕ → Lru A → ℕ → Lru A × ℕ
  evict zero l evicted = (l, evicted)
  evict (suc fuel) l evicted =
      let rest = evict fuel (drop_oldest l) (evicted + 1) in
      if over_budget l then rest else (l, evicted)

  -- Each round drops an element, so as many rounds as there are elements are enough.
  unfoldable pub put : Lru A → String → A → Lru A × ℕ
  put l rel body = let l' = store l rel body in evict (length l'.order) l' 0
