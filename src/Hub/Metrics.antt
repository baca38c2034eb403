-- ===== src/Hub/Metrics.antt =====
-- The device metrics of internal/hub/hub.go: Record, Snapshot and sortDevices. Times are numbers, and
-- Go's order on texts is the argument `less`.
use edge_delta_lab.Prelude.{
  ℕ, suc, ◌+◌, ◌≡◌, refl, sym, ◌∙◌, String, Bool, true, false, Option, none, some, List, [], ◌∷◌,
  if◌then◌else◌, str_eq, length, arith, Bool-cases, inl, inr,
}
use edge_delta_lab.Prelude.Int.{ℤ, pos, add64}
use edge_delta_lab.Prelude.Dict.{Dict, lookup, insert, lookup-insert}
use edge_delta_lab.Hub.Load.{Hub}

pub record DeviceMetrics : Type 0 where
  pub device : String
  pub requests : ℕ
  pub chunk_requests : ℕ
  pub meta_requests : ℕ
  pub bytes_served : ℤ
  pub last_seen : ℕ

pub record HubStats : Type 0 where
  pub cache_max_bytes : ℤ
  pub cache_bytes : ℕ
  pub cache_objects : ℕ
  pub disk_reads : ℕ
  pub cache_hits : ℕ
  pub coalesced : ℕ
  pub evictions : ℕ
  pub inflight_reads : ℕ
  pub devices : List DeviceMetrics

-- `d, ok := h.devices[device]`, with the new record where there is none
unfoldable pub device_of : String → Option DeviceMetrics → DeviceMetrics
device_of device none = record {
  device = device;
  requests = 0;
  chunk_requests = 0;
  meta_requests = 0;
  bytes_served = pos 0;
  last_seen = 0;
}
device_of device (some d) = d

unfoldable pub count_request : Bool → ℤ → ℕ → DeviceMetrics → DeviceMetrics
count_request is_chunk bytes now d = record d {
  requests = suc d.requests;
  chunk_requests = if is_chunk then suc d.chunk_requests else d.chunk_requests;
  meta_requests = if is_chunk then d.meta_requests else suc d.meta_requests;
  bytes_served = add64 d.bytes_served bytes;
  last_seen = now;
}

-- `Record`, on the map of devices
unfoldable pub record_request :
    String → String → Bool → ℤ → ℕ → Dict DeviceMetrics → Dict DeviceMetrics
unfolding device_of count_request
record_request anon_name device is_chunk bytes now devices =
    let name = if str_eq device "" then anon_name else device in
    insert name (count_request is_chunk bytes now (device_of name (lookup name devices))) devices

-- The inner loop of `sortDevices`: the element moves back over those that it is less than. The
-- sorted elements before it come last first.
unfoldable pub move_back :
    (String → String → Bool) → DeviceMetrics → List DeviceMetrics → List DeviceMetrics
move_back less d [] = d ∷ []
move_back less d (e ∷ before) =
    if less d.device e.device then e ∷ move_back less d before else d ∷ e ∷ before

unfoldable pub reverse_onto : List DeviceMetrics → List DeviceMetrics → List DeviceMetrics
reverse_onto [] ds = ds
reverse_onto (e ∷ before) ds = reverse_onto before (e ∷ ds)

unfoldable pub sort_from :
    (String → String → Bool) → List DeviceMetrics → List DeviceMetrics → List DeviceMetrics
unfolding move_back reverse_onto
sort_from less before [] = reverse_onto before []
sort_from less before (d ∷ ds) = sort_from less (move_back less d before) ds

unfoldable pub values : Dict DeviceMetrics → List DeviceMetrics
values [] = []
values ((k, d) ∷ m) = d ∷ values m

unfoldable pub snapshot_hub : (String → String → Bool) → Hub → Dict DeviceMetrics → HubStats
unfolding sort_from values
snapshot_hub less h devices = record {
  cache_max_bytes = h.lru.max_bytes;
  cache_bytes = h.lru.cur_bytes;
  cache_objects = length h.lru.order;
  disk_reads = h.disk_reads;
  cache_hits = h.cache_hits;
  coalesced = h.coalesced;
  evictions = h.evictions;
  inflight_reads = length h.inflight;
  devices = sort_from less [] (values devices);
}

-- Every request of a device was one for a chunk or one for metadata.
abbrev pub IsAccounted : Dict DeviceMetrics → Type 0
IsAccounted m =
    (k : String) (d : DeviceMetrics)
    → lookup k m ≡ some d
    → d.requests ≡ d.chunk_requests + d.meta_requests

device_of-sum :
    (name : String) (o : Option DeviceMetrics)
    → ((d : DeviceMetrics) → o ≡ some d → d.requests ≡ d.chunk_requests + d.meta_requests)
    → (device_of name o).requests
      ≡ (device_of name o).chunk_requests + (device_of name o).meta_requests
unfolding device_of
device_of-sum name none h = refl
device_of-sum name (some d) h = h d refl

count_request-sum :
    (is_chunk : Bool) (bytes : ℤ) (now : ℕ) (d : DeviceMetrics)
    → d.requests ≡ d.chunk_requests + d.meta_requests
    → (count_request is_chunk bytes now d).requests
      ≡ (count_request is_chunk bytes now d).chunk_requests
        + (count_request is_chunk bytes now d).meta_requests
unfolding count_request
count_request-sum true bytes now d h = omega (arith, h)
count_request-sum false bytes now d h = omega (arith, h)

insert-IsAccounted :
    (name : String) (d : DeviceMetrics) (m : Dict DeviceMetrics)
    → d.requests ≡ d.chunk_requests + d.meta_requests
    → IsAccounted m
    → IsAccounted (insert name d m)
insert-IsAccounted name d m h all k x e =
    let found : (if str_eq name k then some d else lookup k m) ≡ some x =
      sym (lookup-insert name k d m) ∙ e in
    elim (Bool-cases (str_eq name k)) [
      | inl c ↦ let same : d ≡ x = ground (arith, c, found) in rw (sym same) h
      | inr c ↦ all k x (ground (arith, c, found))
    ]

-- Recording a request of any device, named or not, keeps this of all devices.
pub record_request-IsAccounted :
    (anon_name device : String) (is_chunk : Bool) (bytes : ℤ) (now : ℕ) (m : Dict DeviceMetrics)
    → IsAccounted m
    → IsAccounted (record_request anon_name device is_chunk bytes now m)
unfolding record_request
record_request-IsAccounted anon_name device is_chunk bytes now m all =
    let name = if str_eq device "" then anon_name else device in
    insert-IsAccounted name (count_request is_chunk bytes now (device_of name (lookup name m))) m
      (count_request-sum is_chunk bytes now (device_of name (lookup name m))
        (device_of-sum name (lookup name m) (all name)))
      all
