-- ===== src/Scheduler/Devices.antt =====
-- internal/scheduler/scheduler.go: the devices that a load on a worker would take, the models that are
-- in its way, and the memory that it needs. int64 and int stand as 64-bit patterns.
pub mod Memory
mod Tests
use mass.Prelude.{
  ℕ, ◌+◌, ◌*◌, ◌/◌, ◌%◌, min, Bool, true, false, not, ◌&&◌, ◌||◌, List, [], ◌∷◌, Option, none, some,
  Bytes, bytes_eq, if◌then◌else◌, ltb, leb, length, ◌==◌,
}
use mass.Prelude.Map.{Map, lookup, insert}
use mass.Prelude.Words.{two_63, two_64, add_64, sub_64, is_positive}
use mass.Queue.Envelope.{is_empty}
use mass.Scheduler.Inflight.{
  Float64, Ledger, value_or, get_memory_reservation, inflight_count_for_worker,
}
use mass.Worker.Status.{
  DeviceType, gpu, cpu, unknown_device, Device, DeviceStats, LoadedModelStatus, StreamWorker,
}

abbrev pub has_id : Bytes → List Bytes → Bool
has_id id [] = false
has_id id (j ∷ ids) = if bytes_eq j id then true else has_id id ids

-- sort.Strings, and Go's `<` on strings
abbrev pub string_lt : Bytes → Bytes → Bool
string_lt [] [] = false
string_lt [] (y ∷ ys) = true
string_lt (x ∷ xs) [] = false
string_lt (x ∷ xs) (y ∷ ys) = if ltb x y then true else if ltb y x then false else string_lt xs ys

sort_in : Bytes → List Bytes → List Bytes
sort_in x [] = x ∷ []
sort_in x (y ∷ ys) = if string_lt y x then y ∷ sort_in x ys else x ∷ y ∷ ys

unfoldable pub sort_strings : List Bytes → List Bytes
unfolding sort_in
sort_strings [] = []
sort_strings (x ∷ xs) = sort_in x (sort_strings xs)

abbrev is_gpu : DeviceType → Bool
is_gpu gpu = true
is_gpu _ = false

abbrev is_cpu : DeviceType → Bool
is_cpu cpu = true
is_cpu _ = false

-- The enabled devices of one kind. `enabled` is `isDeviceEnabled`, for the worker.
unfoldable pub enabled_of : (DeviceType → Bool) → (Bytes → Bool) → List Device → List Bytes
enabled_of is_kind enabled [] = []
enabled_of is_kind enabled (dev ∷ devs) =
    let rest = enabled_of is_kind enabled devs in
    if is_kind dev.kind && enabled dev.id then dev.id ∷ rest else rest

prefer : List Bytes → List Bytes → List Bytes
prefer [] cpus = cpus
prefer (d ∷ gpus) cpus = d ∷ gpus

unfoldable pub predict_device_set : (Bytes → Bool) → StreamWorker → List Bytes
unfolding enabled_of sort_strings prefer
predict_device_set enabled w =
    prefer (sort_strings (enabled_of is_gpu enabled w.devices))
      (sort_strings (enabled_of is_cpu enabled w.devices))

first_of : List Bytes → List Bytes
first_of [] = []
first_of (d ∷ ds) = d ∷ []

unfoldable pub device_set : (Bytes → Bool) → StreamWorker → List Bytes
unfolding enabled_of prefer first_of
device_set enabled w =
    prefer (enabled_of is_gpu enabled w.devices) (first_of (enabled_of is_cpu enabled w.devices))

unfoldable pub contains_model_id : List LoadedModelStatus → Bytes → Bool
contains_model_id [] model_id = false
contains_model_id (lm ∷ lms) model_id =
    if bytes_eq lm.model_id model_id then true else contains_model_id lms model_id

unfoldable pub worker_has_model : StreamWorker → Bytes → Bool
unfolding contains_model_id
worker_has_model w model_id =
    if is_empty model_id then true else contains_model_id w.loaded model_id

-- Some device of the list is outside the set; some device is inside.
unfoldable pub any_outside : List Bytes → List Bytes → Bool
any_outside predicted [] = false
any_outside predicted (d ∷ ds) = if has_id d predicted then any_outside predicted ds else true

unfoldable pub any_inside : List Bytes → List Bytes → Bool
any_inside predicted [] = false
any_inside predicted (d ∷ ds) = if has_id d predicted then true else any_inside predicted ds

overlaps : List Bytes → List Bytes → Bool
unfolding any_inside
overlaps predicted [] = true
overlaps predicted (d ∷ ds) = any_inside predicted (d ∷ ds)

unfoldable pub blocks : Bytes → List Bytes → LoadedModelStatus → Bool
unfolding any_outside overlaps
blocks target predicted lm =
    if bytes_eq lm.model_id target
    then any_outside predicted lm.device_ids
    else overlaps predicted lm.device_ids

unfoldable pub blockers_among : Bytes → List Bytes → List LoadedModelStatus → List LoadedModelStatus
unfolding blocks
blockers_among target predicted [] = []
blockers_among target predicted (lm ∷ lms) =
    let rest = blockers_among target predicted lms in
    if blocks target predicted lm then lm ∷ rest else rest

unfoldable pub residents_blocking_load : StreamWorker → Bytes → List Bytes → List LoadedModelStatus
unfolding blockers_among
residents_blocking_load w target [] = []
residents_blocking_load w target (d ∷ predicted) = blockers_among target (d ∷ predicted) w.loaded

-- The loop of the dispatcher's gate, `needsLoad`.
unfoldable pub needs_load : StreamWorker → Bytes → List LoadedModelStatus → Bool
unfolding worker_has_model contains_model_id
needs_load w model_id blockers =
    not (is_empty model_id)
    && (not (worker_has_model w model_id) || contains_model_id blockers model_id)

abbrev mul_64 : ℕ → ℕ → ℕ
mul_64 a b = a * b % two_64

-- Go's `/` on int64, which rounds to zero, by a positive divisor.
abbrev quot_64 : ℕ → ℕ → ℕ
quot_64 x d = if ltb x two_63 then x / d else sub_64 0 (sub_64 0 x / d)

-- store.ModelBenchmarkRow, as far as placement reads it.
pub record ModelBenchmarkRow (fl : Float64) : Type 0 where
  pub units_per_sec : Float64.F fl
  pub graph_secs : Float64.F fl
  pub base_bytes : ℕ
  pub per_slot_bytes : ℕ

totals_of : List Bytes → List Device → Map ℕ → Map ℕ
totals_of set [] m = m
totals_of set (d ∷ devs) m =
    totals_of set devs (if has_id d.id set then insert d.id d.total_memory_mb m else m)

used_of : List Bytes → List DeviceStats → Map ℕ → Map ℕ
used_of set [] m = m
used_of set (st ∷ stats) m =
    used_of set stats
      (if has_id st.device_id set then insert st.device_id st.used_memory_mb m else m)

abbrev pub free_on : ℕ → ℕ → ℕ
free_on total used =
    let delta = mul_64 (mul_64 (sub_64 total used) 1024) 1024 in
    if is_positive delta then delta else 0

unfoldable pub sum_free : Map ℕ → Map ℕ → ℕ
sum_free used [] = 0
sum_free used ((id, total) ∷ totals) =
    add_64 (free_on total (value_or 0 (lookup id used))) (sum_free used totals)

net_of : ℕ → ℕ → ℕ
net_of reserved free =
    let free = if is_positive reserved then sub_64 free reserved else free in
    if ltb free two_63 then free else 0

raw_free : List Bytes → StreamWorker → ℕ
unfolding totals_of used_of sum_free
raw_free set w = sum_free (used_of set w.device_stats []) (totals_of set w.devices [])

pub free_in : List Bytes → StreamWorker → ℕ → ℕ
unfolding raw_free net_of
free_in [] w reserved = 0
free_in (d ∷ set) w reserved = net_of reserved (raw_free (d ∷ set) w)

-- `rounds` is `int(EffectiveBenchBudgetSeconds() / GraphSecs)`, where `GraphSecs` is positive.
unfoldable pub latency_slots : Option ℕ → ℕ → ℕ
latency_slots none cap = min (if is_positive cap then cap else 1) cap
latency_slots (some rounds) cap = min (if is_positive rounds then rounds else 1) cap

-- The operator's override, the worker's own figure, or 75.
unfoldable pub effective_headroom_pct : ℕ → ℕ → ℕ
effective_headroom_pct worker_pct override =
    if leb 1 override && leb override 100
    then override
    else if leb 1 worker_pct && leb worker_pct 100
    then worker_pct
    else 75

memory_slots : ℕ → ℕ → ℕ → ℕ → ℕ
memory_slots slots headroom per_slot base =
    if is_positive per_slot && is_positive base
    then if is_positive headroom then min slots (1 + headroom / per_slot) else 1
    else slots

module _ (fl : Float64) where
  unfoldable pub free_memory_bytes : (Bytes → Bool) → StreamWorker → Ledger fl → ℕ
  unfolding free_in
  free_memory_bytes enabled w l =
      free_in (device_set enabled w) w (get_memory_reservation fl w.id l)

  -- `pct` is `EffectiveHeadroomPct`.
  unfoldable pub planned_pool_size : ℕ → ℕ → Option ℕ → ℕ → ModelBenchmarkRow fl → ℕ
  unfolding latency_slots memory_slots
  planned_pool_size free pct rounds cap row =
      memory_slots (latency_slots rounds cap)
        (quot_64 (mul_64 (sub_64 free row.base_bytes) pct) 100) row.per_slot_bytes row.base_bytes

  unfoldable pub projected_load_bytes : ℕ → ModelBenchmarkRow fl → ℕ
  projected_load_bytes pool row =
      if not (is_positive row.base_bytes)
      then 0
      else if not (is_positive row.per_slot_bytes)
      then row.base_bytes
      else add_64 row.base_bytes (mul_64 (sub_64 pool 1) row.per_slot_bytes)

  unfoldable pub memory_eligible :
      (Bytes → Bool) → StreamWorker → Bytes → ModelBenchmarkRow fl → Ledger fl → Bool
  unfolding free_memory_bytes worker_has_model
  memory_eligible enabled w model_id row l =
      if not (is_positive row.base_bytes)
      then true
      else if not (is_empty model_id) && worker_has_model w model_id
      then true
      else leb row.base_bytes (free_memory_bytes enabled w l)

  unfoldable pub effective_capacity : StreamWorker → Ledger fl → ℕ
  effective_capacity w l =
      let unseen = sub_64 (inflight_count_for_worker fl w.id l) w.active_jobs_count in
      sub_64 w.available_cap (if is_positive unseen then unseen else 0)

  -- How many rows a pass over the worker's queue takes; no more than none reads as no pass.
  unfoldable pub drain_batch : StreamWorker → Ledger fl → ℕ
  unfolding effective_capacity
  drain_batch w l =
      let capacity = effective_capacity w l in
      let batch =
        if inflight_count_for_worker fl w.id l == 0
        then if is_positive capacity then capacity else 1
        else capacity in
      if is_positive batch then batch else 0
