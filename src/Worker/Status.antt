-- ===== src/Worker/Status.antt =====
-- internal/worker/stream_worker.go: what MASS knows of a worker from its registration and its
-- heartbeats. Integers are 64-bit patterns; figures that are only shown are left out.
pub mod Changes
pub mod Heartbeats
mod Tests
use mass.Prelude.{
  ℕ, ◌≡◌, Bool, true, false, not, ◌&&◌, ◌||◌, List, [], ◌∷◌, map, Option, none, some, Bytes,
  if◌then◌else◌, length, ◌==◌,
}
use mass.Prelude.Map.{Map, lookup, insert}
use mass.Prelude.Words.{is_positive}

pub data DeviceType : Type 0 where
  gpu cpu unknown_device : DeviceType

pub record Device : Type 0 where
  pub id : Bytes
  pub kind : DeviceType
  pub total_memory_mb : ℕ

pub record DeviceStats : Type 0 where
  pub device_id : Bytes
  pub used_memory_mb : ℕ
  pub total_memory_mb : ℕ

-- `idle_since` is none for the zero time.
pub record LoadedModelStatus : Type 0 where
  pub model_id : Bytes
  pub pool_size : ℕ
  pub active : ℕ
  pub source : Bytes
  pub idle_since : Option ℕ
  pub device_ids : List Bytes
  pub files : List Bytes

pub record StreamWorker : Type 0 where
  pub id : Bytes
  pub runtime_name : Bytes
  pub devices : List Device
  pub online : Bool
  pub last_seen : ℕ
  pub loopback : Bool
  pub vram_headroom_pct : ℕ
  pub device_stats : List DeviceStats
  pub cache_files : List Bytes
  pub loaded : List LoadedModelStatus
  pub available_cap : ℕ
  pub active_jobs_count : ℕ

-- workerpb.LoadedModelStatus and workerpb.WorkerHeartbeat, as far as MASS reads them.
pub record LoadedReport : Type 0 where
  pub model_id : Bytes
  pub pool_size : ℕ
  pub active : ℕ
  pub device_ids : List Bytes
  pub files : List Bytes

pub record WorkerHeartbeat : Type 0 where
  pub active_jobs : ℕ
  pub available_capacity : ℕ
  pub device_stats : List DeviceStats
  pub cache_files : List Bytes
  pub loaded_models : List LoadedReport

-- The loops that index a list by its models' IDs: a later entry replaces an earlier one.
unfoldable pub index_from : Map LoadedModelStatus → List LoadedModelStatus → Map LoadedModelStatus
index_from m [] = m
index_from m (lm ∷ lms) = index_from (insert lm.model_id lm m) lms

unfoldable pub index : List LoadedModelStatus → Map LoadedModelStatus
unfolding index_from
index lms = index_from [] lms

unfoldable pub known_source : Option LoadedModelStatus → Bytes
known_source none = []
known_source (some old) = old.source

known_stamp : ℕ → Option ℕ → Option ℕ
known_stamp now none = some now
known_stamp now (some t) = some t

idle_stamp : ℕ → Option LoadedModelStatus → Option ℕ
unfolding known_stamp
idle_stamp now none = some now
idle_stamp now (some old) = known_stamp now old.idle_since

unfoldable pub refreshed : ℕ → Option LoadedModelStatus → LoadedReport → LoadedModelStatus
unfolding known_source idle_stamp
refreshed now old lm = record {
  model_id = lm.model_id;
  pool_size = lm.pool_size;
  active = lm.active;
  source = known_source old;
  idle_since = if is_positive lm.active then none else idle_stamp now old;
  device_ids = lm.device_ids;
  files = lm.files;
}

unfoldable pub merge_loaded : ℕ → Map LoadedModelStatus → List LoadedReport → List LoadedModelStatus
unfolding refreshed
merge_loaded now prev [] = []
merge_loaded now prev (lm ∷ lms) =
    refreshed now (lookup lm.model_id prev) lm ∷ merge_loaded now prev lms

same_counts : Option LoadedModelStatus → LoadedModelStatus → Bool
same_counts none lm = false
same_counts (some prev) lm = (prev.pool_size == lm.pool_size) && (prev.active == lm.active)

unfoldable pub all_known : Map LoadedModelStatus → List LoadedModelStatus → Bool
unfolding same_counts
all_known idx [] = true
all_known idx (lm ∷ lms) = same_counts (lookup lm.model_id idx) lm && all_known idx lms

unfoldable pub same_loaded_set : List LoadedModelStatus → List LoadedModelStatus → Bool
unfolding index all_known
same_loaded_set a b = if length a == length b then all_known (index a) b else false

new_stats : List DeviceStats → List DeviceStats → List DeviceStats
new_stats old [] = old
new_stats old (d ∷ ds) = d ∷ ds

-- Whether the set of loaded models changed, and the worker.
unfoldable pub apply_heartbeat : ℕ → WorkerHeartbeat → StreamWorker → Bool × StreamWorker
unfolding index merge_loaded same_loaded_set new_stats
apply_heartbeat now hb w =
    let loaded = merge_loaded now (index w.loaded) hb.loaded_models in
    (
      not (same_loaded_set w.loaded loaded),
      record w {
        online = true;
        last_seen = now;
        active_jobs_count = hb.active_jobs;
        available_cap = hb.available_capacity;
        device_stats = new_stats w.device_stats hb.device_stats;
        cache_files = hb.cache_files;
        loaded = loaded;
      },
    )
