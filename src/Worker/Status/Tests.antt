-- ===== src/Worker/Status/Tests.antt =====
-- Runs of `ApplyHeartbeat` of internal/worker/stream_worker.go.
use mass.Prelude.{
  ◌↔◌, ◌≡◌, refl, true, List, [], ◌∷◌, Option, none, some, Bytes, bytes_eq, codes, ℕ,
}
use mass.Prelude.Map.{lookup, insert}
use mass.Worker.Status.{
  LoadedModelStatus, LoadedReport, WorkerHeartbeat, StreamWorker, index, index_from,
  same_loaded_set, apply_heartbeat, merge_loaded, refreshed, known_source,
}
use mass.Worker.Status.Changes.{find, shown, same_loaded_set_lem}
use mass.Worker.Status.Heartbeats.{IsIdleSince, apply_heartbeats, IsIdleSince-stays}

abbrev model_of : Bytes → ℕ → Option ℕ → LoadedModelStatus
model_of id active since = record {
  model_id = id;
  pool_size = 2;
  active = active;
  source = codes "direct";
  idle_since = since;
  device_ids = codes "gpu:0" ∷ [];
  files = [];
}

abbrev two : List LoadedModelStatus
two = model_of (codes "m") 0 (some 3) ∷ model_of (codes "n") 1 none ∷ []

abbrev swapped : List LoadedModelStatus
swapped = model_of (codes "n") 1 none ∷ model_of (codes "m") 0 (some 9) ∷ []

abbrev idle_report : LoadedReport
idle_report = record {
  model_id = codes "m";
  pool_size = 2;
  active = 0;
  device_ids = codes "gpu:0" ∷ [];
  files = [];
}

abbrev beat : WorkerHeartbeat
beat = record {
  active_jobs = 0;
  available_capacity = 2;
  device_stats = [];
  cache_files = [];
  loaded_models = idle_report ∷ [];
}

abbrev worker_a : StreamWorker
worker_a = record {
  id = codes "a";
  runtime_name = codes "llama-cpp";
  devices = [];
  online = true;
  last_seen = 5;
  loopback = true;
  vram_headroom_pct = 75;
  device_stats = [];
  cache_files = [];
  loaded = two;
  available_cap = 2;
  active_jobs_count = 0;
}

-- The model that is not reported any more is a change; the one that is keeps its stamp.
beaten :
    ((apply_heartbeat 8 beat worker_a).0 ≡ true)
    × ((apply_heartbeat 8 beat worker_a).1.loaded ≡ model_of (codes "m") 0 (some 3) ∷ [])
unfolding apply_heartbeat index index_from merge_loaded refreshed known_source same_loaded_set
    lookup insert bytes_eq
beaten = (refl, refl)

same_loaded_set_lem_example :
    (same_loaded_set two swapped ≡ true)
    ↔ ((m : Bytes) → shown (find m two) ≡ shown (find m swapped))
unfolding bytes_eq
same_loaded_set_lem_example = same_loaded_set_lem two swapped (refl, (refl, tt)) (refl, (refl, tt))

IsIdleSince-stays_example :
    IsIdleSince
      (codes "direct")
      3
      (lookup (codes "m") (index (apply_heartbeats ((8, beat) ∷ (9, beat) ∷ []) worker_a).loaded))
unfolding index index_from lookup insert bytes_eq
IsIdleSince-stays_example =
    IsIdleSince-stays (codes "m") (codes "direct") 3 ((8, beat) ∷ (9, beat) ∷ []) worker_a
      (refl, refl) ((refl, (λ _. refl, tt)), ((refl, (λ _. refl, tt)), tt))
