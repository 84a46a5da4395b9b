-- ===== src/Scheduler/Devices/Tests.antt =====
-- Runs of the memory books of internal/scheduler/scheduler.go.
use mass.Prelude.{ℕ, ◌+◌, ◌-◌, ◌≤◌, ◌==◌, ◌≡◌, refl, true, [], ◌∷◌, some, bytes_eq, codes, arith}
use mass.Prelude.Map.{lookup, insert}
use mass.Scheduler.Devices.{
  ModelBenchmarkRow, device_set, enabled_of, free_memory_bytes, sum_free, projected_load_bytes,
  planned_pool_size, latency_slots, effective_headroom_pct, effective_capacity, drain_batch,
}
use mass.Scheduler.Devices.Memory.{planned_load-fits}
use mass.Scheduler.Inflight.{Float64, new_ledger, get_memory_reservation, inflight_count_for_worker}
use mass.Worker.Status.{cpu, gpu, StreamWorker}

-- Seconds counted in whole ones.
abbrev whole : Float64
whole = record { F = ℕ; zero_f = 0; add_f = ◌+◌; sub_f = ◌-◌; is_drained = λ n. n == 0 }

abbrev worker_a : StreamWorker
worker_a = record {
  id = codes "a";
  runtime_name = codes "llama-cpp";
  devices =
      (record { id = codes "cpu:0"; kind = cpu; total_memory_mb = 64000 })
      ∷ (record { id = codes "gpu:1"; kind = gpu; total_memory_mb = 3 })
      ∷ (record { id = codes "gpu:0"; kind = gpu; total_memory_mb = 5 })
      ∷ [];
  online = true;
  last_seen = 5;
  loopback = true;
  vram_headroom_pct = 75;
  device_stats =
      (record { device_id = codes "gpu:1"; used_memory_mb = 1; total_memory_mb = 3 }) ∷ [];
  cache_files = [];
  loaded = [];
  available_cap = 2;
  active_jobs_count = 0;
}

-- 2 MB for the first slot, 1 MB for each other.
abbrev benched : ModelBenchmarkRow whole
benched = record {
  units_per_sec = 5;
  graph_secs = 1;
  base_bytes = 2097152;
  per_slot_bytes = 1048576;
}

-- Of 7 MB, three quarters of what is behind the first 2 MB go into slots: four of them.
sized :
    (device_set (λ id. true) worker_a ≡ codes "gpu:1" ∷ codes "gpu:0" ∷ [])
    × (free_memory_bytes whole (λ id. true) worker_a (new_ledger whole) ≡ 7340032)
    × (planned_pool_size whole 7340032 75 (some 8) 6 benched ≡ 4)
    × (projected_load_bytes whole 4 benched ≡ 5242880)
    × (drain_batch whole worker_a (new_ledger whole) ≡ 2)
unfolding device_set enabled_of free_memory_bytes sum_free planned_pool_size latency_slots
    projected_load_bytes effective_headroom_pct get_memory_reservation lookup insert bytes_eq
    drain_batch inflight_count_for_worker effective_capacity
sized = (refl, refl, refl, refl, refl)

planned_load-fits_example :
    projected_load_bytes whole
      (planned_pool_size whole 7340032 (effective_headroom_pct 75 0) (some 8) 6 benched)
      benched
    ≤ 7340032
planned_load-fits_example =
    planned_load-fits whole 7340032 75 0 6 (some 8) benched (omega arith) (omega arith)
      (omega arith) (omega arith)
