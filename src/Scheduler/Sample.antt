-- ===== src/Scheduler/Sample.antt =====
-- A worker, a job and a state on which the tests of the modules about internal/scheduler/scheduler.go
-- run.
use mass.Prelude.{ℕ, ◌+◌, ◌-◌, ◌==◌, true, false, [], ◌∷◌, none, some, codes}
use mass.Queue.Envelope.{Envelope}
use mass.Queue.Model.{model_proto}
use mass.Queue.Results.{Stamp, ResultRow, pending}
use mass.Queue.Table.{Row}
use mass.Scheduler.Dispatch.{Dispatcher}
use mass.Scheduler.Inflight.{Float64, new_ledger}
use mass.Worker.Status.{gpu, LoadedModelStatus, StreamWorker}

-- Seconds counted in whole ones.
abbrev pub whole : Float64
whole = record { F = ℕ; zero_f = 0; add_f = ◌+◌; sub_f = ◌-◌; is_drained = λ n. n == 0 }

abbrev pub job : Envelope model_proto
job = record {
  priority = 1;
  attempts = 0;
  cost = 0;
  queued_seconds = 0;
  runtime_name = codes "llama-cpp";
  model_id = codes "m";
  source = codes "direct";
  request_id = codes "r1";
  global_msg_id = codes "1";
  files = [];
  load_hints = [];
  payload = codes "{}";
  headroom_pct = 90;
}

-- An idle model of another name on the one device.
abbrev pub resident : LoadedModelStatus
resident = record {
  model_id = codes "old";
  pool_size = 2;
  active = 0;
  source = codes "direct";
  idle_since = some 3;
  device_ids = codes "gpu:0" ∷ [];
  files = [];
}

abbrev pub worker_a : StreamWorker
worker_a = record {
  id = codes "a";
  runtime_name = codes "llama-cpp";
  devices = (record { id = codes "gpu:0"; kind = gpu; total_memory_mb = 8000 }) ∷ [];
  online = true;
  last_seen = 5;
  loopback = true;
  vram_headroom_pct = 75;
  device_stats = [];
  cache_files = [];
  loaded = resident ∷ [];
  available_cap = 2;
  active_jobs_count = 0;
}

abbrev pub stamp : Stamp
stamp = record { second = 10; fraction = [] }

abbrev pub placed : Row
placed = record {
  queue = codes "worker|a";
  body = codes "y";
  priority = 1;
  created = 5;
  timeout = 90;
  received = 1;
}

abbrev pub waiting : ResultRow
waiting = record {
  status = pending;
  body = [];
  err_text = none;
  created_at = stamp;
  completed_at = none;
}

-- A job recovered from a restart: it has a result, and no buffer.
abbrev pub state : Dispatcher whole
state = record {
  store = record {
    db = record { rows = (codes "2", placed) ∷ []; notified = false; faults = [] };
    results = (codes "r1", waiting) ∷ [];
  };
  ledger = new_ledger whole;
  buffers = [];
  tails = [];
  kicks = 0;
  later_kicks = 0;
  calls = [];
  pumps = [];
}
