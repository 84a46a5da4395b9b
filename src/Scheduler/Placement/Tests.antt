-- ===== src/Scheduler/Placement/Tests.antt =====
-- The statements on `Submit`, `drainGlobal` and `pickWorkerQueue` of internal/scheduler/scheduler.go at
-- one job and two workers.
use mass.Prelude.{
  ◌⊎◌, ℕ, ◌*◌, ◌/◌, max, ◌≡◌, refl, true, false, List, [], Option, ◌∷◌, none, some, Bytes, bytes_eq,
  codes, ltb, leb, arith,
}
use mass.Prelude.Map.{lookup, insert}
use mass.Queue.Database.{statement}
use mass.Queue.Envelope.{marshal}
use mass.Queue.Model.{model_goqite, model_proto}
use mass.Queue.Ops.{submit}
use mass.Queue.Results.{create}
use mass.Queue.Table.{Row}
use mass.Scheduler.Devices.{
  memory_eligible, device_set, projected_load_bytes, planned_pool_size, effective_headroom_pct,
}
use mass.Scheduler.Dispatch.Phases.{Advances, phase_of}
use mass.Scheduler.Dispatch.{Dispatcher, Setting, World, evicted, refused}
use mass.Scheduler.Inflight.{get_memory_reservation}
use mass.Scheduler.Placement.Kept.{Survives, IsHopeless, drain_global-Fates}
use mass.Scheduler.Placement.Passes.{Pass, placing, draining, run_passes, run_passes-Advances}
use mass.Scheduler.Placement.Submitted.{Answers, submit_job-Answers}
use mass.Scheduler.Placement.{
  SubmitRequest, rejected, envelope_refused, Desk, envelope_of, submit_job, drain_global,
}
use mass.Scheduler.QueueName.{worker_queue_name}
use mass.Scheduler.Sample.{whole, job, worker_a, stamp, state, waiting}
use mass.Scheduler.Scoring.Best.{IsBest, pick_worker_queue-IsBest}
use mass.Scheduler.Scoring.{Arith, Fleet, Target, workers_for_runtime, pick_worker_queue}
use mass.Worker.Status.{StreamWorker}

below_irrefl : (a : ℕ) → ltb a a ≡ false
below_irrefl a = ground arith

below_trans : (a b c : ℕ) → ltb a b ≡ true → ltb b c ≡ true → ltb a c ≡ true
below_trans a b c h k = ground (arith, h, k)

abbrev counted : Arith whole
counted = record {
  lt_f = ltb;
  le_f = leb;
  mul_f = ◌*◌;
  div_f = ◌/◌;
  max_f = max;
  giga = 1000000000;
  of_int = λ n. n;
  from_bits = λ n. n;
  to_bits = λ n. n;
  lt_irrefl = below_irrefl;
  lt_trans = below_trans;
}

abbrev worker_b : StreamWorker
worker_b = record worker_a { id = codes "b"; loaded = [] }

abbrev fleet : Fleet whole model_proto
fleet = record {
  workers = worker_b ∷ worker_a ∷ [];
  worker_enabled = λ id. true;
  device_enabled = λ id device. true;
  model_row = λ w env.
      some (record { units_per_sec = 5; graph_secs = 1; base_bytes = 1000; per_slot_bytes = 100 });
  load_gbs = λ id device. some 1;
  has_queue = λ queue. true;
  slots_cap = 4;
  rounds = λ row. some 8;
  url_and_size = λ f. none;
}

abbrev desk : Desk model_proto
desk = record {
  global = some (codes "global");
  lease = 86400000;
  now = 50;
  stamp = stamp;
  conclusion = λ env. (true, []);
}

abbrev request : SubmitRequest model_proto
request = record {
  runtime_name = codes "llama-cpp";
  model_id = codes "m";
  payload = codes "{}";
  cost = 10;
  files = [];
  load_hints = [];
  headroom_pct = 0;
  source = [];
  priority = 1;
}

pick_worker_queue-IsBest_example :
    IsBest whole model_proto counted fleet job state.ledger state.tails
      (pick_worker_queue whole model_proto counted fleet job state.ledger state.tails)
pick_worker_queue-IsBest_example =
    pick_worker_queue-IsBest whole model_proto counted fleet job state.ledger state.tails

submit_job-Answers_example :
    Answers model_goqite model_proto whole counted fleet desk
      (envelope_of model_proto request (codes "r2"))
      state
      (submit_job model_goqite model_proto whole counted fleet desk request (codes "r2") state).0
      (submit_job model_goqite model_proto whole counted fleet desk request (codes "r2") state).1
submit_job-Answers_example =
    submit_job-Answers model_goqite model_proto whole counted fleet desk request (codes "r2") state

abbrev bytes_of : Option Bytes → Bytes
bytes_of none = []
bytes_of (some body) = body

abbrev submitted_row : Row
submitted_row = record {
  queue = codes "global";
  body = bytes_of (marshal model_proto job);
  priority = 1;
  created = 5;
  timeout = 5;
  received = 0;
}

-- A job that waits on the global queue.
abbrev waiting_there : Dispatcher whole
waiting_there = record state {
  store = record state.store {
    db = record { rows = (codes "1", submitted_row) ∷ []; notified = false; faults = [] };
  };
}

drain_global-Fates_example :
    Survives
      (codes "1")
      submitted_row
      (drain_global model_goqite model_proto whole counted fleet desk waiting_there).1.store.db.rows
    ⊎ IsHopeless model_goqite model_proto whole counted fleet desk
        (codes "global")
        waiting_there.ledger
        (codes "1")
        submitted_row
unfolding lookup bytes_eq
drain_global-Fates_example =
    drain_global-Fates model_goqite model_proto whole counted fleet desk (codes "global")
      waiting_there refl (refl, tt) (codes "1") submitted_row refl

-- A worker's queue as the passes find it.
abbrev setting_a : Setting
setting_a = record {
  queue = codes "worker|a";
  global = some (codes "global");
  worker = worker_a;
  enabled = λ id. true;
  max_attempts = 3;
  slots_cap = 4;
  retry_interval = 200;
  now = 50;
  stamp = stamp;
}

abbrev world_a : World whole
world_a = record {
  row = none;
  rounds = none;
  task_seconds = 5;
  debited = λ t. 0;
  evicts = λ id. evicted;
  free_at_load = 8000;
  load_error = none;
  no_pool_size = [];
  meanwhile = [];
  assign = refused [];
}

abbrev passes : List (Pass model_proto whole)
passes = placing fleet desk ∷ draining setting_a true false 30 (λ id. world_a) ∷ []

run_passes-Advances_example : Advances (phase_of (lookup (codes "r1") state.store.results)) (
    phase_of (
      lookup
        (codes "r1")
        (run_passes model_goqite model_proto whole counted passes state).store.results))
run_passes-Advances_example =
    run_passes-Advances model_goqite model_proto whole counted passes state (codes "r1")

name_of : Option (Target whole) → Bytes
name_of none = []
name_of (some t) = t.name

-- Both workers would have to load the model and score the same: the first by ID is taken.
picked :
    name_of (pick_worker_queue whole model_proto counted fleet job state.ledger state.tails)
    ≡ codes "worker|a"
unfolding name_of pick_worker_queue bytes_eq memory_eligible device_set get_memory_reservation
    lookup insert projected_load_bytes planned_pool_size effective_headroom_pct worker_queue_name
picked = refl

-- The database that takes the result and then refuses the envelope.
abbrev half_refusing : Dispatcher whole
half_refusing = record state {
  store = record state.store { db = record state.store.db { faults = false ∷ true ∷ [] } };
}

-- The submission is rejected, and its result is left pending.
left_pending :
    ((submit_job model_goqite model_proto whole counted fleet desk request
        (codes "r2")
        half_refusing).0
      ≡ rejected envelope_refused)
    × (lookup
          (codes "r2")
          (submit_job model_goqite model_proto whole counted fleet desk request
            (codes "r2")
            half_refusing).1.store.results
        ≡ some waiting)
unfolding submit_job workers_for_runtime bytes_eq create lookup statement submit marshal envelope_of
    insert
left_pending = (refl, refl)
