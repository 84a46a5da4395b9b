-- ===== src/Scheduler/Redistribute/Tests.antt =====
-- Runs of `drainWorkerQueue` of internal/scheduler/scheduler.go.
use mass.Prelude.{◌≡◌, refl, true, false, [], ◌∷◌, none, some, bytes_eq, codes}
use mass.Prelude.Map.{lookup, erase}
use mass.Queue.Database.{in_tx, statement}
use mass.Queue.Envelope.{Envelope}
use mass.Queue.Model.{model_goqite, model_proto}
use mass.Queue.Ops.{delete, delete_both}
use mass.Queue.Ops.Handover.{Views, dropped}
use mass.Queue.Results.{
  Stamp, ResultRow, Store, processing, done, fail, update, exec, lift, get, update_row,
}
use mass.Queue.Results.Lifecycle.{after}
use mass.Queue.Table.{Row, delete_by_id}
use mass.Scheduler.Redistribute.{Drain, drain_envelope, disconnected_text, result_is_terminal}
use mass.Scheduler.Redistribute.Settled.{ended_job_dropped}

abbrev stamp : Stamp
stamp = record { second = 10; fraction = [] }

abbrev drain : Drain
drain = record {
  src = codes "worker|a";
  global = codes "global";
  now = 50;
  stamp = stamp;
  submit_error = codes "disk full";
}

abbrev job : Envelope model_proto
job = record {
  priority = 1;
  attempts = 2;
  cost = 0;
  queued_seconds = 0;
  runtime_name = codes "llama-cpp";
  model_id = codes "m";
  source = codes "direct";
  request_id = codes "r1";
  global_msg_id = codes "1";
  files = [];
  load_hints = [];
  payload = codes "{}";
  headroom_pct = 90;
}

abbrev anchor : Row
anchor = record {
  queue = codes "global";
  body = codes "x";
  priority = 1;
  created = 5;
  timeout = 90;
  received = 1;
}

abbrev placed : Row
placed = record {
  queue = codes "worker|a";
  body = codes "y";
  priority = 1;
  created = 5;
  timeout = 90;
  received = 1;
}

abbrev running : ResultRow
running = record {
  status = processing;
  body = [];
  err_text = none;
  created_at = stamp;
  completed_at = none;
}

abbrev finished : ResultRow
finished = record running { status = done; body = codes "out"; completed_at = some stamp }

abbrev store : ResultRow → Store
store row = record {
  db = record {
    rows = (codes "1", anchor) ∷ (codes "2", placed) ∷ [];
    notified = false;
    faults = [];
  };
  results = (codes "r1", row) ∷ [];
}

-- At its third attempt a job is failed, and both its rows go.
exhausted :
    drain_envelope model_goqite model_proto drain (codes "2") true false job (store running)
    ≡ record (after (fail (codes "r1") (disconnected_text 3) stamp (store running))) {
      db = record { rows = []; notified = false; faults = [] };
    }
unfolding drain_envelope result_is_terminal get fail update exec lift lookup delete_both delete
    in_tx statement delete_by_id erase bytes_eq update_row
exhausted = refl

ended_job_dropped_example :
    ((drain_envelope model_goqite model_proto drain
        (codes "2")
        true
        false
        job
        (store finished)).results
      ≡ (store finished).results)
    × (Views
        (λ j o. dropped drain.global (codes "1") j (dropped drain.src (codes "2") j o))
        (store finished).db.rows
        (drain_envelope model_goqite model_proto drain
          (codes "2")
          true
          false
          job
          (store finished)).db.rows)
unfolding lookup bytes_eq
ended_job_dropped_example =
    ended_job_dropped model_goqite model_proto drain (codes "2") true job (store finished) refl refl
