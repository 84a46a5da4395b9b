-- ===== src/Scheduler/Cancels/Tests.antt =====
-- Runs of `CancelByRequestID` of internal/scheduler/queue_view.go.
use mass.Prelude.{
  ℕ, ◌+◌, ◌-◌, ◌==◌, ◌≡◌, refl, true, false, [], ◌∷◌, none, some, Bytes, bytes_eq, codes,
}
use mass.Prelude.Map.{lookup, insert}
use mass.Queue.Envelope.{Envelope, marshal}
use mass.Queue.Model.{model_goqite, model_proto}
use mass.Queue.Ops.{peek}
use mass.Queue.Database.{statement}
use mass.Queue.Results.{lift, lifted, Stamp, ResultRow, pending}
use mass.Queue.Table.{Row, order_by_priority}
use mass.Scheduler.Cancels.{
  View, Console, ok_reply, cancel_by_request_id, cancel_running_job, cancel_queued_row,
  unknown_queue, is_known, not_inflight, on_global, scanned, cancel_on_workers, cancel_dispatched,
  after_flag, send_cancel, find_request,
}
use mass.Scheduler.Cancels.ByRequest.{Reaches, all_queues, cancel_by_request_id-Reaches}
use mass.Scheduler.Inflight.{
  Float64, InflightRecord, new_ledger, value_or, mark_inflight_cancelled,
  request_cancel_during_dispatch,
}

-- Seconds counted in whole ones.
abbrev whole : Float64
whole = record { F = ℕ; zero_f = 0; add_f = ◌+◌; sub_f = ◌-◌; is_drained = λ n. n == 0 }

abbrev job : Envelope model_proto
job = record {
  priority = 1;
  attempts = 0;
  cost = 0;
  queued_seconds = 0;
  runtime_name = codes "llama-cpp";
  model_id = codes "m";
  source = codes "direct";
  request_id = codes "r1";
  global_msg_id = codes "1";
  files = [];
  load_hints = [];
  payload = codes "{}";
  headroom_pct = 90;
}

abbrev row_of : Bytes → ℕ → Row
row_of queue timeout = record {
  queue = queue;
  body = value_or [] (marshal model_proto job);
  priority = 1;
  created = 5;
  timeout = timeout;
  received = 0;
}

abbrev stamp : Stamp
stamp = record { second = 10; fraction = [] }

abbrev waiting : ResultRow
waiting = record {
  status = pending;
  body = [];
  err_text = none;
  created_at = stamp;
  completed_at = none;
}

abbrev console : Console whole
console = record {
  global = some (codes "global");
  workers = codes "worker|a" ∷ codes "worker|b" ∷ [];
  connected = λ id. true;
  streams = λ id. true;
  sends = λ id. true;
  debited = λ seconds t. 0;
  limit = 100;
  now = 50;
  stamp = stamp;
}

-- The job waits on a worker's queue, behind its leased anchor.
abbrev view : View whole
view = record {
  store = record {
    db = record {
      rows =
          (codes "1", row_of (codes "global") 9000) ∷ (codes "2", row_of (codes "worker|b") 5) ∷ [];
      notified = false;
      faults = [];
    };
    results = (codes "r1", waiting) ∷ [];
  };
  ledger = new_ledger whole;
  buffers = [];
  tails = [];
  kicks = 0;
  cancels = [];
}

abbrev running : InflightRecord whole
running = record {
  queue_name = codes "worker|a";
  seconds = 5;
  model_id = codes "m";
  worker_job_id = codes "j7";
  worker_id = codes "a";
  cancelled_by_operator = false;
  reserved_bytes = 0;
  runtime_name = codes "llama-cpp";
}

abbrev busy : View whole
busy = record view {
  ledger = record (new_ledger whole) { inflight_by_request = (codes "r9", running) ∷ [] };
}

-- A running job's cancel goes to its worker under the worker's own job ID; a queue of another name is
-- refused.
told :
    ((cancel_running_job model_goqite model_proto whole console (codes "r9") busy).0 ≡ ok_reply)
    × ((cancel_running_job model_goqite model_proto whole console (codes "r9") busy).1.cancels
        ≡ (codes "a", codes "j7") ∷ [])
    × ((cancel_queued_row model_goqite model_proto whole console
          (codes "worker|c")
          (codes "2")
          view).0
        ≡ unknown_queue)
unfolding cancel_running_job mark_inflight_cancelled lookup insert bytes_eq cancel_queued_row
    is_known
told = (refl, refl, refl)

-- The gate has bounced the row a moment ago: no scan shows it, and the cancel does not find it.
abbrev bounced_view : View whole
bounced_view = record view {
  store = record view.store {
    db = record view.store.db { rows = (codes "2", row_of (codes "worker|b") 250) ∷ [] };
  };
}

unseen :
    (cancel_by_request_id model_goqite model_proto whole console (codes "r1") bounced_view).0
    ≡ not_inflight
unfolding cancel_by_request_id on_global scanned cancel_on_workers cancel_dispatched after_flag
    cancel_running_job send_cancel request_cancel_during_dispatch mark_inflight_cancelled lookup
    bytes_eq peek statement lift lifted find_request order_by_priority
unseen = refl

cancel_by_request_id-Reaches_example :
    Reaches model_goqite model_proto whole console
      (codes "r1")
      (all_queues model_goqite model_proto whole console (Console.global console))
      view
      (cancel_by_request_id model_goqite model_proto whole console (codes "r1") view)
unfolding lookup bytes_eq
cancel_by_request_id-Reaches_example =
    cancel_by_request_id-Reaches model_goqite model_proto whole console (codes "r1") view
      (refl, (refl, tt))
