-- ===== src/Scheduler/Retry/Tests.antt =====
-- Runs of `retryAfterLoadFailure` of internal/scheduler/scheduler.go.
use mass.Prelude.{◌≡◌, refl, false, [], ◌∷◌, some, codes}
use mass.Queue.Database.{Db}
use mass.Queue.Envelope.{Envelope}
use mass.Queue.Model.{model_goqite, model_proto}
use mass.Queue.Table.{Row}
use mass.Scheduler.Retry.{retry_after_load_failure}
use mass.Scheduler.Retry.Attempts.{Retried, retry-Retried}

abbrev job : Envelope model_proto
job = record {
  priority = 1;
  attempts = 1;
  cost = 0;
  queued_seconds = 0;
  runtime_name = codes "llama-cpp";
  model_id = codes "m";
  source = codes "direct";
  request_id = codes "r1";
  global_msg_id = codes "1";
  files = [];
  load_hints = [];
  payload = codes "{}";
  headroom_pct = 90;
}

abbrev placed : Row
placed = record {
  queue = codes "worker|a";
  body = codes "y";
  priority = 1;
  created = 5;
  timeout = 90;
  received = 1;
}

abbrev db : Db
db = record { rows = (codes "2", placed) ∷ []; notified = false; faults = [] }

-- The second attempt of two was the last.
spent :
    retry_after_load_failure model_goqite model_proto 2
      (codes "worker|a")
      (codes "2")
      (some (codes "global"))
      job
      50
      db
    ≡ (false, db)
unfolding retry_after_load_failure
spent = refl

retry-Retried_example :
    Retried model_goqite model_proto 3
      (codes "worker|a")
      (codes "2")
      (some (codes "global"))
      job
      50
      db.rows
      (retry_after_load_failure model_goqite model_proto 3
        (codes "worker|a")
        (codes "2")
        (some (codes "global"))
        job
        50
        db)
retry-Retried_example =
    retry-Retried model_goqite model_proto 3 (codes "worker|a") (codes "2") (some (codes "global"))
      job 50 db
