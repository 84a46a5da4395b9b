-- ===== src/Scheduler/Dispatch/Tests.antt =====
-- Runs of `dispatchEnvelope` of internal/scheduler/scheduler.go.
use mass.Prelude.{◌≡◌, refl, true, false, [], ◌∷◌, none, some, bytes_eq, codes}
use mass.Prelude.Map.{lookup, insert}
use mass.Queue.Model.{model_goqite, model_proto}
use mass.Scheduler.Devices.{
  predict_device_set, residents_blocking_load, enabled_of, sort_strings, needs_load,
}
use mass.Scheduler.Dispatch.{Setting, World, evicted, assigned, dispatch_envelope}
use mass.Scheduler.Dispatch.Calls.{Sends, IsOrderly, dispatch-IsOrderly}
use mass.Scheduler.Dispatch.Cancelled.{IsUnsent, cancelled_dispatch-IsUnsent}
use mass.Scheduler.Dispatch.Endings.{Settled}
use mass.Scheduler.Dispatch.Settled.{IsShut, dispatch-settles}
use mass.Scheduler.Inflight.{op_cancel, mark_dispatching}
use mass.Scheduler.Inflight.Cancel.{apply_all}
use mass.Scheduler.Sample.{whole, job, resident, worker_a, stamp, waiting, placed, state}

abbrev setting : Setting
setting = record {
  queue = codes "worker|a";
  global = some (codes "global");
  worker = worker_a;
  enabled = λ id. true;
  max_attempts = 3;
  slots_cap = 4;
  retry_interval = 200;
  now = 50;
  stamp = stamp;
}

abbrev world : World whole
world = record {
  row =
      some (record { units_per_sec = 5; graph_secs = 1; base_bytes = 1000; per_slot_bytes = 100 });
  rounds = some 8;
  task_seconds = 5;
  debited = λ t. 0;
  evicts = λ id. evicted;
  free_at_load = 8000;
  load_error = none;
  no_pool_size = codes "load model: max_concurrent must be > 0";
  meanwhile = [];
  assign = assigned (codes "j1");
}

-- The resident is in the way, and the model is to be loaded.
in_the_way :
    (residents_blocking_load worker_a (codes "m") (codes "gpu:0" ∷ []) ≡ resident ∷ [])
    × (predict_device_set (λ id. true) worker_a ≡ codes "gpu:0" ∷ [])
    × (needs_load worker_a (codes "m") (resident ∷ []) ≡ true)
unfolding residents_blocking_load predict_device_set enabled_of sort_strings needs_load bytes_eq
in_the_way = (refl, refl, refl)

dispatch-IsOrderly_example :
    Sends whole
      (IsOrderly model_goqite model_proto whole setting world job state)
      state
      (dispatch_envelope model_goqite model_proto whole setting world (codes "2") job state)
dispatch-IsOrderly_example =
    dispatch-IsOrderly model_goqite model_proto whole setting world (codes "2") job state

dispatch-settles_example :
    Settled model_goqite model_proto whole setting placed
      (codes "2")
      job
      state
      (dispatch_envelope model_goqite model_proto whole setting world (codes "2") job state).0
      (dispatch_envelope model_goqite model_proto whole setting world (codes "2") job state).1
    × IsShut whole
        (codes "r1")
        (dispatch_envelope model_goqite model_proto whole setting world
          (codes "2")
          job
          state).1.ledger
unfolding lookup bytes_eq
dispatch-settles_example =
    dispatch-settles model_goqite model_proto whole setting world placed (codes "2") job state
      waiting (refl, refl, refl) (refl, refl) refl

abbrev cancelling : World whole
cancelling = record world { meanwhile = op_cancel (codes "r1") ∷ [] }

cancelled_dispatch-IsUnsent_example :
    IsUnsent whole state
      (dispatch_envelope model_goqite model_proto whole setting cancelling (codes "2") job state).1
unfolding apply_all mark_dispatching lookup insert bytes_eq
cancelled_dispatch-IsUnsent_example =
    cancelled_dispatch-IsUnsent model_goqite model_proto whole setting cancelling (codes "2") job
      false [] [] state refl refl tt
