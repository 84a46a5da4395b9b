-- ===== src/Queue/Sweeper/Tests.antt =====
-- Runs of internal/queue/results.go and internal/queue/sweeper.go on small inputs.
use mass.Prelude.{◌≡◌, refl, false, [], ◌∷◌, none, some, Bytes, bytes_eq, codes, List}
use mass.Prelude.Map.{lookup, insert, erase, IsMap}
use mass.Queue.Database.{statement}
use mass.Queue.Envelope.{unmarshal_envelope}
use mass.Queue.Model.{model_goqite, model_proto}
use mass.Queue.Ops.{list_abandoned, delete}
use mass.Queue.Results.{
  Stamp, ResultRow, Store, did, get, fail, done, processing, exec, update, lift,
}
use mass.Queue.Results.Lifecycle.{
  Moves, Call, call_complete, call_pending, call_cleanup, perform, perform_all, IsOver, ended,
  perform-Moves, perform_all-IsOver, after,
}
use mass.Queue.Sweeper.{
  abandoned_message, names_of, reap_one, reap_abandoned, reap_queue, reap_queues, reap_each,
}
use mass.Queue.Sweeper.Kept.{reap_abandoned-Keeps}
use mass.Queue.Sweeper.Reaped.{Keeps, Reaped, reap_one-Reaped}
use mass.Queue.Table.{Row, delete_by_id}

abbrev queue_a : Bytes
queue_a = codes "worker|a"

abbrev early : Stamp
early = record { second = 10; fraction = [] }

abbrev late : Stamp
late = record { second = 20; fraction = 53 ∷ [] }

abbrev finished_row : ResultRow
finished_row = record {
  status = done;
  body = codes "out";
  err_text = none;
  created_at = early;
  completed_at = some early;
}

abbrev running_row : ResultRow
running_row = record {
  status = processing;
  body = [];
  err_text = none;
  created_at = early;
  completed_at = none;
}

abbrev spent : Row
spent = record {
  queue = queue_a;
  body = codes "x";
  priority = 1;
  created = 2;
  timeout = 8;
  received = 1;
}

abbrev store : Store
store = record {
  db = record {
    rows = (codes "1", spent) ∷ (codes "2", spent) ∷ [];
    notified = false;
    faults = [];
  };
  results = (codes "1", finished_row) ∷ (codes "2", running_row) ∷ [];
}

store-IsMap : IsMap store.results
unfolding lookup bytes_eq
store-IsMap = (refl, (refl, tt))

-- A sweep counts both rows, keeps the result that is done and fails the one that is running.
swept :
    reap_abandoned model_goqite model_proto
      (codes "global")
      (queue_a ∷ [])
      (λ _. 100)
      (λ _. late)
      store
    ≡ did
        (2, false)
        (after (
          fail
            (codes "2")
            (codes "task abandoned: delivered 1 of 1 times, no result reported")
            late
            (record store { db = record store.db { rows = [] } })))
unfolding reap_abandoned list_abandoned delete names_of unmarshal_envelope statement lookup insert
    erase bytes_eq get fail exec lift update reap_queues reap_each reap_queue reap_one delete_by_id
    abandoned_message
swept = refl

perform-Moves_example :
    Moves false
      (lookup (codes "2") store.results)
      (lookup (codes "2") (perform (call_complete (codes "2") (codes "ok") late) store).results)
    × IsMap (perform (call_complete (codes "2") (codes "ok") late) store).results
perform-Moves_example =
    perform-Moves (call_complete (codes "2") (codes "ok") late) store (codes "2") store-IsMap

abbrev calls : List Call
calls = call_pending (codes "1") ∷ call_cleanup late ∷ []

perform_all-IsOver_example : IsOver (lookup (codes "1") (perform_all calls store).results)
unfolding lookup bytes_eq
perform_all-IsOver_example =
    perform_all-IsOver calls store (codes "1") store-IsMap (refl, (refl, tt))
      (ended finished_row refl)

reap_one-Reaped_example :
    Reaped queue_a
      (some (codes "global"))
      (codes "1")
      (names_of model_proto (record { id = codes "1"; body = codes "x" })).0
      (names_of model_proto (record { id = codes "1"; body = codes "x" })).1
      store
      (reap_one model_goqite model_proto queue_a
        (some (codes "global"))
        late
        (record { id = codes "1"; body = codes "x" })
        store)
reap_one-Reaped_example =
    reap_one-Reaped model_goqite model_proto queue_a (some (codes "global")) late
      (record { id = codes "1"; body = codes "x" }) store

reap_abandoned-Keeps_example :
    Keeps store.results
      (after (
        reap_abandoned model_goqite model_proto
          (codes "global")
          (queue_a ∷ [])
          (λ _. 100)
          (λ _. late)
          store)).results
reap_abandoned-Keeps_example =
    reap_abandoned-Keeps model_goqite model_proto (codes "global") (queue_a ∷ []) (λ _. 100)
      (λ _. late) store
