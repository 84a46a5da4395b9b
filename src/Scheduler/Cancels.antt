-- ===== src/Scheduler/Cancels.antt =====
-- internal/scheduler/queue_view.go: what an operator or a gateway does to a job that was submitted,
-- cancels and the return of a row to the global queue. Logs and broadcasts are left out.
pub mod Answers
pub mod ByRequest
pub mod Effects
mod Tests
use mass.Prelude.{
  ℕ, ◌+◌, Bool, true, false, not, ◌&&◌, List, [], ◌∷◌, ◌++◌, Option, none, some, Bytes, bytes_eq,
  codes, if◌then◌else◌,
}
use mass.Prelude.Map.{Map, lookup, insert, erase}
use mass.Queue.Database.{Goqite}
use mass.Queue.Envelope.{Proto, Envelope, is_empty, unmarshal_envelope}
use mass.Queue.Ops.{peek, delete, delete_and_release_lease}
use mass.Queue.Results.{Stamp, ResultRow, Store, Outcome, did, failed, crashed, S, lift, get, fail}
use mass.Queue.Results.Lifecycle.{after}
use mass.Queue.Sweeper.{delete_message}
use mass.Queue.Table.{Message}
use mass.Scheduler.Dispatch.{TailState}
use mass.Scheduler.Finalize.{cancelled_text}
use mass.Scheduler.Inflight.{
  Float64, Ledger, mark_inflight_cancelled, request_cancel_during_dispatch,
}
use mass.Scheduler.StreamBuffer.{JobBuffer}

-- What a call may answer. `store_error` is an error of the queue, `panics` a panic in the database.
pub data Reply : Type 0 where
  ok_reply row_in_flight unknown_queue evict_global_row no_anchor not_initialised not_inflight
        no_worker_id worker_gone not_streamed send_error store_error panics :
      Reply

-- `cancels` are the workers and jobs for which `CancelJob` was called.
pub record View (fl : Float64) : Type 0 where
  pub store : Store
  pub ledger : Ledger fl
  pub buffers : Map JobBuffer
  pub tails : Map (TailState fl)
  pub kicks : ℕ
  pub cancels : List (Bytes × Bytes)

-- `global` is the name of `globalQ`, if it is there; `workers` are the names in `devQueues`, in the
-- order in which a loop over that map meets them; `connected` that the registry has the worker,
-- `streams` that it is a `StreamWorker`, and `sends` that it takes the message; `debited` is the
-- `max(0, t - env.QueuedSeconds)` of a tail, from the bits of the seconds; `limit` is
-- `queuePeekLimit`.
pub record Console (fl : Float64) : Type 0 where
  pub global : Option Bytes
  pub workers : List Bytes
  pub connected : Bytes → Bool
  pub streams : Bytes → Bool
  pub sends : Bytes → Bool
  pub debited : ℕ → Float64.F fl → Float64.F fl
  pub limit : ℕ
  pub now : ℕ
  pub stamp : Stamp

-- The loop of `findUnleasedRow`.
unfoldable pub find_message : Bytes → List Message → Option Message
find_message id [] = none
find_message id (m ∷ msgs) = if bytes_eq m.id id then some m else find_message id msgs

abbrev pub names_request : (p : Proto) → Bytes → Option (Envelope p) → Bool
names_request p request_id none = false
names_request p request_id (some env) = bytes_eq env.request_id request_id

-- The loops of `findPendingGlobalRow` and `findPendingWorkerRow` over the messages of a queue.
unfoldable pub find_request : (p : Proto) → Bytes → List Message → Option Bytes
find_request p request_id [] = none
find_request p request_id (m ∷ msgs) =
    if names_request p request_id (unmarshal_envelope p m.body)
    then some m.id
    else find_request p request_id msgs

module _ (g : Goqite) (p : Proto) (fl : Float64) (c : Console fl) where
  -- A cancel of a queued row behind its deletion: the result, and the buffer.
  record_cancel : Option (Envelope p) → View fl → View fl
  record_cancel none v = v
  record_cancel (some env) v = if is_empty env.request_id then v else record v {
    store = after (fail env.request_id cancelled_text (Console.stamp c) v.store);
    buffers = erase env.request_id v.buffers;
  }

  deleted : Option (Envelope p) → Outcome (Unit {0}) → View fl → Reply × View fl
  unfolding record_cancel
  deleted env (did _ s) v = (ok_reply, record_cancel env (record v { store = s }))
  deleted env (failed s) v = (store_error, record v { store = s })
  deleted env (crashed s) v = (panics, record v { store = s })

  abbrev pub anchor_of : Option (Envelope p) → Bytes
  anchor_of none = []
  anchor_of (some env) = env.global_msg_id

  -- A worker's row goes with its anchor, if it names one and there is a global queue; a row of the
  -- global queue, for which no anchor queue is given, goes alone.
  delete_row : Bytes → Option Bytes → Bytes → Option (Envelope p) → View fl → Reply × View fl
  unfolding deleted
  delete_row queue anchors id env v =
      deleted env (delete_message g p queue anchors id (anchor_of env) v.store) v

  cancel_found : Bytes → Option Bytes → Bytes → Option Message → View fl → Reply × View fl
  unfolding delete_row
  cancel_found queue anchors id none v = (row_in_flight, v)
  cancel_found queue anchors id (some m) v =
      delete_row queue anchors id (unmarshal_envelope p m.body) v

  cancel_peeked : Bytes → Option Bytes → Bytes → Outcome (List Message) → View fl → Reply × View fl
  unfolding cancel_found find_message
  cancel_peeked queue anchors id (did msgs s) v =
      cancel_found queue anchors id (find_message id msgs) (record v { store = s })
  cancel_peeked queue anchors id (failed s) v = (store_error, record v { store = s })
  cancel_peeked queue anchors id (crashed s) v = (panics, record v { store = s })

  abbrev peek_in : Bytes → View fl → Outcome (List Message)
  peek_in queue v = lift (peek queue (Console.limit c) (Console.now c)) v.store

  -- `cancelWorkerQueue`, and `cancelGlobal` where there are no anchors.
  unfoldable pub cancel_in : Bytes → Option Bytes → Bytes → View fl → Reply × View fl
  unfolding cancel_peeked
  cancel_in queue anchors id v = cancel_peeked queue anchors id (peek_in queue v) v

  unfoldable pub is_known : Bytes → List Bytes → Bool
  is_known queue [] = false
  is_known queue (name ∷ names) = if bytes_eq name queue then true else is_known queue names

  cancel_global : Bytes → Option Bytes → View fl → Reply × View fl
  unfolding cancel_in
  cancel_global id none v = (not_initialised, v)
  cancel_global id (some global) v = cancel_in global none id v

  unfoldable pub cancel_queued_row : Bytes → Bytes → View fl → Reply × View fl
  unfolding cancel_global cancel_in is_known
  cancel_queued_row queue id v =
      if bytes_eq queue (codes "global")
      then cancel_global id (Console.global c) v
      else if is_known queue (Console.workers c)
      then cancel_in queue (Console.global c) id v
      else (unknown_queue, v)

  released : Bytes → ℕ → Outcome (Unit {0}) → View fl → Reply × View fl
  released queue seconds (did _ s) v = (
    ok_reply,
    record v {
      store = s;
      tails = elim (lookup queue v.tails) [
        | none ↦ v.tails
        | some t ↦ insert queue (record t { seconds = Console.debited c seconds t.seconds }) v.tails
      ];
      kicks = v.kicks + 1;
    },
  )
  released queue seconds (failed s) v = (store_error, record v { store = s })
  released queue seconds (crashed s) v = (panics, record v { store = s })

  evict_found : Bytes → Bytes → Bytes → Option (Envelope p) → View fl → Reply × View fl
  unfolding released
  evict_found queue global id none v = (no_anchor, v)
  evict_found queue global id (some env) v =
      if is_empty env.global_msg_id
      then (no_anchor, v)
      else released queue env.queued_seconds
          (lift (delete_and_release_lease g queue id global env.global_msg_id (Console.now c))
            v.store)
          v

  evict_peeked : Bytes → Bytes → Bytes → Outcome (List Message) → View fl → Reply × View fl
  unfolding evict_found find_message
  evict_peeked queue global id (did msgs s) v = elim (find_message id msgs) [
    | none ↦ (row_in_flight, record v { store = s })
    | some m ↦ evict_found queue global id (unmarshal_envelope p m.body) (record v { store = s })
  ]
  evict_peeked queue global id (failed s) v = (store_error, record v { store = s })
  evict_peeked queue global id (crashed s) v = (panics, record v { store = s })

  evict_from : Bytes → Bytes → Option Bytes → View fl → Reply × View fl
  unfolding evict_peeked
  evict_from queue id none v = (not_initialised, v)
  evict_from queue id (some global) v = evict_peeked queue global id (peek_in queue v) v

  unfoldable pub evict_queued_row_to_global : Bytes → Bytes → View fl → Reply × View fl
  unfolding evict_from is_known
  evict_queued_row_to_global queue id v =
      if bytes_eq queue (codes "global")
      then (evict_global_row, v)
      else if is_known queue (Console.workers c)
      then evict_from queue id (Console.global c) v
      else (unknown_queue, v)

  -- What `markInflightCancelled` returned: the worker, its job, and whether the request runs.
  send_cancel : Bytes → Bytes → Bool → View fl → Reply × View fl
  send_cancel worker_id job_id false v = (not_inflight, v)
  send_cancel worker_id job_id true v =
      if is_empty job_id
      then (ok_reply, v)
      else if is_empty worker_id
      then (no_worker_id, v)
      else if not (Console.connected c worker_id)
      then (worker_gone, v)
      else if not (Console.streams c worker_id)
      then (not_streamed, v)
      else if not (Console.sends c worker_id)
      then (send_error, record v { cancels = (worker_id, job_id) ∷ v.cancels })
      else (ok_reply, record v { cancels = (worker_id, job_id) ∷ v.cancels })

  unfoldable pub cancel_running_job : Bytes → View fl → Reply × View fl
  unfolding send_cancel
  cancel_running_job request_id v =
      let marked = mark_inflight_cancelled fl request_id v.ledger in
      send_cancel (marked.0).0 ((marked.0).1).0 ((marked.0).1).1 (record v { ledger = marked.1 })

  -- The last two stages: the dispatch window, and the running job.
  after_flag : Bytes → Bool × Ledger fl → View fl → Reply × View fl
  unfolding cancel_running_job
  after_flag request_id (true, l) v = (ok_reply, record v { ledger = l })
  after_flag request_id (false, l) v = cancel_running_job request_id (record v { ledger = l })

  unfoldable pub cancel_dispatched : Bytes → View fl → Reply × View fl
  unfolding after_flag
  cancel_dispatched request_id v =
      after_flag request_id (request_cancel_during_dispatch fl request_id v.ledger) v

  -- What a scan of a queue found, and what comes where it found nothing.
  scanned :
      Bytes
      → Bytes
      → Option Bytes
      → Outcome (List Message)
      → (View fl → Reply × View fl)
      → View fl
      → Reply × View fl
  unfolding find_request cancel_in
  scanned request_id queue anchors (did msgs s) next v = elim (find_request p request_id msgs) [
    | none ↦ next (record v { store = s })
    | some id ↦ cancel_in queue anchors id (record v { store = s })
  ]
  scanned request_id queue anchors (failed s) next v = (store_error, record v { store = s })
  scanned request_id queue anchors (crashed s) next v = (panics, record v { store = s })

  unfoldable pub cancel_on_workers : Bytes → List Bytes → View fl → Reply × View fl
  unfolding scanned cancel_dispatched
  cancel_on_workers request_id [] v = cancel_dispatched request_id v
  cancel_on_workers request_id (queue ∷ queues) v =
      scanned request_id queue (Console.global c) (peek_in queue v)
        (λ v. cancel_on_workers request_id queues v) v

  on_global : Bytes → Option Bytes → View fl → Reply × View fl
  unfolding scanned cancel_on_workers
  on_global request_id none v = cancel_on_workers request_id (Console.workers c) v
  on_global request_id (some global) v =
      scanned request_id global none (peek_in global v)
        (λ v. cancel_on_workers request_id (Console.workers c) v) v

  unfoldable pub cancel_by_request_id : Bytes → View fl → Reply × View fl
  unfolding on_global
  cancel_by_request_id request_id v = on_global request_id (Console.global c) v

-- `ErrNoResult` and the error of the store.
pub data ResultReply : Type 0 where
  result_of : ResultRow → ResultReply
  no_result result_error result_panics : ResultReply

fetched : Outcome (Option ResultRow) → ResultReply × Store
fetched (did none s) = (no_result, s)
fetched (did (some r) s) = (result_of r, s)
fetched (failed s) = (result_error, s)
fetched (crashed s) = (result_panics, s)

unfoldable pub get_result : Bytes → Store → ResultReply × Store
unfolding fetched
get_result request_id s = fetched (get request_id s)
