-- ===== src/Scheduler/Dispatch.antt =====
-- internal/scheduler/scheduler.go: from a worker's queue to the worker, `drainOneWorkerQueue`,
-- `leaseAndDispatch` and `dispatchEnvelope`. What the worker, the benchmark rows and the goroutines
-- beside the dispatch answer is data; the keep-alive of the lease, logs and broadcasts are left out.
pub mod Calls
pub mod Cancelled
pub mod Endings
pub mod Passes
pub mod Phases
pub mod Settled
pub mod Steps
mod Tests
use mass.Prelude.{
  ℕ, ◌+◌, ◌%◌, Bool, true, false, not, ◌&&◌, ◌||◌, List, [], ◌∷◌, ◌++◌, Option, none, some, Bytes,
  codes, if◌then◌else◌, ltb,
}
use mass.Prelude.Map.{Map, lookup, insert}
use mass.Prelude.Words.{is_positive}
use mass.Queue.Database.{Db, Result, ok, err, panicked, Goqite}
use mass.Queue.Envelope.{Proto, Envelope, is_empty, unmarshal_envelope}
use mass.Queue.Ops.{defer, delete, lease_by_id, peek}
use mass.Queue.Results.{
  Stamp, ResultRow, Store, Outcome, did, failed, crashed, lift, get, fail, mark_processing,
  is_terminal,
}
use mass.Queue.Results.Lifecycle.{after}
use mass.Queue.Sweeper.{delete_message}
use mass.Queue.Table.{Message}
use mass.Scheduler.Devices.{
  ModelBenchmarkRow, predict_device_set, residents_blocking_load, needs_load, free_memory_bytes,
  effective_headroom_pct, planned_pool_size, projected_load_bytes, drain_batch,
}
use mass.Scheduler.Finalize.{error_chunk, cancelled_text}
use mass.Scheduler.Inflight.{
  Float64, Ledger, LedgerOp, start_inflight, finish_inflight, attach_worker_job_id,
  mark_dispatching, clear_dispatching, worker_has_inflight_for_model,
}
use mass.Scheduler.Inflight.Cancel.{apply_all}
use mass.Scheduler.QueueName.{parse_worker_queue_name}
use mass.Scheduler.Retry.{retry_after_load_failure}
use mass.Scheduler.StreamBuffer.{JobBuffer, new_job_buffer, append}
use mass.Worker.Status.{LoadedModelStatus, StreamWorker}

-- What the dispatch asked of the worker, and the worker did or was sent.
pub data WorkerCall : Type 0 where
  evict_call : Bytes → WorkerCall
  load_call : Bytes → ℕ → WorkerCall
  assign_call : Bytes → Bytes → WorkerCall

pub data AssignAnswer : Type 0 where
  assigned : Bytes → AssignAnswer
  refused : Bytes → AssignAnswer

-- `EvictModel` on the worker: it was not asked, for it is no longer there or does not report the
-- model; the unload failed; or it worked.
pub data EvictAnswer : Type 0 where
  not_asked not_evicted evicted : EvictAnswer

-- The ways out of `dispatchEnvelope`. `panics` is a panic in the database.
pub data Exit : Type 0 where
  unknown_request already_answered bounced requeued load_failed cancelled assign_failed in_flight
        panics :
      Exit

pub record TailState (fl : Float64) : Type 0 where
  pub seconds : Float64.F fl
  pub model_id : Bytes

pub record Dispatcher (fl : Float64) : Type 0 where
  pub store : Store
  pub ledger : Ledger fl
  pub buffers : Map JobBuffer
  pub tails : Map (TailState fl)
  pub kicks : ℕ
  pub later_kicks : ℕ
  pub calls : List WorkerCall
  pub pumps : List (Bytes × Bytes)  -- the request, and the worker's job

-- The queue's name and the worker behind it, and the settings. `enabled` is `isDeviceEnabled`.
pub record Setting : Type 0 where
  pub queue : Bytes
  pub global : Option Bytes
  pub worker : StreamWorker
  pub enabled : Bytes → Bool
  pub max_attempts : ℕ
  pub slots_cap : ℕ
  pub retry_interval : ℕ
  pub now : ℕ
  pub stamp : Stamp

-- `row` is what `modelBenchmark` finds, `task_seconds` is `env.Cost / row.UnitsPerSec`, `rounds` the
-- number of decodes in the budget, `free_at_load` what `freeMemoryBytes` reads once the evictions are
-- over, `debited` the `max(0, t - env.QueuedSeconds)` of the tail.
-- `meanwhile` is what other goroutines do to the books between `markDispatching` and `startInflight`.
pub record World (fl : Float64) : Type 0 where
  pub row : Option (ModelBenchmarkRow fl)
  pub rounds : Option ℕ
  pub task_seconds : Float64.F fl
  pub debited : Float64.F fl → Float64.F fl
  pub evicts : Bytes → EvictAnswer
  pub free_at_load : ℕ
  pub load_error : Option Bytes
  pub no_pool_size : Bytes
  pub meanwhile : List (LedgerOp fl)
  pub assign : AssignAnswer

-- `MaxConcurrent` is an int32; `LoadModel` refuses one that is not positive.
abbrev pub max_concurrent : ℕ → ℕ
max_concurrent pool = pool % 4294967296

abbrev pub is_sent : ℕ → Bool
is_sent pool = ltb 0 (max_concurrent pool) && ltb (max_concurrent pool) 2147483648

module _ (fl : Float64) where
  abbrev pub is_busy : Bytes → Ledger fl → LoadedModelStatus → Bool
  is_busy worker_id l lm =
      is_positive lm.active || worker_has_inflight_for_model fl worker_id lm.model_id l

  unfoldable pub any_busy : Bytes → Ledger fl → List LoadedModelStatus → Bool
  any_busy worker_id l [] = false
  any_busy worker_id l (lm ∷ lms) =
      if is_busy worker_id l lm then true else any_busy worker_id l lms

  -- The state as it was, the state with the call, and what comes after an eviction that worked.
  evict_model :
      EvictAnswer → Dispatcher fl → Dispatcher fl → Bool × Dispatcher fl → Bool × Dispatcher fl
  evict_model not_asked st called rest = (false, st)
  evict_model not_evicted st called rest = (false, called)
  evict_model evicted st called rest = rest

  -- The loop of evictions, up to the first that evicts nothing.
  unfoldable pub evict_all :
      (Bytes → EvictAnswer) → List LoadedModelStatus → Dispatcher fl → Bool × Dispatcher fl
  unfolding evict_model
  evict_all evicts [] st = (true, st)
  evict_all evicts (lm ∷ lms) st =
      let called = record st { calls = st.calls ++ evict_call lm.model_id ∷ [] } in
      evict_model (evicts lm.model_id) st called (evict_all evicts lms called)

module _ (g : Goqite) (p : Proto) (fl : Float64) (c : Setting) (w : World fl) where
  unfoldable pub cleanup_rows : Bytes → Bytes → Dispatcher fl → Dispatcher fl
  cleanup_rows id global_id st = record st {
    store = after (delete_message g p c.queue c.global id global_id st.store);
    kicks = st.kicks + 1;
  }

  unfoldable pub fail_result : Bytes → Bytes → Dispatcher fl → Dispatcher fl
  fail_result request_id text st = record st {
    store = after (fail request_id text c.stamp st.store);
  }

  publish_to : Bytes → Bytes → Option JobBuffer → Map JobBuffer → Map JobBuffer
  publish_to request_id text none m = m
  publish_to request_id text (some buf) m =
      insert request_id (append (some (error_chunk text)) c.now buf).1 m

  -- The buffer that the dispatch holds is the one in the map.
  unfoldable pub publish : Bytes → Bytes → Dispatcher fl → Dispatcher fl
  unfolding publish_to
  publish request_id text st = record st {
    buffers = publish_to request_id text (lookup request_id st.buffers) st.buffers;
  }

  -- Every failure that is final: the result, the stream, the rows.
  unfoldable pub fail_and_drop : Bytes → Envelope p → Bytes → Dispatcher fl → Dispatcher fl
  unfolding cleanup_rows fail_result publish
  fail_and_drop id env text st =
      cleanup_rows id env.global_msg_id
        (publish env.request_id text (fail_result env.request_id text st))

  unfoldable pub release_lease_for_retry : Bytes → Dispatcher fl → Dispatcher fl
  release_lease_for_retry id st = record st {
    store = after (lift (defer c.queue id c.retry_interval c.now) st.store);
    later_kicks = st.later_kicks + 1;
  }

  rearm_with : Bytes → Option JobBuffer → Dispatcher fl → Dispatcher fl
  rearm_with request_id none st = record st {
    buffers = insert request_id (new_job_buffer c.now) st.buffers;
  }
  rearm_with request_id (some buf) st = st

  unfoldable pub ensure_job_buffer : Bytes → Dispatcher fl → Dispatcher fl
  unfolding rearm_with
  ensure_job_buffer request_id st = rearm_with request_id (lookup request_id st.buffers) st

  debit_found : Bytes → Option (TailState fl) → Map (TailState fl) → Map (TailState fl)
  debit_found queue none m = m
  debit_found queue (some t) m = insert queue (record t { seconds = World.debited w t.seconds }) m

  -- The mirror of the tail; its durable copy is not read here.
  unfoldable pub debit_tail : Dispatcher fl → Dispatcher fl
  unfolding debit_found
  debit_tail st = record st { tails = debit_found c.queue (lookup c.queue st.tails) st.tails }

  answered : Bytes → Envelope p → AssignAnswer → Dispatcher fl → Exit × Dispatcher fl
  unfolding fail_result publish cleanup_rows
  answered id env (assigned job_id) st = (
    in_flight,
    record st {
      ledger = attach_worker_job_id fl env.request_id job_id st.ledger;
      pumps = (env.request_id, job_id) ∷ st.pumps;
    },
  )
  answered id env (refused text) st =
      let st = publish env.request_id text (fail_result env.request_id text st) in
      (
        assign_failed,
        cleanup_rows id env.global_msg_id
            (record st { ledger = finish_inflight fl env.request_id st.ledger }),
      )

  unfoldable pub mark_started : Envelope p → Dispatcher fl → Dispatcher fl
  unfolding debit_tail
  mark_started env st =
      let st = debit_tail (record st { store = after (mark_processing env.request_id st.store) }) in
      record st { calls = st.calls ++ assign_call env.model_id env.payload ∷ [] }

  started : Bytes → Envelope p → Bool × Ledger fl → Dispatcher fl → Exit × Dispatcher fl
  unfolding fail_and_drop mark_started answered
  started id env (false, l) st =
      (cancelled, fail_and_drop id env cancelled_text (record st { ledger = l }))
  started id env (true, l) st =
      answered id env (World.assign w) (mark_started env (record st { ledger = l }))

  -- From `startInflight` on, after what came meanwhile.
  unfoldable pub assign_job : Bytes → Envelope p → ℕ → Dispatcher fl → Exit × Dispatcher fl
  unfolding started
  assign_job id env reserved st =
      started id env
        (start_inflight fl c.queue env.request_id env.model_id env.runtime_name
          (World.task_seconds w) reserved (apply_all fl (World.meanwhile w) st.ledger))
        st

  retried : Bytes → Envelope p → Bytes → Bool × Db → Dispatcher fl → Exit × Dispatcher fl
  unfolding fail_and_drop
  retried id env text (true, db) st =
      (requeued, record st { store = record st.store { db = db }; kicks = st.kicks + 1 })
  retried id env text (false, db) st =
      (load_failed, fail_and_drop id env text (record st { store = record st.store { db = db } }))

  pub after_load : Bytes → Envelope p → ℕ → Option Bytes → Dispatcher fl → Exit × Dispatcher fl
  unfolding assign_job retried
  after_load id env reserved none st = assign_job id env reserved st
  after_load id env reserved (some text) st =
      retried id env text
        (retry_after_load_failure g p c.max_attempts c.queue id c.global env c.now st.store.db) st

  unfoldable pub load_model : Bytes → Envelope p → ℕ → ℕ → Dispatcher fl → Exit × Dispatcher fl
  unfolding after_load
  load_model id env pool reserved st =
      if is_sent pool
      then after_load id env reserved (World.load_error w)
          (record st { calls = st.calls ++ load_call env.model_id (max_concurrent pool) ∷ [] })
      else after_load id env reserved (some (World.no_pool_size w)) st

  abbrev pub pool_for : Envelope p → ModelBenchmarkRow fl → Dispatcher fl → ℕ
  pool_for env row st =
      planned_pool_size fl (free_memory_bytes fl c.enabled c.worker st.ledger)
        (effective_headroom_pct c.worker.vram_headroom_pct env.headroom_pct) (World.rounds w)
        c.slots_cap row

  -- The pool that the load is sent with.
  abbrev pub pool_at_load : Envelope p → ModelBenchmarkRow fl → ℕ
  pool_at_load env row =
      planned_pool_size fl (World.free_at_load w)
        (effective_headroom_pct c.worker.vram_headroom_pct env.headroom_pct) (World.rounds w)
        c.slots_cap row

  abbrev pub blockers : Envelope p → List LoadedModelStatus
  blockers env =
      residents_blocking_load c.worker env.model_id (predict_device_set c.enabled c.worker)

  -- Past the gate, up to the deferred `clearDispatching`. The reservation is sized by what was free
  -- before the gate's evictions, the pool of the load by what is free after them.
  unfoldable pub place_marked :
      Bytes → Envelope p → ModelBenchmarkRow fl → Dispatcher fl → Exit × Dispatcher fl
  unfolding load_model assign_job
  place_marked id env row st =
      if needs_load c.worker env.model_id (blockers env)
      then load_model id env (pool_at_load env row)
          (projected_load_bytes fl (pool_for env row st) row) st
      else assign_job id env 0 st

  abbrev pub marked : Envelope p → Dispatcher fl → Dispatcher fl
  marked env st = record st { ledger = mark_dispatching fl env.request_id st.ledger }

  unfoldable pub place :
      Bytes → Envelope p → ModelBenchmarkRow fl → Dispatcher fl → Exit × Dispatcher fl
  unfolding place_marked
  place id env row st =
      let done = place_marked id env row (marked env st) in
      (done.0, record (done.1) { ledger = clear_dispatching fl env.request_id (done.1).ledger })

  cleared : Bytes → Envelope p → ModelBenchmarkRow fl → Bool × Dispatcher fl → Exit × Dispatcher fl
  unfolding place release_lease_for_retry
  cleared id env row (false, st) = (bounced, release_lease_for_retry id st)
  cleared id env row (true, st) = place id env row st

  after_measure :
      Bytes → Envelope p → Option (ModelBenchmarkRow fl) → Dispatcher fl → Exit × Dispatcher fl
  unfolding cleared release_lease_for_retry
  after_measure id env none st = (bounced, release_lease_for_retry id st)
  after_measure id env (some row) st =
      if any_busy fl c.worker.id st.ledger (blockers env)
      then (bounced, release_lease_for_retry id st)
      else cleared id env row (evict_all fl (World.evicts w) (blockers env) st)

  unfoldable pub gate : Bytes → Envelope p → Dispatcher fl → Exit × Dispatcher fl
  unfolding after_measure
  gate id env st = after_measure id env (World.row w) st

  -- Errors of the lookup but `ErrNoResult` read as a live job.
  recovered : Bytes → Envelope p → Outcome (Option ResultRow) → Dispatcher fl → Exit × Dispatcher fl
  unfolding gate fail_result cleanup_rows ensure_job_buffer
  recovered id env (did none s) st = (
    unknown_request,
    cleanup_rows id env.global_msg_id (
        fail_result env.request_id (codes "no replay buffer for request")
          (record st { store = s })),
  )
  recovered id env (did (some r) s) st =
      if is_terminal r.status
      then (already_answered, cleanup_rows id env.global_msg_id (record st { store = s }))
      else gate id env (ensure_job_buffer env.request_id (record st { store = s }))
  recovered id env (failed s) st =
      gate id env (ensure_job_buffer env.request_id (record st { store = s }))
  recovered id env (crashed s) st = (panics, record st { store = s })

  with_buffer : Bytes → Envelope p → Option JobBuffer → Dispatcher fl → Exit × Dispatcher fl
  unfolding gate recovered
  with_buffer id env (some buf) st = gate id env st
  with_buffer id env none st = recovered id env (get env.request_id st.store) st

  unfoldable pub dispatch_envelope : Bytes → Envelope p → Dispatcher fl → Exit × Dispatcher fl
  unfolding with_buffer
  dispatch_envelope id env st = with_buffer id env (lookup env.request_id st.buffers) st

  decoded : Bytes → Option (Envelope p) → Dispatcher fl → Dispatcher fl
  unfolding dispatch_envelope
  decoded id none st = record st { store = after (lift (delete g c.queue id) st.store) }
  decoded id (some env) st = (dispatch_envelope id env st).1

  after_lease : Bytes → Outcome (Option Bytes) → Dispatcher fl → Dispatcher fl
  unfolding decoded
  after_lease id (did (some body) s) st =
      decoded id (unmarshal_envelope p body) (record st { store = s })
  after_lease id (did none s) st = record st { store = s }
  after_lease id (failed s) st = record st { store = s }
  after_lease id (crashed s) st = record st { store = s }

  -- `dur` is `dispatchLeaseDuration`.
  unfoldable pub lease_and_dispatch : ℕ → Bytes → Dispatcher fl → Dispatcher fl
  unfolding after_lease
  lease_and_dispatch dur id st =
      after_lease id (lift (lease_by_id c.queue id dur c.now) st.store) st

-- The world may answer otherwise for each message.
module _ (g : Goqite) (p : Proto) (fl : Float64) (c : Setting) where
  unfoldable pub dispatch_batch :
      ℕ → (Bytes → World fl) → List Message → Dispatcher fl → Dispatcher fl
  unfolding lease_and_dispatch
  dispatch_batch dur worlds [] st = st
  dispatch_batch dur worlds (msg ∷ msgs) st =
      dispatch_batch dur worlds msgs (lease_and_dispatch g p fl c (worlds msg.id) dur msg.id st)

  after_peek : ℕ → (Bytes → World fl) → Outcome (List Message) → Dispatcher fl → Dispatcher fl
  unfolding dispatch_batch
  after_peek dur worlds (did msgs s) st = dispatch_batch dur worlds msgs (record st { store = s })
  after_peek dur worlds (failed s) st = record st { store = s }
  after_peek dur worlds (crashed s) st = record st { store = s }

  -- `gate_held` is `benchGateHeld`, and `known` that the registry has a worker of the queue's name.
  unfoldable pub drain_one_worker_queue :
      Bool → Bool → ℕ → (Bytes → World fl) → Dispatcher fl → Dispatcher fl
  unfolding after_peek
  drain_one_worker_queue known gate_held dur worlds st =
      let batch = drain_batch fl c.worker st.ledger in
      let pass = after_peek dur worlds (lift (peek c.queue batch c.now) st.store) st in
      if not (parse_worker_queue_name c.queue).1
      then st
      else if not known || not c.worker.online || gate_held || not (ltb 0 batch)
      then st
      else pass
