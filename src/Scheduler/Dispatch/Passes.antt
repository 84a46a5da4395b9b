-- ===== src/Scheduler/Dispatch/Passes.antt =====
-- `drainOneWorkerQueue` of internal/scheduler/scheduler.go, from the gate of one dispatch to the whole
-- pass, as steps on the results.
use mass.Prelude.{
  ◌≡◌, refl, sym, subst, Bool, true, false, not, ◌||◌, List, [], ◌∷◌, ◌++◌, Option, none, some,
  Bytes, Bool-cases, inl, inr, ℕ, ltb,
}
use mass.Prelude.Map.{lookup}
use mass.Queue.Database.{Goqite}
use mass.Queue.Envelope.{Proto, Envelope, unmarshal_envelope}
use mass.Queue.Ops.{delete, lease_by_id, peek}
use mass.Queue.Results.{ResultRow, Store, Outcome, did, failed, crashed, lift, get, is_terminal}
use mass.Queue.Results.Lifecycle.{after}
use mass.Queue.Table.{Message}
use mass.Scheduler.Devices.{ModelBenchmarkRow, needs_load, projected_load_bytes, drain_batch}
use mass.Scheduler.Dispatch.{
  Dispatcher, Setting, World, is_sent, max_concurrent, load_call, any_busy, load_model, pool_for,
  pool_at_load, blockers, marked, place_marked, place, cleared, after_measure, gate, recovered,
  with_buffer, dispatch_envelope, fail_result, ensure_job_buffer, rearm_with, decoded, after_lease,
  lease_and_dispatch, dispatch_batch, after_peek, drain_one_worker_queue,
}
use mass.Scheduler.Dispatch.Calls.{evict_all-calls}
use mass.Scheduler.Dispatch.Steps.{
  Steps, here, next, fails, trans, same, get_keeps, cleanup_rows-Steps, bounce-Steps,
  assign_job-Steps, after_load-Steps,
}
use mass.Scheduler.Finalize.Order.{lifted_results}
use mass.Scheduler.Inflight.{Float64}
use mass.Scheduler.QueueName.{parse_worker_queue_name}
use mass.Scheduler.StreamBuffer.{JobBuffer}

module _ (g : Goqite) (p : Proto) (fl : Float64) (c : Setting) (w : World fl) where
  load_model-Steps :
      (id : Bytes) (env : Envelope p) (pool reserved : ℕ) (s : Store) (st : Dispatcher fl)
      → Steps s st.store
      → Steps s (load_model g p fl c w id env pool reserved st).1.store
  unfolding load_model
  load_model-Steps id env pool reserved s st h = elim (Bool-cases (is_sent pool)) [
    | inl sent ↦
        rw (sent, load_model)
          (after_load-Steps g p fl c w id env reserved (World.load_error w) s
            (record st { calls = st.calls ++ load_call env.model_id (max_concurrent pool) ∷ [] }) h)
    | inr unsent ↦
        rw (unsent, load_model)
          (after_load-Steps g p fl c w id env reserved (some (World.no_pool_size w)) s st h)
  ]

  place_marked-Steps :
      (id : Bytes) (env : Envelope p) (row : ModelBenchmarkRow fl) (s : Store) (st : Dispatcher fl)
      → Steps s st.store
      → Steps s (place_marked g p fl c w id env row st).1.store
  unfolding place_marked
  place_marked-Steps id env row s st h =
      elim (Bool-cases (needs_load c.worker env.model_id (blockers g p fl c w env))) [
        | inl needed ↦ rw needed (
            load_model-Steps id env (pool_at_load g p fl c w env row)
              (projected_load_bytes fl (pool_for g p fl c w env row st) row) s st h)
        | inr warm ↦ rw warm (assign_job-Steps g p fl c w id env 0 s st h)
      ]

  place-Steps :
      (id : Bytes) (env : Envelope p) (row : ModelBenchmarkRow fl) (s : Store) (st : Dispatcher fl)
      → Steps s st.store
      → Steps s (place g p fl c w id env row st).1.store
  unfolding place
  place-Steps id env row s st h = place_marked-Steps id env row s (marked g p fl c w env st) h

  cleared-Steps :
      (id : Bytes) (env : Envelope p) (row : ModelBenchmarkRow fl) (o : Bool × Dispatcher fl)
      (s : Store)
      → Steps s (o.1).store
      → Steps s (cleared g p fl c w id env row o).1.store
  unfolding cleared
  cleared-Steps id env row (false, st) s h = bounce-Steps g p fl c w id s st h
  cleared-Steps id env row (true, st) s h = place-Steps id env row s st h

  after_measure-Steps :
      (id : Bytes) (env : Envelope p) (o : Option (ModelBenchmarkRow fl)) (s : Store)
      (st : Dispatcher fl)
      → Steps s st.store
      → Steps s (after_measure g p fl c w id env o st).1.store
  unfolding after_measure
  after_measure-Steps id env none s st h = bounce-Steps g p fl c w id s st h
  after_measure-Steps id env (some row) s st h =
      elim (Bool-cases (any_busy fl c.worker.id st.ledger (blockers g p fl c w env))) [
        | inl busy ↦ rw (busy, after_measure) (bounce-Steps g p fl c w id s st h)
        | inr idle ↦
            let (_, _, only_calls, _) =
              evict_all-calls fl (World.evicts w) (blockers g p fl c w env) st in
            rw (idle, after_measure)
              (cleared-Steps id env row _ s
                (subst (λ (u : Dispatcher fl). Steps s u.store) (sym only_calls) h))
      ]

  rearm_with-store :
      (request_id : Bytes) (o : Option JobBuffer) (st : Dispatcher fl)
      → (rearm_with g p fl c w request_id o st).store ≡ st.store
  unfolding rearm_with
  rearm_with-store request_id none st = refl
  rearm_with-store request_id (some buf) st = refl

  rearmed-Steps :
      (id : Bytes) (env : Envelope p) (s : Store) (st : Dispatcher fl)
      → Steps s st.store
      → Steps s (gate g p fl c w id env (ensure_job_buffer g p fl c w env.request_id st)).1.store
  unfolding gate ensure_job_buffer
  rearmed-Steps id env s st h = after_measure-Steps id env (World.row w) s _ (
      subst (Steps s) (sym (rearm_with-store env.request_id (lookup env.request_id st.buffers) st))
        h)

  recovered-Steps :
      (id : Bytes) (env : Envelope p) (o : Outcome (Option ResultRow)) (s : Store)
      (st : Dispatcher fl)
      → Steps s (after o)
      → Steps s (recovered g p fl c w id env o st).1.store
  unfolding recovered fail_result
  recovered-Steps id env (did none u) s st h =
      cleanup_rows-Steps g p fl c w id env.global_msg_id s
        (fail_result g p fl c w env.request_id _ (record st { store = u }))
        (next h (fails env.request_id _ c.stamp))
  recovered-Steps id env (did (some r) u) s st h = elim (Bool-cases (is_terminal r.status)) [
    | inl over ↦
        rw (over, recovered)
          (cleanup_rows-Steps g p fl c w id env.global_msg_id s (record st { store = u }) h)
    | inr live ↦ rw (live, recovered) (rearmed-Steps id env s (record st { store = u }) h)
  ]
  recovered-Steps id env (failed u) s st h = rearmed-Steps id env s (record st { store = u }) h
  recovered-Steps id env (crashed u) s st h = h

  with_buffer-Steps :
      (id : Bytes) (env : Envelope p) (o : Option JobBuffer) (s : Store) (st : Dispatcher fl)
      → Steps s st.store
      → Steps s (with_buffer g p fl c w id env o st).1.store
  unfolding with_buffer gate
  with_buffer-Steps id env (some buf) s st h = after_measure-Steps id env (World.row w) s st h
  with_buffer-Steps id env none s st h =
      recovered-Steps id env (get env.request_id st.store) s st
        (trans h (same (get_keeps env.request_id st.store)))

  decoded-Steps :
      (id : Bytes) (o : Option (Envelope p)) (s : Store) (st : Dispatcher fl)
      → Steps s st.store
      → Steps s (decoded g p fl c w id o st).store
  unfolding decoded dispatch_envelope lift
  decoded-Steps id none s st h =
      trans h (same (lifted_results st.store.results (delete g c.queue id st.store.db)))
  decoded-Steps id (some env) s st h =
      with_buffer-Steps id env (lookup env.request_id st.buffers) s st h

  after_lease-Steps :
      (id : Bytes) (o : Outcome (Option Bytes)) (s : Store) (st : Dispatcher fl)
      → Steps s (after o)
      → Steps s (after_lease g p fl c w id o st).store
  unfolding after_lease
  after_lease-Steps id (did (some body) u) s st h =
      decoded-Steps id (unmarshal_envelope p body) s (record st { store = u }) h
  after_lease-Steps id (did none u) s st h = h
  after_lease-Steps id (failed u) s st h = h
  after_lease-Steps id (crashed u) s st h = h

  lease-Steps :
      (dur : ℕ) (id : Bytes) (s : Store) (st : Dispatcher fl)
      → Steps s st.store
      → Steps s (lease_and_dispatch g p fl c w dur id st).store
  unfolding lease_and_dispatch lift
  lease-Steps dur id s st h =
      after_lease-Steps id (lift (lease_by_id c.queue id dur c.now) st.store) s st (
        trans h
          (same (lifted_results st.store.results (lease_by_id c.queue id dur c.now st.store.db))))

module _ (g : Goqite) (p : Proto) (fl : Float64) (c : Setting) where
  batch-Steps :
      (dur : ℕ) (worlds : Bytes → World fl) (msgs : List Message) (s : Store) (st : Dispatcher fl)
      → Steps s st.store
      → Steps s (dispatch_batch g p fl c dur worlds msgs st).store
  unfolding dispatch_batch
  batch-Steps dur worlds [] s st h = h
  batch-Steps dur worlds (msg ∷ msgs) s st h =
      batch-Steps dur worlds msgs s _ (lease-Steps g p fl c (worlds msg.id) dur msg.id s st h)

  after_peek-Steps :
      (dur : ℕ) (worlds : Bytes → World fl) (o : Outcome (List Message)) (s : Store)
      (st : Dispatcher fl)
      → Steps s (after o)
      → Steps s (after_peek g p fl c dur worlds o st).store
  unfolding after_peek
  after_peek-Steps dur worlds (did msgs u) s st h =
      batch-Steps dur worlds msgs s (record st { store = u }) h
  after_peek-Steps dur worlds (failed u) s st h = h
  after_peek-Steps dur worlds (crashed u) s st h = h

  pub drain-Steps :
      (known gate_held : Bool) (dur : ℕ) (worlds : Bytes → World fl) (st : Dispatcher fl)
      → Steps st.store (drain_one_worker_queue g p fl c known gate_held dur worlds st).store
  unfolding drain_one_worker_queue lift
  drain-Steps known gate_held dur worlds st =
      let batch = drain_batch fl c.worker st.ledger in
      let pass =
        after_peek-Steps dur worlds (lift (peek c.queue batch c.now) st.store) st.store st
          (same (lifted_results st.store.results (peek c.queue batch c.now st.store.db))) in
      elim (Bool-cases (not (parse_worker_queue_name c.queue).1)) [
        | inl foreign ↦ rw (foreign, drain_one_worker_queue) here
        | inr ours ↦
            elim (Bool-cases (not known || not c.worker.online || gate_held || not (ltb 0 batch))) [
              | inl shut ↦ rw (ours, shut, drain_one_worker_queue) here
              | inr free ↦ rw (ours, free, drain_one_worker_queue) pass
            ]
      ]
