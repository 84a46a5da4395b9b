-- ===== src/Scheduler/Dispatch/Settled.antt =====
-- What `dispatchEnvelope` in internal/scheduler/scheduler.go leaves behind for the job that it was
-- given, by the way it ended.
use mass.Prelude.{
  ◌+◌, ◌≡◌, refl, sym, ap, subst, ◌∙◌, Bool, true, false, [], ◌∷◌, Option, none, some, Bytes,
  Bool-cases, inl, inr, bytes_eq_iff, ℕ, List, ◌++◌, arith,
}
use mass.Prelude.Map.{lookup, lookup-erase}
use mass.Queue.Database.{Goqite}
use mass.Queue.Envelope.{Proto, Envelope}
use mass.Queue.Results.{ResultRow, Store, did, is_terminal, lift, lifted}
use mass.Queue.Ops.Leases.{defer_until}
use mass.Queue.Table.{Row}
use mass.Scheduler.Devices.{ModelBenchmarkRow, needs_load, projected_load_bytes}
use mass.Scheduler.Dispatch.{
  Exit, unknown_request, already_answered, bounced, requeued, load_failed, cancelled, assign_failed,
  in_flight, panics, Dispatcher, Setting, World, is_sent, max_concurrent, WorkerCall, load_call,
  any_busy, evict_all, load_model, pool_for, pool_at_load, blockers, marked, place_marked, place,
  cleared, after_measure, gate, recovered, with_buffer, dispatch_envelope, release_lease_for_retry,
  ensure_job_buffer, rearm_with,
}
use mass.Scheduler.Dispatch.Endings.{
  Settled, IsLive, IsQueued, after_load-Settled, assign_job-Settled,
}
use mass.Scheduler.Dispatch.Calls.{evict_all-calls}
use mass.Scheduler.Finalize.Order.{lifted_results}
use mass.Scheduler.Inflight.{Float64, Ledger, clear_dispatching}
use mass.Scheduler.Redistribute.Settled.{get_free}
use mass.Scheduler.StreamBuffer.{JobBuffer}

-- The dispatch window of a request is shut.
abbrev pub IsShut : (fl : Float64) → Bytes → Ledger fl → Type 0
IsShut fl r l = lookup r l.dispatching_by_request ≡ none

-- Two states that differ in no row, no result, no pump and no record.
abbrev pub IsSame : (fl : Float64) → Dispatcher fl → Dispatcher fl → Type 0
IsSame fl st u = (u.store ≡ st.store) × (u.ledger ≡ st.ledger) × (u.pumps ≡ st.pumps)

module _ (g : Goqite) (p : Proto) (fl : Float64) (c : Setting) (w : World fl) (msg : Row) where
  abbrev Ends : Bytes → Envelope p → Dispatcher fl → Exit × Dispatcher fl → Type 0
  Ends id env first r = Settled g p fl c msg id env first r.0 r.1

  load_model-Ends :
      (id : Bytes) (env : Envelope p) (pool reserved : ℕ) (first st : Dispatcher fl) (r : ResultRow)
      → IsLive fl p env r st
      → IsQueued fl c msg id first
      → st.store ≡ first.store
      → st.pumps ≡ first.pumps
      → Ends id env first (load_model g p fl c w id env pool reserved st)
  unfolding load_model
  load_model-Ends id env pool reserved first st r live queued same pumps =
      elim (Bool-cases (is_sent pool)) [
        | inl sent ↦
            rw (sent, load_model)
              (after_load-Settled g p fl c w msg id env reserved (World.load_error w) first
                (record st {
                  calls = st.calls ++ load_call env.model_id (max_concurrent pool) ∷ [];
                })
                r live queued same pumps)
        | inr unsent ↦
            rw (unsent, load_model)
              (after_load-Settled g p fl c w msg id env reserved (some (World.no_pool_size w)) first
                st r live queued same pumps)
      ]

  place_marked-Ends :
      (id : Bytes) (env : Envelope p) (row : ModelBenchmarkRow fl) (first st : Dispatcher fl)
      (r : ResultRow)
      → IsLive fl p env r st
      → IsQueued fl c msg id first
      → st.store ≡ first.store
      → st.pumps ≡ first.pumps
      → Ends id env first (place_marked g p fl c w id env row st)
  unfolding place_marked
  place_marked-Ends id env row first st r live queued same pumps =
      elim (Bool-cases (needs_load c.worker env.model_id (blockers g p fl c w env))) [
        | inl needed ↦ rw needed (
            load_model-Ends id env (pool_at_load g p fl c w env row)
              (projected_load_bytes fl (pool_for g p fl c w env row st) row) first st r live queued
              same pumps)
        | inr warm ↦ rw warm (
            assign_job-Settled g p fl c w msg id env 0 first st r live
              (ap (λ (s : Store). lookup id s.db.rows) same ∙ queued.0) pumps)
      ]

  -- The end of the window changes nothing that the ending speaks of.
  shut-Ends :
      (id : Bytes) (env : Envelope p) (first : Dispatcher fl) (e : Exit) (u : Dispatcher fl)
      → Ends id env first (e, u)
      → Ends id env first (e, record u { ledger = clear_dispatching fl env.request_id u.ledger })
  unfolding clear_dispatching
  shut-Ends id env first unknown_request u h = h
  shut-Ends id env first already_answered u h = h
  shut-Ends id env first bounced u h = h
  shut-Ends id env first requeued u h = h
  shut-Ends id env first load_failed u h = h
  shut-Ends id env first cancelled u h = h
  shut-Ends id env first assign_failed u h = h
  shut-Ends id env first in_flight u h = h
  shut-Ends id env first panics u h = h

  abbrev Closes : Bytes → Envelope p → Dispatcher fl → Exit × Dispatcher fl → Type 0
  Closes id env first r = Ends id env first r × IsShut fl env.request_id (r.1).ledger

  place-Closes :
      (id : Bytes) (env : Envelope p) (row : ModelBenchmarkRow fl) (first st : Dispatcher fl)
      (r : ResultRow)
      → IsLive fl p env r st
      → IsQueued fl c msg id first
      → st.store ≡ first.store
      → st.pumps ≡ first.pumps
      → Closes id env first (place g p fl c w id env row st)
  unfolding place clear_dispatching
  place-Closes id env row first st r live queued same pumps = (
    shut-Ends id env first _ _
        (place_marked-Ends id env row first (marked g p fl c w env st) r live queued same pumps),
    lookup-erase env.request_id env.request_id _
        ∙ ground (arith, bytes_eq_iff env.request_id env.request_id),
  )

  given_back :
      (id : Bytes) (st : Dispatcher fl)
      → st.store.db.faults ≡ []
      → IsQueued fl c msg id st
      → lookup id (release_lease_for_retry g p fl c w id st).store.db.rows
        ≡ some (record msg { timeout = c.now + c.retry_interval; received = 0 })
  unfolding release_lease_for_retry lift lifted
  given_back id st free (held, here) =
      let (db, _, ran, row, _) =
        defer_until c.queue id c.retry_interval 0 c.now 0 st.store.db msg free held here in
      rw ran row

  bounce-Closes :
      (id : Bytes) (env : Envelope p) (first st : Dispatcher fl)
      → st.store.db.faults ≡ []
      → IsQueued fl c msg id first
      → st.store ≡ first.store
      → IsShut fl env.request_id st.ledger
      → Closes id env first (bounced, release_lease_for_retry g p fl c w id st)
  unfolding release_lease_for_retry lift
  bounce-Closes id env first st free (held, here) same shut = (
    (
      ap (lookup env.request_id)
          (lifted_results st.store.results _ ∙ ap (λ (s : Store). s.results) same),
      given_back id st free (ap (λ (s : Store). lookup id s.db.rows) same ∙ held, here),
    ),
    shut,
  )

  cleared-Closes :
      (id : Bytes) (env : Envelope p) (row : ModelBenchmarkRow fl) (b : Bool)
      (first st u : Dispatcher fl) (r : ResultRow) (calls : List WorkerCall)
      → u ≡ record st { calls = calls }
      → IsLive fl p env r st
      → IsQueued fl c msg id first
      → IsSame fl first st
      → IsShut fl env.request_id st.ledger
      → Closes id env first (cleared g p fl c w id env row (b, u))
  unfolding cleared
  cleared-Closes id env row false first st u r calls e live queued (same, books, pumps) shut =
      rw e (bounce-Closes id env first (record st { calls = calls }) live.0 queued same shut)
  cleared-Closes id env row true first st u r calls e live queued (same, books, pumps) shut =
      rw e (place-Closes id env row first (record st { calls = calls }) r live queued same pumps)

  after_measure-Closes :
      (id : Bytes) (env : Envelope p) (o : Option (ModelBenchmarkRow fl)) (first st : Dispatcher fl)
      (r : ResultRow)
      → IsLive fl p env r st
      → IsQueued fl c msg id first
      → IsSame fl first st
      → IsShut fl env.request_id st.ledger
      → Closes id env first (after_measure g p fl c w id env o st)
  unfolding after_measure
  after_measure-Closes id env none first st r live queued same shut =
      bounce-Closes id env first st live.0 queued same.0 shut
  after_measure-Closes id env (some row) first st r live queued same shut =
      elim (Bool-cases (any_busy fl c.worker.id st.ledger (blockers g p fl c w env))) [
        | inl busy ↦
            rw (busy, after_measure) (bounce-Closes id env first st live.0 queued same.0 shut)
        | inr idle ↦
            let (calls, _, only_calls, _) =
              evict_all-calls fl (World.evicts w) (blockers g p fl c w env) st in
            let done = evict_all fl (World.evicts w) (blockers g p fl c w env) st in
            rw (idle, after_measure)
              (cleared-Closes id env row done.0 first st done.1 r (st.calls ++ calls) only_calls
                live queued same shut)
      ]

  rearmed-Same :
      (request_id : Bytes) (o : Option JobBuffer) (st : Dispatcher fl)
      → ((rearm_with g p fl c w request_id o st).store ≡ st.store)
        × ((rearm_with g p fl c w request_id o st).ledger ≡ st.ledger)
        × ((rearm_with g p fl c w request_id o st).pumps ≡ st.pumps)
  unfolding rearm_with
  rearmed-Same request_id none st = (refl, refl, refl)
  rearmed-Same request_id (some buf) st = (refl, refl, refl)

  rearmed-Closes :
      (id : Bytes) (env : Envelope p) (st : Dispatcher fl) (r : ResultRow)
      → IsLive fl p env r st
      → IsQueued fl c msg id st
      → IsShut fl env.request_id st.ledger
      → Closes id env st (gate g p fl c w id env (ensure_job_buffer g p fl c w env.request_id st))
  unfolding gate ensure_job_buffer
  rearmed-Closes id env st r live queued shut =
      let (store, books, pumps) =
        rearmed-Same env.request_id (lookup env.request_id st.buffers) st in
      after_measure-Closes id env (World.row w) st
        (rearm_with g p fl c w env.request_id (lookup env.request_id st.buffers) st) r
        (subst
          (λ (s : Store).
            (s.db.faults ≡ [])
            × (lookup env.request_id s.results ≡ some r)
            × (is_terminal r.status ≡ false))
          (sym store) live)
        queued (store, books, pumps) (subst (IsShut fl env.request_id) (sym books) shut)

  with_buffer-Closes :
      (id : Bytes) (env : Envelope p) (o : Option JobBuffer) (st : Dispatcher fl) (r : ResultRow)
      → IsLive fl p env r st
      → IsQueued fl c msg id st
      → IsShut fl env.request_id st.ledger
      → Closes id env st (with_buffer g p fl c w id env o st)
  unfolding with_buffer gate recovered
  with_buffer-Closes id env (some buf) st r live queued shut =
      after_measure-Closes id env (World.row w) st st r live queued (refl, refl, refl) shut
  with_buffer-Closes id env none st r live queued shut =
      rw (get_free g p env.request_id st.store live.0 ∙ ap (λ o. did o st.store) live.1, recovered)
        (rw (live.2, recovered) (rearmed-Closes id env st r live queued shut))

  -- A job that waits or runs is never lost by its dispatch, whatever the worker answers and whatever
  -- other goroutines do to the books meanwhile, where the database refuses no statement and the job's
  -- row stands in the worker's queue. Either its result is as it was, and the row stays there with
  -- its deliveries forgotten, hidden for the retry interval, or, within the attempt budget, is
  -- replaced by one row with the next attempt on the global queue; or its result has ended (the load
  -- failed for good, a cancel came, or the worker refused the job); or its result is processing, its
  -- row is as it was, and it is in flight under the worker's job ID with one more pump, that of the
  -- job. Its dispatch window is shut at the end.
  pub dispatch-settles :
      (id : Bytes) (env : Envelope p) (st : Dispatcher fl) (r : ResultRow)
      → IsLive fl p env r st
      → IsQueued fl c msg id st
      → IsShut fl env.request_id st.ledger
      → Settled g p fl c msg id env st
          (dispatch_envelope g p fl c w id env st).0
          (dispatch_envelope g p fl c w id env st).1
        × IsShut fl env.request_id (dispatch_envelope g p fl c w id env st).1.ledger
  unfolding dispatch_envelope
  dispatch-settles id env st r live queued shut =
      with_buffer-Closes id env (lookup env.request_id st.buffers) st r live queued shut
