-- ===== src/Scheduler/Dispatch/Calls.antt =====
-- What `dispatchEnvelope` in internal/scheduler/scheduler.go asks of the worker, and in which order.
use mass.Prelude.{
  All, ℕ, ◌<◌, ◌≡◌, refl, sym, ap, subst, ◌∙◌, Bool, true, false, List, [], ◌∷◌, ◌++◌, append-nil,
  append_assoc, Option, none, some, Bytes, Bool-cases, inl, inr, ◌⊎◌, arith,
}
use mass.Prelude.Map.{lookup}
use mass.Queue.Database.{Db, Goqite}
use mass.Queue.Envelope.{Proto, Envelope}
use mass.Queue.Results.{ResultRow, Store, Outcome, did, failed, crashed, is_terminal}
use mass.Scheduler.Devices.{ModelBenchmarkRow, needs_load, projected_load_bytes}
use mass.Scheduler.Dispatch.{
  WorkerCall, EvictAnswer, not_asked, not_evicted, evicted, evict_model, evict_call, load_call,
  assign_call, AssignAnswer, assigned, refused, Exit, Dispatcher, Setting, World, is_sent,
  max_concurrent, any_busy, evict_all, answered, mark_started, started, assign_job, retried,
  after_load, load_model, pool_for, pool_at_load, blockers, marked, place_marked, place, cleared,
  after_measure, gate, recovered, with_buffer, dispatch_envelope, cleanup_rows, fail_result,
  release_lease_for_retry, ensure_job_buffer, rearm_with,
}
use mass.Scheduler.Inflight.{Float64, Ledger, start_inflight}
use mass.Scheduler.Inflight.Cancel.{apply_all}
use mass.Scheduler.StreamBuffer.{JobBuffer}
use mass.Worker.Status.{LoadedModelStatus}

abbrev pub IsEvict : WorkerCall → Type 0
IsEvict (evict_call m) = Unit
IsEvict (load_call m pool) = ⊥
IsEvict (assign_call m payload) = ⊥

abbrev pub evictions : List LoadedModelStatus → List WorkerCall
evictions [] = []
evictions (lm ∷ lms) = evict_call lm.model_id ∷ evictions lms

-- The load, if there is one, and then the job, if it gets there. A load asks for one slot or more.
pub data Placed (p : Proto) (needs : Bool) (env : Envelope p) : List WorkerCall → Type 0 where
  nothing_sent : Placed p needs env []
  only_loaded :
      (pool : ℕ) → needs ≡ true → 0 < pool → Placed p needs env (load_call env.model_id pool ∷ [])
  only_assigned : needs ≡ false → Placed p needs env (assign_call env.model_id env.payload ∷ [])
  both :
      (pool : ℕ)
      → needs ≡ true
      → 0 < pool
      → Placed p needs env (load_call env.model_id pool ∷ assign_call env.model_id env.payload ∷ [])

-- Evictions alone; or, with no resident busy, all evictions and then the placing.
pub data Orderly (p : Proto) (busy needs : Bool) (residents : List LoadedModelStatus)
    (env : Envelope p) : List WorkerCall → Type 0 where
  evicting :
      (calls : List WorkerCall) → All IsEvict calls → Orderly p busy needs residents env calls
  placing :
      (calls : List WorkerCall)
      → busy ≡ false
      → Placed p needs env calls
      → Orderly p busy needs residents env (evictions residents ++ calls)

one_more : (cs ds : List WorkerCall) (c : WorkerCall) → (cs ++ c ∷ []) ++ ds ≡ cs ++ c ∷ ds
one_more cs ds c = append_assoc cs (c ∷ []) ds

pub evict_all-calls :
    (fl : Float64) (evicts : Bytes → EvictAnswer) (lms : List LoadedModelStatus)
    (st : Dispatcher fl)
    → (calls : List WorkerCall) × (All IsEvict calls)
      × ((evict_all fl evicts lms st).1 ≡ record st { calls = st.calls ++ calls })
      × ((evict_all fl evicts lms st).0 ≡ true → calls ≡ evictions lms)
unfolding evict_all evict_model
evict_all-calls fl evicts [] st =
    ([], tt, ap (λ cs. record st { calls = cs }) (sym (append-nil st.calls)), λ _. refl)
evict_all-calls fl evicts (lm ∷ lms) st =
    answered_by (evicts lm.model_id) (evict_all-calls fl evicts lms called)
  where
    called : Dispatcher fl
    called = record st { calls = st.calls ++ evict_call lm.model_id ∷ [] }

    Does : Dispatcher fl → List LoadedModelStatus → Bool × Dispatcher fl → Type 0
    Does from models o =
        (calls : List WorkerCall) × (All IsEvict calls)
        × (o.1 ≡ record from { calls = from.calls ++ calls })
        × (o.0 ≡ true → calls ≡ evictions models)

    answered_by :
        (a : EvictAnswer)
        → Does called lms (evict_all fl evicts lms called)
        → Does st (lm ∷ lms) (evict_model fl a st called (evict_all fl evicts lms called))
    answered_by not_asked rest =
        ([], tt, ap (λ cs. record st { calls = cs }) (sym (append-nil st.calls)), λ h. cc h)
    answered_by not_evicted rest = (evict_call lm.model_id ∷ [], (tt, tt), refl, λ h. cc h)
    answered_by evicted (cs, all, same, whole) = (
      evict_call lm.model_id ∷ cs,
      (tt, all),
      same ∙ ap (λ cs. record st { calls = cs }) (one_more st.calls cs _),
      λ h. ap (◌∷◌ (evict_call lm.model_id)) (whole h),
    )

-- What a call adds to the calls of a state.
abbrev pub Sends :
    (fl : Float64) → (List WorkerCall → Type 0) → Dispatcher fl → Exit × Dispatcher fl → Type 0
Sends fl P st r = (calls : List WorkerCall) × ((r.1).calls ≡ st.calls ++ calls) × P calls

abbrev silent : (fl : Float64) (st : Dispatcher fl) → st.calls ≡ st.calls ++ []
silent fl st = sym (append-nil st.calls)

module _ (g : Goqite) (p : Proto) (fl : Float64) (c : Setting) (w : World fl) where
  answered-calls :
      (id : Bytes) (env : Envelope p) (a : AssignAnswer) (st : Dispatcher fl)
      → (answered g p fl c w id env a st).1.calls ≡ st.calls
  unfolding answered
  answered-calls id env (assigned job_id) st = refl
  answered-calls id env (refused text) st = refl

  abbrev OnlyAssigns : Envelope p → Bool → List WorkerCall → Type 0
  OnlyAssigns env true calls = calls ≡ assign_call env.model_id env.payload ∷ []
  OnlyAssigns env false calls = calls ≡ []

  started-Sends :
      (id : Bytes) (env : Envelope p) (o : Bool × Ledger fl) (st : Dispatcher fl)
      → Sends fl (OnlyAssigns env o.0) st (started g p fl c w id env o st)
  unfolding started mark_started
  started-Sends id env (false, l) st = ([], silent fl st, refl)
  started-Sends id env (true, l) st = (_, answered-calls id env (World.assign w) _, refl)

  abbrev AtMostAssigns : Envelope p → List WorkerCall → Type 0
  AtMostAssigns env calls = (calls ≡ []) ⊎ (calls ≡ assign_call env.model_id env.payload ∷ [])

  either_way :
      (env : Envelope p) (b : Bool) (calls : List WorkerCall)
      → OnlyAssigns env b calls
      → AtMostAssigns env calls
  either_way env true calls h = inr h
  either_way env false calls h = inl h

  assign_job-Sends :
      (id : Bytes) (env : Envelope p) (reserved : ℕ) (st : Dispatcher fl)
      → Sends fl (AtMostAssigns env) st (assign_job g p fl c w id env reserved st)
  unfolding assign_job
  assign_job-Sends id env reserved st =
      let o =
        start_inflight fl c.queue env.request_id env.model_id env.runtime_name
          (World.task_seconds w) reserved (apply_all fl (World.meanwhile w) st.ledger) in
      let (calls, added, only) = started-Sends id env o st in
      (calls, added, either_way env o.0 calls only)

  retried-calls :
      (id : Bytes) (env : Envelope p) (text : Bytes) (o : Bool × Db) (st : Dispatcher fl)
      → (retried g p fl c w id env text o st).1.calls ≡ st.calls
  unfolding retried
  retried-calls id env text (true, db) st = refl
  retried-calls id env text (false, db) st = refl

  after_load-Sends :
      (id : Bytes) (env : Envelope p) (reserved : ℕ) (o : Option Bytes) (st : Dispatcher fl)
      → Sends fl (AtMostAssigns env) st (after_load g p fl c w id env reserved o st)
  unfolding after_load
  after_load-Sends id env reserved none st = assign_job-Sends id env reserved st
  after_load-Sends id env reserved (some text) st =
      ([], retried-calls id env text _ st ∙ silent fl st, inl refl)

  with_load :
      (env : Envelope p) (pool : ℕ) (calls : List WorkerCall)
      → 0 < pool
      → AtMostAssigns env calls
      → Placed p true env (load_call env.model_id pool ∷ calls)
  with_load env pool calls some_slots (inl e) = rw e (only_loaded pool refl some_slots)
  with_load env pool calls some_slots (inr e) = rw e (both pool refl some_slots)

  without_load :
      (env : Envelope p) (calls : List WorkerCall)
      → AtMostAssigns env calls
      → Placed p false env calls
  without_load env calls (inl e) = rw e nothing_sent
  without_load env calls (inr e) = rw e (only_assigned refl)

  load_model-Sends :
      (id : Bytes) (env : Envelope p) (pool reserved : ℕ) (st : Dispatcher fl)
      → Sends fl (Placed p true env) st (load_model g p fl c w id env pool reserved st)
  unfolding load_model after_load
  load_model-Sends id env pool reserved st = elim (Bool-cases (is_sent pool)) [
    | inl sent ↦
        let (calls, added, most) =
          after_load-Sends id env reserved (World.load_error w)
            (record st { calls = st.calls ++ load_call env.model_id (max_concurrent pool) ∷ [] }) in
        rw (sent, load_model)
          (
            load_call env.model_id (max_concurrent pool) ∷ calls,
            added ∙ one_more st.calls calls _,
            with_load env (max_concurrent pool) calls (ground (arith, sent)) most,
          )
    | inr unsent ↦
        rw (unsent, load_model)
          ([], retried-calls id env (World.no_pool_size w) _ st ∙ silent fl st, nothing_sent)
  ]

  place_marked-Sends :
      (id : Bytes) (env : Envelope p) (row : ModelBenchmarkRow fl) (st : Dispatcher fl)
      → Sends fl
          (Placed p (needs_load c.worker env.model_id (blockers g p fl c w env)) env)
          st
          (place_marked g p fl c w id env row st)
  unfolding place_marked
  place_marked-Sends id env row st =
      elim (Bool-cases (needs_load c.worker env.model_id (blockers g p fl c w env))) [
        | inl needed ↦ rw needed (
            load_model-Sends id env (pool_at_load g p fl c w env row)
              (projected_load_bytes fl (pool_for g p fl c w env row st) row) st)
        | inr warm ↦
            let (calls, added, most) = assign_job-Sends id env 0 st in
            rw warm (calls, added, without_load env calls most)
      ]

  place-Sends :
      (id : Bytes) (env : Envelope p) (row : ModelBenchmarkRow fl) (st : Dispatcher fl)
      → Sends fl
          (Placed p (needs_load c.worker env.model_id (blockers g p fl c w env)) env)
          st
          (place g p fl c w id env row st)
  unfolding place
  place-Sends id env row st = place_marked-Sends id env row (marked g p fl c w env st)

  abbrev pub IsOrderly : Envelope p → Dispatcher fl → List WorkerCall → Type 0
  IsOrderly env st =
      Orderly p (any_busy fl c.worker.id st.ledger (blockers g p fl c w env))
        (needs_load c.worker env.model_id (blockers g p fl c w env)) (blockers g p fl c w env) env

  cleared-Sends :
      (id : Bytes) (env : Envelope p) (row : ModelBenchmarkRow fl) (o : Bool × Dispatcher fl)
      (st : Dispatcher fl) (calls : List WorkerCall)
      → All IsEvict calls
      → o.1 ≡ record st { calls = st.calls ++ calls }
      → (o.0 ≡ true → calls ≡ evictions (blockers g p fl c w env))
      → any_busy fl c.worker.id st.ledger (blockers g p fl c w env) ≡ false
      → Sends fl (IsOrderly env st) st (cleared g p fl c w id env row o)
  unfolding cleared release_lease_for_retry
  cleared-Sends id env row (false, u) st calls all same whole idle =
      (calls, ap (λ (s : Dispatcher fl). s.calls) same, evicting calls all)
  cleared-Sends id env row (true, u) st calls all same whole idle =
      let (more, added, placed) = place-Sends id env row u in
      (
        evictions (blockers g p fl c w env) ++ more,
        added
            ∙ ap (λ (s : Dispatcher fl). s.calls ++ more) same
            ∙ append_assoc st.calls calls more
            ∙ ap (λ cs. st.calls ++ (cs ++ more)) (whole refl),
        placing more idle placed,
      )

  measured_idle :
      (id : Bytes) (env : Envelope p) (row : ModelBenchmarkRow fl) (st : Dispatcher fl)
      → any_busy fl c.worker.id st.ledger (blockers g p fl c w env) ≡ false
      → after_measure g p fl c w id env (some row) st
        ≡ cleared g p fl c w id env row (evict_all fl (World.evicts w) (blockers g p fl c w env) st)
  unfolding after_measure
  measured_idle id env row st idle = rw (idle, after_measure) refl

  after_measure-Sends :
      (id : Bytes) (env : Envelope p) (o : Option (ModelBenchmarkRow fl)) (st : Dispatcher fl)
      → Sends fl (IsOrderly env st) st (after_measure g p fl c w id env o st)
  unfolding after_measure release_lease_for_retry
  after_measure-Sends id env none st = ([], silent fl st, evicting [] tt)
  after_measure-Sends id env (some row) st =
      elim (Bool-cases (any_busy fl c.worker.id st.ledger (blockers g p fl c w env))) [
        | inl busy ↦ rw (busy, after_measure) ([], silent fl st, evicting [] tt)
        | inr idle ↦
            let (calls, all, same, whole) =
              evict_all-calls fl (World.evicts w) (blockers g p fl c w env) st in
            rw (measured_idle id env row st idle)
              (cleared-Sends id env row _ st calls all same whole idle)
      ]

  rearm_with-same :
      (request_id : Bytes) (o : Option JobBuffer) (st : Dispatcher fl)
      → ((rearm_with g p fl c w request_id o st).ledger ≡ st.ledger)
        × ((rearm_with g p fl c w request_id o st).calls ≡ st.calls)
  unfolding rearm_with
  rearm_with-same request_id none st = (refl, refl)
  rearm_with-same request_id (some buf) st = (refl, refl)

  gate-Sends :
      (id : Bytes) (env : Envelope p) (st u : Dispatcher fl)
      → u.ledger ≡ st.ledger
      → u.calls ≡ st.calls
      → Sends fl (IsOrderly env st) st (gate g p fl c w id env u)
  unfolding gate
  gate-Sends id env st u books calls =
      let (cs, added, orderly) = after_measure-Sends id env (World.row w) u in
      (
        cs,
        added ∙ ap (λ ds. ds ++ cs) calls,
        subst
            (λ l.
              Orderly p (any_busy fl c.worker.id l (blockers g p fl c w env))
                (needs_load c.worker env.model_id (blockers g p fl c w env))
                (blockers g p fl c w env) env cs)
            books orderly,
      )

  rearmed-Sends :
      (id : Bytes) (env : Envelope p) (s : Store) (st : Dispatcher fl)
      → Sends fl (IsOrderly env st) st (
          gate g p fl c w id env
            (ensure_job_buffer g p fl c w env.request_id (record st { store = s })))
  unfolding ensure_job_buffer
  rearmed-Sends id env s st =
      let (books, calls) =
        rearm_with-same env.request_id (lookup env.request_id st.buffers)
          (record st { store = s }) in
      gate-Sends id env st _ books calls

  recovered-Sends :
      (id : Bytes) (env : Envelope p) (o : Outcome (Option ResultRow)) (st : Dispatcher fl)
      → Sends fl (IsOrderly env st) st (recovered g p fl c w id env o st)
  unfolding recovered cleanup_rows fail_result
  recovered-Sends id env (did none s) st = ([], silent fl st, evicting [] tt)
  recovered-Sends id env (did (some r) s) st = elim (Bool-cases (is_terminal r.status)) [
    | inl over ↦ rw (over, recovered) ([], silent fl st, evicting [] tt)
    | inr live ↦ rw (live, recovered) (rearmed-Sends id env s st)
  ]
  recovered-Sends id env (failed s) st = rearmed-Sends id env s st
  recovered-Sends id env (crashed s) st = ([], silent fl st, evicting [] tt)

  with_buffer-Sends :
      (id : Bytes) (env : Envelope p) (o : Option JobBuffer) (st : Dispatcher fl)
      → Sends fl (IsOrderly env st) st (with_buffer g p fl c w id env o st)
  unfolding with_buffer
  with_buffer-Sends id env (some buf) st = gate-Sends id env st st refl refl
  with_buffer-Sends id env none st = recovered-Sends id env _ st

  -- A dispatch either does nothing but evict, or it finds no resident in its way busy, evicts all of
  -- them in order, loads the model where a load is needed, with a pool of one slot or more, and then
  -- assigns the job, unless it has ended before. It calls the worker for nothing else.
  pub dispatch-IsOrderly :
      (id : Bytes) (env : Envelope p) (st : Dispatcher fl)
      → Sends fl (IsOrderly env st) st (dispatch_envelope g p fl c w id env st)
  unfolding dispatch_envelope
  dispatch-IsOrderly id env st = with_buffer-Sends id env (lookup env.request_id st.buffers) st
