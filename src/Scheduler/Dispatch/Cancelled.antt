-- ===== src/Scheduler/Dispatch/Cancelled.antt =====
-- A cancel that comes while `dispatchEnvelope` of internal/scheduler/scheduler.go places the job.
use mass.Prelude.{
  All, ◌≡◌, refl, sym, ap, subst, ◌∙◌, Bool, true, false, List, [], ◌∷◌, ◌++◌, Option, none, some,
  Bytes, Bool-cases, inl, inr, ℕ, arith, if◌then◌else◌,
}
use mass.Prelude.Map.{lookup}
use mass.Queue.Database.{Db, Goqite}
use mass.Queue.Envelope.{Proto, Envelope}
use mass.Queue.Results.{ResultRow, Outcome, did, failed, crashed, is_terminal}
use mass.Scheduler.Devices.{ModelBenchmarkRow, needs_load, projected_load_bytes}
use mass.Scheduler.Dispatch.{
  WorkerCall, evict_call, EvictAnswer, not_asked, not_evicted, evicted, evict_model, load_call,
  assign_call, Dispatcher, Setting, World, is_sent, max_concurrent, any_busy, evict_all, started,
  assign_job, retried, after_load, load_model, pool_for, pool_at_load, blockers, marked,
  place_marked, place, cleared, after_measure, gate, recovered, with_buffer, dispatch_envelope,
  fail_and_drop, cleanup_rows, fail_result, publish, release_lease_for_retry, ensure_job_buffer,
  rearm_with,
}
use mass.Scheduler.Inflight.{
  Float64, Ledger, LedgerOp, op_cancel, apply, start_inflight, mark_dispatching,
}
use mass.Scheduler.Inflight.Cancel.{apply_all, apply_all-append, cancel_wins, is_window_of}
use mass.Scheduler.StreamBuffer.{JobBuffer}
use mass.Worker.Status.{LoadedModelStatus}

abbrev pub is_assign : WorkerCall → Bool
is_assign (evict_call m) = false
is_assign (load_call m pool) = false
is_assign (assign_call m payload) = true

abbrev pub has_assign : List WorkerCall → Bool
has_assign [] = false
has_assign (c ∷ cs) = if is_assign c then true else has_assign cs

has_assign-snoc :
    (cs : List WorkerCall) (c : WorkerCall)
    → is_assign c ≡ false
    → has_assign (cs ++ c ∷ []) ≡ has_assign cs
has_assign-snoc [] c h = ground (arith, h)
has_assign-snoc (d ∷ cs) c h = ground (arith, has_assign-snoc cs c h)

-- No job more is sent to the worker, and no pump more is started.
abbrev pub IsUnsent : (fl : Float64) → Dispatcher fl → Dispatcher fl → Type 0
IsUnsent fl st u = (has_assign u.calls ≡ has_assign st.calls) × (u.pumps ≡ st.pumps)

IsUnsent-then :
    (fl : Float64) (s t u : Dispatcher fl) → IsUnsent fl s t → IsUnsent fl t u → IsUnsent fl s u
IsUnsent-then fl s t u (a, b) (c, d) = (c ∙ a, d ∙ b)

-- Evictions send no job and change no book.
abbrev KeepsBooks : (fl : Float64) → Dispatcher fl → Bool × Dispatcher fl → Type 0
KeepsBooks fl st o = IsUnsent fl st o.1 × ((o.1).ledger ≡ st.ledger)

evict_model-IsUnsent :
    (fl : Float64) (a : EvictAnswer) (st called : Dispatcher fl) (rest : Bool × Dispatcher fl)
    → IsUnsent fl st called × (called.ledger ≡ st.ledger)
    → KeepsBooks fl called rest
    → KeepsBooks fl st (evict_model fl a st called rest)
unfolding evict_model
evict_model-IsUnsent fl not_asked st called rest h k = ((refl, refl), refl)
evict_model-IsUnsent fl not_evicted st called rest h k = h
evict_model-IsUnsent fl evicted st called rest (unsent, books) (later, kept) =
    (IsUnsent-then fl st called rest.1 unsent later, kept ∙ books)

evict_all-IsUnsent :
    (fl : Float64) (evicts : Bytes → EvictAnswer) (lms : List LoadedModelStatus)
    (st : Dispatcher fl)
    → KeepsBooks fl st (evict_all fl evicts lms st)
unfolding evict_all
evict_all-IsUnsent fl evicts [] st = ((refl, refl), refl)
evict_all-IsUnsent fl evicts (lm ∷ lms) st =
    let called : Dispatcher fl = record st { calls = st.calls ++ evict_call lm.model_id ∷ [] } in
    evict_model-IsUnsent fl (evicts lm.model_id) st called (evict_all fl evicts lms called)
      ((has_assign-snoc st.calls (evict_call lm.model_id) refl, refl), refl)
      (evict_all-IsUnsent fl evicts lms called)

module _ (g : Goqite) (p : Proto) (fl : Float64) (c : Setting) (w : World fl) where
  -- `startInflight` will refuse the request, whatever it reserves.
  abbrev pub Refuses : Envelope p → Ledger fl → Type 0
  Refuses env l =
      (reserved : ℕ)
      → (start_inflight fl c.queue env.request_id env.model_id env.runtime_name
          (World.task_seconds w) reserved (apply_all fl (World.meanwhile w) l)).0
        ≡ false

  started-IsUnsent :
      (id : Bytes) (env : Envelope p) (o : Bool × Ledger fl) (st : Dispatcher fl)
      → o.0 ≡ false
      → IsUnsent fl st (started g p fl c w id env o st).1
  unfolding started fail_and_drop cleanup_rows publish fail_result
  started-IsUnsent id env (false, l) st h = (refl, refl)
  started-IsUnsent id env (true, l) st h = absurd (cc h)

  assign_job-IsUnsent :
      (id : Bytes) (env : Envelope p) (reserved : ℕ) (st : Dispatcher fl)
      → Refuses env st.ledger
      → IsUnsent fl st (assign_job g p fl c w id env reserved st).1
  unfolding assign_job
  assign_job-IsUnsent id env reserved st refuses =
      started-IsUnsent id env
        (start_inflight fl c.queue env.request_id env.model_id env.runtime_name
          (World.task_seconds w) reserved (apply_all fl (World.meanwhile w) st.ledger))
        st (refuses reserved)

  retried-IsUnsent :
      (id : Bytes) (env : Envelope p) (text : Bytes) (o : Bool × Db) (st : Dispatcher fl)
      → IsUnsent fl st (retried g p fl c w id env text o st).1
  unfolding retried fail_and_drop cleanup_rows publish fail_result
  retried-IsUnsent id env text (true, db) st = (refl, refl)
  retried-IsUnsent id env text (false, db) st = (refl, refl)

  after_load-IsUnsent :
      (id : Bytes) (env : Envelope p) (reserved : ℕ) (o : Option Bytes) (st : Dispatcher fl)
      → Refuses env st.ledger
      → IsUnsent fl st (after_load g p fl c w id env reserved o st).1
  unfolding after_load
  after_load-IsUnsent id env reserved none st refuses =
      assign_job-IsUnsent id env reserved st refuses
  after_load-IsUnsent id env reserved (some text) st refuses = retried-IsUnsent id env text _ st

  load_model-IsUnsent :
      (id : Bytes) (env : Envelope p) (pool reserved : ℕ) (st : Dispatcher fl)
      → Refuses env st.ledger
      → IsUnsent fl st (load_model g p fl c w id env pool reserved st).1
  unfolding load_model
  load_model-IsUnsent id env pool reserved st refuses = elim (Bool-cases (is_sent pool)) [
    | inl sent ↦
        let call = load_call env.model_id (max_concurrent pool) in
        let next : Dispatcher fl = record st { calls = st.calls ++ call ∷ [] } in
        let (calls, pumps) =
          after_load-IsUnsent id env reserved (World.load_error w) next refuses in
        rw (sent, load_model) (calls ∙ has_assign-snoc st.calls call refl, pumps)
    | inr unsent ↦
        rw (unsent, load_model)
          (after_load-IsUnsent id env reserved (some (World.no_pool_size w)) st refuses)
  ]

  place_marked-IsUnsent :
      (id : Bytes) (env : Envelope p) (row : ModelBenchmarkRow fl) (st : Dispatcher fl)
      → Refuses env st.ledger
      → IsUnsent fl st (place_marked g p fl c w id env row st).1
  unfolding place_marked
  place_marked-IsUnsent id env row st refuses =
      elim (Bool-cases (needs_load c.worker env.model_id (blockers g p fl c w env))) [
        | inl needed ↦ rw needed (
            load_model-IsUnsent id env (pool_at_load g p fl c w env row)
              (projected_load_bytes fl (pool_for g p fl c w env row st) row) st refuses)
        | inr warm ↦ rw warm (assign_job-IsUnsent id env 0 st refuses)
      ]

  -- The ledger is that of the start, up to the mark.
  abbrev IsRefused : Envelope p → Dispatcher fl → Type 0
  IsRefused env st = Refuses env (mark_dispatching fl env.request_id st.ledger)

  cleared-IsUnsent :
      (id : Bytes) (env : Envelope p) (row : ModelBenchmarkRow fl) (b : Bool) (st : Dispatcher fl)
      → IsRefused env st
      → IsUnsent fl st (cleared g p fl c w id env row (b, st)).1
  unfolding cleared place release_lease_for_retry
  cleared-IsUnsent id env row false st refuses = (refl, refl)
  cleared-IsUnsent id env row true st refuses =
      place_marked-IsUnsent id env row (marked g p fl c w env st) refuses

  after_measure-IsUnsent :
      (id : Bytes) (env : Envelope p) (o : Option (ModelBenchmarkRow fl)) (st : Dispatcher fl)
      → IsRefused env st
      → IsUnsent fl st (after_measure g p fl c w id env o st).1
  unfolding after_measure release_lease_for_retry
  after_measure-IsUnsent id env none st refuses = (refl, refl)
  after_measure-IsUnsent id env (some row) st refuses =
      elim (Bool-cases (any_busy fl c.worker.id st.ledger (blockers g p fl c w env))) [
        | inl busy ↦ rw (busy, after_measure) (refl, refl)
        | inr idle ↦
            let done = evict_all fl (World.evicts w) (blockers g p fl c w env) st in
            let (quiet, books) =
              evict_all-IsUnsent fl (World.evicts w) (blockers g p fl c w env) st in
            rw (idle, after_measure)
              (IsUnsent-then fl st done.1 (cleared g p fl c w id env row done).1 quiet (
                cleared-IsUnsent id env row done.0 done.1 (
                  subst (λ l. Refuses env (mark_dispatching fl env.request_id l)) (sym books)
                    refuses)))
      ]

  rearmed-IsUnsent :
      (request_id : Bytes) (o : Option JobBuffer) (st : Dispatcher fl)
      → IsUnsent fl st (rearm_with g p fl c w request_id o st)
        × ((rearm_with g p fl c w request_id o st).ledger ≡ st.ledger)
  unfolding rearm_with
  rearmed-IsUnsent request_id none st = ((refl, refl), refl)
  rearmed-IsUnsent request_id (some buf) st = ((refl, refl), refl)

  regained-IsUnsent :
      (id : Bytes) (env : Envelope p) (st : Dispatcher fl)
      → IsRefused env st
      → IsUnsent fl st (gate g p fl c w id env (ensure_job_buffer g p fl c w env.request_id st)).1
  unfolding gate ensure_job_buffer
  regained-IsUnsent id env st refuses =
      let buf = lookup env.request_id st.buffers in
      let (quiet, books) = rearmed-IsUnsent env.request_id buf st in
      let rearmed = rearm_with g p fl c w env.request_id buf st in
      IsUnsent-then fl st rearmed (after_measure g p fl c w id env (World.row w) rearmed).1 quiet (
        after_measure-IsUnsent id env (World.row w) rearmed
          (subst (λ l. Refuses env (mark_dispatching fl env.request_id l)) (sym books) refuses))

  recovered-IsUnsent :
      (id : Bytes) (env : Envelope p) (o : Outcome (Option ResultRow)) (st : Dispatcher fl)
      → IsRefused env st
      → IsUnsent fl st (recovered g p fl c w id env o st).1
  unfolding recovered cleanup_rows fail_result
  recovered-IsUnsent id env (did none s) st refuses = (refl, refl)
  recovered-IsUnsent id env (did (some r) s) st refuses = elim (Bool-cases (is_terminal r.status)) [
    | inl over ↦ rw (over, recovered) (refl, refl)
    | inr live ↦ rw (live, recovered) (regained-IsUnsent id env (record st { store = s }) refuses)
  ]
  recovered-IsUnsent id env (failed s) st refuses =
      regained-IsUnsent id env (record st { store = s }) refuses
  recovered-IsUnsent id env (crashed s) st refuses = (refl, refl)

  with_buffer-IsUnsent :
      (id : Bytes) (env : Envelope p) (o : Option JobBuffer) (st : Dispatcher fl)
      → IsRefused env st
      → IsUnsent fl st (with_buffer g p fl c w id env o st).1
  unfolding with_buffer gate
  with_buffer-IsUnsent id env (some buf) st refuses =
      after_measure-IsUnsent id env (World.row w) st refuses
  with_buffer-IsUnsent id env none st refuses = recovered-IsUnsent id env _ st refuses

  cancel-Refuses :
      (env : Envelope p) (b : Bool) (early late : List (LedgerOp fl)) (l : Ledger fl)
      → World.meanwhile w ≡ early ++ op_cancel env.request_id ∷ late
      → lookup env.request_id (apply_all fl early l).dispatching_by_request ≡ some b
      → All (λ op. is_window_of fl env.request_id op ≡ false) late
      → Refuses env l
  unfolding apply apply_all
  cancel-Refuses env b early late l ops window shut reserved =
      rw (ops, apply_all-append fl early (op_cancel env.request_id ∷ late) l)
        (ap (λ (o : Bool × Ledger fl). o.0)
          (cancel_wins fl env.request_id c.queue env.model_id env.runtime_name
            (World.task_seconds w) reserved b late (apply_all fl early l) window shut).1)

  -- A cancel that finds the job between its mark and its start is honoured, with a load in between or
  -- not: the dispatch sends the worker no job and starts no pump, whatever else the worker, the
  -- database and the other goroutines do, as long as none of them opens or shuts the window of that
  -- request behind the cancel.
  pub cancelled_dispatch-IsUnsent :
      (id : Bytes) (env : Envelope p) (b : Bool) (early late : List (LedgerOp fl))
      (st : Dispatcher fl)
      → World.meanwhile w ≡ early ++ op_cancel env.request_id ∷ late
      → lookup env.request_id
          (apply_all fl early (mark_dispatching fl env.request_id st.ledger)).dispatching_by_request
        ≡ some b
      → All (λ op. is_window_of fl env.request_id op ≡ false) late
      → IsUnsent fl st (dispatch_envelope g p fl c w id env st).1
  unfolding dispatch_envelope
  cancelled_dispatch-IsUnsent id env b early late st ops window shut =
      with_buffer-IsUnsent id env (lookup env.request_id st.buffers) st (
        cancel-Refuses env b early late (mark_dispatching fl env.request_id st.ledger) ops window
          shut)
