-- ===== src/Scheduler/Dispatch/Endings.antt =====
-- The last steps of a dispatch: what `dispatchEnvelope` in internal/scheduler/scheduler.go leaves behind for the job that it was
-- given, by the way it ended.
use mass.Prelude.{
  ◌+◌, ◌<◌, ◌∙◌, subst, ◌≡◌, refl, ap, Bool, true, false, [], ◌∷◌, Option, none, some, Bytes, ℕ,
}
use mass.Prelude.Map.{lookup}
use mass.Queue.Database.{Db, Goqite}
use mass.Queue.Envelope.{Proto, Envelope}
use mass.Queue.Results.{ResultRow, Store, is_terminal}
use mass.Queue.Sweeper.{has_ended}
use mass.Queue.Table.{Row, Table}
use mass.Scheduler.Dispatch.{
  AssignAnswer, assigned, refused, Exit, unknown_request, already_answered, bounced, requeued,
  load_failed, cancelled, assign_failed, in_flight, panics, Dispatcher, Setting, World, answered,
  mark_started, started, assign_job, retried, after_load, fail_and_drop, cleanup_rows, fail_result,
  publish, debit_tail,
}
use mass.Scheduler.Finalize.{cancelled_text}
use mass.Scheduler.Finalize.Order.{delete_message_results}
use mass.Scheduler.Finalize.Running.{
  is_running, mark_running, mark_processing-free, running_row, fail_ends,
}
use mass.Scheduler.Inflight.{Float64, Ledger, InflightRecord, start_inflight}
use mass.Scheduler.Inflight.Cancel.{apply_all}
use mass.Scheduler.Inflight.Records.{start-recorded, attach-recorded, finish-gone}
use mass.Scheduler.Redistribute.Rows.{mark_processing_rows}
use mass.Scheduler.Retry.{retry_after_load_failure}
use mass.Scheduler.Retry.Attempts.{IsReplaced, Retried, retry-Retried}
use mass.Scheduler.Retry.Health.{retry-IsFree}

-- The result of the job; the books of the job, if it runs as the worker's `job`.
abbrev pub result_in : {fl : Float64} (p : Proto) → Envelope p → Dispatcher fl → Option ResultRow
result_in p env st = lookup env.request_id st.store.results

abbrev pub IsPumped :
    (fl : Float64) (p : Proto) → Envelope p → Dispatcher fl → Dispatcher fl → Type 0
IsPumped fl p env st u =
    (job : Bytes) × (u.pumps ≡ (env.request_id, job) ∷ st.pumps)
    × ((rec : InflightRecord fl) × (lookup env.request_id u.ledger.inflight_by_request ≡ some rec)
        × (rec.worker_job_id ≡ job))

-- A live job waits, on its row of the worker's queue, given back for after the retry interval, or on
-- the row of its next attempt on the global queue; or it has ended; or it is in flight, on its row as
-- it was, with a pump, under its worker's job ID. `msg` is the row that the dispatch was given.
abbrev pub Settled :
    (g : Goqite) (p : Proto) (fl : Float64)
    → Setting
    → Row
    → Bytes
    → Envelope p
    → Dispatcher fl
    → Exit
    → Dispatcher fl
    → Type 0
Settled g p fl c msg id env st unknown_request u = ⊥
Settled g p fl c msg id env st already_answered u = ⊥
Settled g p fl c msg id env st panics u = ⊥
Settled g p fl c msg id env st bounced u =
    (result_in p env u ≡ result_in p env st)
    × (lookup id u.store.db.rows
        ≡ some (record msg { timeout = c.now + c.retry_interval; received = 0 }))
Settled g p fl c msg id env st requeued u =
    (result_in p env u ≡ result_in p env st)
    × (env.attempts + 1 < c.max_attempts)
    × ((q : Bytes) × (c.global ≡ some q)
        × IsReplaced g p c.queue id q env c.now st.store.db.rows u.store.db.rows)
Settled g p fl c msg id env st load_failed u = has_ended (result_in p env u) ≡ true
Settled g p fl c msg id env st cancelled u = has_ended (result_in p env u) ≡ true
Settled g p fl c msg id env st assign_failed u =
    (has_ended (result_in p env u) ≡ true)
    × (lookup env.request_id u.ledger.inflight_by_request ≡ none)
Settled g p fl c msg id env st in_flight u =
    (is_running (result_in p env u) ≡ true)
    × (lookup id u.store.db.rows ≡ some msg)
    × IsPumped fl p env st u

-- The row of the job, in the worker's queue.
abbrev pub IsQueued : (fl : Float64) → Setting → Row → Bytes → Dispatcher fl → Type 0
IsQueued fl c msg id st = (lookup id st.store.db.rows ≡ some msg) × (msg.queue ≡ c.queue)

-- A result that waits or runs, in a database that refuses nothing.
abbrev pub IsLive : (fl : Float64) (p : Proto) → Envelope p → ResultRow → Dispatcher fl → Type 0
IsLive fl p env r st =
    (st.store.db.faults ≡ []) × (result_in p env st ≡ some r) × (is_terminal r.status ≡ false)

module _ (g : Goqite) (p : Proto) (fl : Float64) (c : Setting) (w : World fl) (msg : Row) where
  cleanup_rows-results :
      (id global_id : Bytes) (st : Dispatcher fl)
      → (cleanup_rows g p fl c w id global_id st).store.results ≡ st.store.results
  unfolding cleanup_rows
  cleanup_rows-results id global_id st =
      delete_message_results g p fl c.queue c.global id global_id st.store

  fail_and_drop-ends :
      (id : Bytes) (env : Envelope p) (text : Bytes) (st : Dispatcher fl) (r : ResultRow)
      → st.store.db.faults ≡ []
      → result_in p env st ≡ some r
      → has_ended (result_in p env (fail_and_drop g p fl c w id env text st)) ≡ true
  unfolding fail_and_drop publish fail_result
  fail_and_drop-ends id env text st r free found =
      rw (cleanup_rows-results id env.global_msg_id _)
        (fail_ends env.request_id text c.stamp st.store r free found)

  answered-Settled :
      (id : Bytes) (env : Envelope p) (a : AssignAnswer) (first st : Dispatcher fl)
      → st.store.db.faults ≡ []
      → is_running (result_in p env st) ≡ true
      → lookup id st.store.db.rows ≡ some msg
      → st.pumps ≡ first.pumps
      → ((rec : InflightRecord fl) × (lookup env.request_id st.ledger.inflight_by_request
            ≡ some rec))
      → Settled g p fl c msg id env first
          (answered g p fl c w id env a st).0
          (answered g p fl c w id env a st).1
  unfolding answered publish fail_result cleanup_rows
  answered-Settled id env (assigned job) first st free runs held pumps (rec, recorded) = (
    runs,
    held,
    (
      job,
      ap (◌∷◌ (env.request_id, job)) pumps,
      (
        record rec { worker_job_id = job },
        attach-recorded fl env.request_id job rec st.ledger recorded,
        refl,
      ),
    ),
  )
  answered-Settled id env (refused text) first st free runs held pumps recorded =
      let (r, found) = running_row (result_in p env st) runs in
      (
        rw (delete_message_results g p fl c.queue c.global id env.global_msg_id _)
            (fail_ends env.request_id text c.stamp st.store r free found),
        finish-gone fl env.request_id st.ledger,
      )

  started-Settled :
      (id : Bytes) (env : Envelope p) (o : Bool × Ledger fl) (first st : Dispatcher fl)
      (r : ResultRow)
      → IsLive fl p env r st
      → lookup id st.store.db.rows ≡ some msg
      → st.pumps ≡ first.pumps
      → (o.0 ≡ true
          → (rec : InflightRecord fl) × (lookup env.request_id (o.1).inflight_by_request
              ≡ some rec))
      → Settled g p fl c msg id env first
          (started g p fl c w id env o st).0
          (started g p fl c w id env o st).1
  unfolding started mark_started debit_tail
  started-Settled id env (false, l) first st r (free, found, live) held pumps recorded =
      fail_and_drop-ends id env cancelled_text (record st { ledger = l }) r free found
  started-Settled id env (true, l) first st r (free, found, live) held pumps recorded =
      answered-Settled id env (World.assign w) first
        (mark_started g p fl c w env (record st { ledger = l }))
        (mark_processing-free env.request_id st.store free)
        (mark_running env.request_id st.store r free live found)
        (ap (lookup id) (mark_processing_rows env.request_id st.store) ∙ held) pumps (recorded refl)

  pub assign_job-Settled :
      (id : Bytes) (env : Envelope p) (reserved : ℕ) (first st : Dispatcher fl) (r : ResultRow)
      → IsLive fl p env r st
      → lookup id st.store.db.rows ≡ some msg
      → st.pumps ≡ first.pumps
      → Settled g p fl c msg id env first
          (assign_job g p fl c w id env reserved st).0
          (assign_job g p fl c w id env reserved st).1
  unfolding assign_job
  assign_job-Settled id env reserved first st r live held pumps =
      started-Settled id env
        (start_inflight fl c.queue env.request_id env.model_id env.runtime_name
          (World.task_seconds w) reserved (apply_all fl (World.meanwhile w) st.ledger))
        first st r live held pumps
        (start-recorded fl c.queue env.request_id env.model_id env.runtime_name
          (World.task_seconds w) reserved (apply_all fl (World.meanwhile w) st.ledger))

  retried-Settled :
      (id : Bytes) (env : Envelope p) (text : Bytes) (o : Bool × Db) (first st : Dispatcher fl)
      (r : ResultRow)
      → IsLive fl p env r st
      → st.store ≡ first.store
      → Retried g p c.max_attempts c.queue id c.global env c.now first.store.db.rows o
      → (o.1).faults ≡ []
      → Settled g p fl c msg id env first
          (retried g p fl c w id env text o st).0
          (retried g p fl c w id env text o st).1
  unfolding retried
  retried-Settled id env text (true, db) first st r live same (left, replaced) free =
      (ap (λ (s : Store). lookup env.request_id s.results) same, left, replaced)
  retried-Settled id env text (false, db) first st r (_, found, live) same kept free =
      fail_and_drop-ends id env text (record st { store = record st.store { db = db } }) r free
        found

  pub after_load-Settled :
      (id : Bytes) (env : Envelope p) (reserved : ℕ) (o : Option Bytes) (first st : Dispatcher fl)
      (r : ResultRow)
      → IsLive fl p env r st
      → IsQueued fl c msg id first
      → st.store ≡ first.store
      → st.pumps ≡ first.pumps
      → Settled g p fl c msg id env first
          (after_load g p fl c w id env reserved o st).0
          (after_load g p fl c w id env reserved o st).1
  unfolding after_load
  after_load-Settled id env reserved none first st r live queued same pumps =
      assign_job-Settled id env reserved first st r live
        (ap (λ (s : Store). lookup id s.db.rows) same ∙ queued.0) pumps
  after_load-Settled id env reserved (some text) first st r live queued same pumps =
      retried-Settled id env text
        (retry_after_load_failure g p c.max_attempts c.queue id c.global env c.now st.store.db)
        first st r live same
        (subst
          (λ (t : Table).
            Retried g p c.max_attempts c.queue id c.global env c.now t (
              retry_after_load_failure g p c.max_attempts c.queue id c.global env c.now
                st.store.db))
          (ap (λ (s : Store). s.db.rows) same)
          (retry-Retried g p c.max_attempts c.queue id c.global env c.now st.store.db))
        (retry-IsFree g p c.max_attempts c.queue id c.global env c.now st.store.db live.0)
