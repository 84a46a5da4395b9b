-- ===== src/Scheduler/Dispatch/Steps.antt =====
-- A drain pass of internal/scheduler/scheduler.go as a sequence of steps on the results: what
-- `drainOneWorkerQueue` and all that it calls may do to them.
use mass.Prelude.{◌≡◌, refl, Bool, true, false, Option, none, some, Bytes, ℕ}
use mass.Prelude.Map.{lookup}
use mass.Queue.Database.{Db, Goqite}
use mass.Queue.Envelope.{Proto, Envelope}
use mass.Queue.Ops.{defer}
use mass.Queue.Results.{Stamp, Store, lift, get, fail, mark_processing}
use mass.Queue.Results.Lifecycle.{after, exec-cases}
use mass.Scheduler.Dispatch.{
  AssignAnswer, assigned, refused, Dispatcher, Setting, World, answered, mark_started, started,
  assign_job, retried, after_load, fail_and_drop, cleanup_rows, fail_result, publish, debit_tail,
  release_lease_for_retry,
}
use mass.Scheduler.Finalize.Order.{lifted_results, delete_message_results}
use mass.Scheduler.Inflight.{Float64, Ledger, start_inflight, finish_inflight}
use mass.Scheduler.Inflight.Cancel.{apply_all}
use mass.Scheduler.Retry.{retry_after_load_failure}

-- One step: the results are kept, one is failed, or one is marked as processing.
pub data Step (st : Store) : Store → Type 0 where
  keeps : (u : Store) → u.results ≡ st.results → Step st u
  fails : (request_id text : Bytes) (now : Stamp) → Step st (after (fail request_id text now st))
  begins : (request_id : Bytes) → Step st (after (mark_processing request_id st))

pub data Steps (st : Store) : Store → Type 0 where
  here : Steps st st
  next : {u v : Store} → Steps st u → Step u v → Steps st v

pub trans : {s t u : Store} → Steps s t → Steps t u → Steps s u
trans a here = a
trans a (next b step) = next (trans a b) step

one : {s u : Store} → Step s u → Steps s u
one step = next here step

pub same : {s u : Store} → u.results ≡ s.results → Steps s u
same e = one (keeps _ e)

pub get_keeps : (id : Bytes) (s : Store) → (after (get id s)).results ≡ s.results
unfolding get
get_keeps id s =
    exec-cases (λ o. (after o).results ≡ s.results) (λ t. (lookup id t, t)) s (λ db e. refl)
      (λ db e. refl)

module _ (g : Goqite) (p : Proto) (fl : Float64) (c : Setting) (w : World fl) where
  pub cleanup_rows-Steps :
      (id global_id : Bytes) (s : Store) (st : Dispatcher fl)
      → Steps s st.store
      → Steps s (cleanup_rows g p fl c w id global_id st).store
  unfolding cleanup_rows
  cleanup_rows-Steps id global_id s st h =
      trans h (same (delete_message_results g p fl c.queue c.global id global_id st.store))

  pub fail_and_drop-Steps :
      (id : Bytes) (env : Envelope p) (text : Bytes) (s : Store) (st : Dispatcher fl)
      → Steps s st.store
      → Steps s (fail_and_drop g p fl c w id env text st).store
  unfolding fail_and_drop publish fail_result
  fail_and_drop-Steps id env text s st h =
      cleanup_rows-Steps id env.global_msg_id s
        (publish g p fl c w env.request_id text (fail_result g p fl c w env.request_id text st))
        (next h (fails env.request_id text c.stamp))

  pub bounce-Steps :
      (id : Bytes) (s : Store) (st : Dispatcher fl)
      → Steps s st.store
      → Steps s (release_lease_for_retry g p fl c w id st).store
  unfolding release_lease_for_retry lift
  bounce-Steps id s st h =
      trans h (
        same
          (lifted_results st.store.results (defer c.queue id c.retry_interval c.now st.store.db)))

  answered-Steps :
      (id : Bytes) (env : Envelope p) (a : AssignAnswer) (s : Store) (st : Dispatcher fl)
      → Steps s st.store
      → Steps s (answered g p fl c w id env a st).1.store
  unfolding answered publish fail_result
  answered-Steps id env (assigned job_id) s st h = h
  answered-Steps id env (refused text) s st h =
      let failed_st =
        publish g p fl c w env.request_id text (fail_result g p fl c w env.request_id text st) in
      cleanup_rows-Steps id env.global_msg_id s
        (record failed_st { ledger = finish_inflight fl env.request_id failed_st.ledger })
        (next h (fails env.request_id text c.stamp))

  started-Steps :
      (id : Bytes) (env : Envelope p) (o : Bool × Ledger fl) (s : Store) (st : Dispatcher fl)
      → Steps s st.store
      → Steps s (started g p fl c w id env o st).1.store
  unfolding started mark_started debit_tail
  started-Steps id env (false, l) s st h =
      fail_and_drop-Steps id env _ s (record st { ledger = l }) h
  started-Steps id env (true, l) s st h =
      answered-Steps id env (World.assign w) s
        (mark_started g p fl c w env (record st { ledger = l })) (next h (begins env.request_id))

  pub assign_job-Steps :
      (id : Bytes) (env : Envelope p) (reserved : ℕ) (s : Store) (st : Dispatcher fl)
      → Steps s st.store
      → Steps s (assign_job g p fl c w id env reserved st).1.store
  unfolding assign_job
  assign_job-Steps id env reserved s st h =
      started-Steps id env
        (start_inflight fl c.queue env.request_id env.model_id env.runtime_name
          (World.task_seconds w) reserved (apply_all fl (World.meanwhile w) st.ledger))
        s st h

  retried-Steps :
      (id : Bytes) (env : Envelope p) (text : Bytes) (o : Bool × Db) (s : Store)
      (st : Dispatcher fl)
      → Steps s st.store
      → Steps s (retried g p fl c w id env text o st).1.store
  unfolding retried
  retried-Steps id env text (true, db) s st h = next h (keeps _ refl)
  retried-Steps id env text (false, db) s st h =
      fail_and_drop-Steps id env text s (record st { store = record st.store { db = db } })
        (next h (keeps _ refl))

  pub after_load-Steps :
      (id : Bytes) (env : Envelope p) (reserved : ℕ) (o : Option Bytes) (s : Store)
      (st : Dispatcher fl)
      → Steps s st.store
      → Steps s (after_load g p fl c w id env reserved o st).1.store
  unfolding after_load
  after_load-Steps id env reserved none s st h = assign_job-Steps id env reserved s st h
  after_load-Steps id env reserved (some text) s st h =
      retried-Steps id env text
        (retry_after_load_failure g p c.max_attempts c.queue id c.global env c.now st.store.db) s st
        h
