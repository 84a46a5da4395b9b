-- ===== src/Scheduler/Redistribute/Settled.antt =====
-- `drainWorkerQueue` of internal/scheduler/scheduler.go: which jobs may be placed again.
use mass.Prelude.{◌+◌, ◌<◌, ◌≡◌, refl, ap, subst, Bool, true, false, [], Bytes}
use mass.Prelude.Map.{lookup}
use mass.Queue.Database.{Result, ok, err, panicked, Goqite}
use mass.Queue.Database.Rules.{Atomic, statement_free}
use mass.Queue.Envelope.{Proto, Envelope}
use mass.Queue.Ops.{delete_both}
use mass.Queue.Ops.Handover.{Views, dropped, delete_both-Atomic}
use mass.Queue.Ops.Health.{delete_both-free}
use mass.Queue.Ops.Placing.{rows_of, IsSubmitted}
use mass.Queue.Results.{ResultTable, Store, did, lift, lifted, get, exec, ◌>>=◌}
use mass.Queue.Results.Lifecycle.{after}
use mass.Queue.Sweeper.{has_ended}
use mass.Queue.Table.{Row, Table}
use mass.Scheduler.Redistribute.{
  Drain, disconnect_requeue_budget, drop_both, settle, drain_envelope, result_is_terminal, ended_in,
}
use mass.Scheduler.Redistribute.Rows.{lifted_rows}

module _ (g : Goqite) (p : Proto) where
  -- The one row that a drain may place: the job's next attempt, on the global queue, if the row was
  -- leased and the budget is not spent.
  abbrev pub IsNextAttempt : Drain → Bool → Envelope p → Row → Type 0
  IsNextAttempt d leased env row =
      (leased ≡ true)
      × (env.attempts + 1 < disconnect_requeue_budget)
      × IsSubmitted g p d.global
          (record env { attempts = env.attempts + 1; global_msg_id = []; queued_seconds = 0 }) row

  lifted_keeps : (t : ResultTable) (r : Result (Unit {0})) → (after (lifted t r)).results ≡ t
  unfolding lifted
  lifted_keeps t (ok a db) = refl
  lifted_keeps t (err db) = refl
  lifted_keeps t (panicked db) = refl

  pub get_free :
      (id : Bytes) (s : Store) → s.db.faults ≡ [] → get id s ≡ did (lookup id s.results) s
  unfolding get exec lift lifted
  get_free id s free = rw (statement_free {A = Unit {0}} (λ t. (tt, t)) s.db free, ◌>>=◌) refl

  terminal_read :
      (id : Bytes) (s : Store)
      → s.db.faults ≡ []
      → has_ended (lookup id s.results) ≡ true
      → result_is_terminal id s ≡ (true, s)
  unfolding result_is_terminal ended_in
  terminal_read id s free over = rw (get_free id s free) (ap (λ (b : Bool). (b, s)) over)

  both_deleted :
      (d : Drain) (id : Bytes) (env : Envelope p) (s : Store)
      → s.db.faults ≡ []
      → Views
          (λ j o. dropped d.global env.global_msg_id j (dropped d.src id j o))
          s.db.rows
          (rows_of (delete_both g d.src id d.global env.global_msg_id s.db))
  both_deleted d id env s free =
      let done = delete_both-free g p d.src id d.global env.global_msg_id s.db free in
      rw done (
        subst
          (Atomic
            (λ _.
              Views (λ j o. dropped d.global env.global_msg_id j (dropped d.src id j o)) s.db.rows)
            s.db.rows)
          done (delete_both-Atomic g d.src id d.global env.global_msg_id s.db))

  -- A job that has its result, and that no operator cancelled, is never placed again when its worker
  -- goes, in a database that refuses no statement: no result changes, its row in the worker's queue
  -- and the anchor that it names are dropped, and every other row stays as it was.
  pub ended_job_dropped :
      (d : Drain) (id : Bytes) (leased : Bool) (env : Envelope p) (s : Store)
      → s.db.faults ≡ []
      → has_ended (lookup env.request_id s.results) ≡ true
      → ((drain_envelope g p d id leased false env s).results ≡ s.results)
        × Views
            (λ j o. dropped d.global env.global_msg_id j (dropped d.src id j o))
            s.db.rows
            (drain_envelope g p d id leased false env s).db.rows
  unfolding drain_envelope settle drop_both lift
  ended_job_dropped d id leased env s free over =
      let r = delete_both g d.src id d.global env.global_msg_id s.db in
      rw
        (
          terminal_read env.request_id s free over,
          lifted_keeps s.results r,
          lifted_rows s.results r,
        )
        (refl, both_deleted d id env s free)
