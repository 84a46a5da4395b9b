-- ===== src/Scheduler/Redistribute.antt =====
-- internal/scheduler/scheduler.go, `drainWorkerQueue`: what becomes of the jobs on the queue of a
-- worker that has gone.
pub mod Rows
pub mod Settled
mod Tests
use mass.Prelude.{
  ℕ, ◌+◌, ◌%◌, ◌/◌, Bool, true, false, not, ◌&&◌, List, [], ◌∷◌, ◌++◌, Option, none, some, Bytes,
  codes, ltb, leb, if◌then◌else◌,
}
use mass.Queue.Database.{Goqite}
use mass.Queue.Envelope.{Proto, Envelope, unmarshal_envelope}
use mass.Queue.Ops.{delete_both, delete_and_release_lease, submit, peek_all}
use mass.Queue.Results.{
  ResultRow, Stamp, Store, Outcome, did, failed, crashed, lift, get, fail, mark_pending,
}
use mass.Queue.Results.Lifecycle.{after}
use mass.Queue.Sweeper.{has_ended}
use mass.Queue.Table.{Message, PeekRow}
use mass.Scheduler.Inflight.{Float64, Ledger, is_inflight_cancelled}

abbrev pub disconnect_requeue_budget : ℕ
disconnect_requeue_budget = 3

-- %d, of a number below 1000
abbrev pub decimal : ℕ → Bytes
decimal n =
    if ltb n 10
    then (48 + n) ∷ []
    else if ltb n 100
    then (48 + n / 10) ∷ (48 + n % 10) ∷ []
    else (48 + n / 100) ∷ (48 + n / 10 % 10) ∷ (48 + n % 10) ∷ []

-- "worker disconnected while the job was running (attempt %d/%d)"
unfoldable pub disconnected_text : ℕ → Bytes
disconnected_text attempt =
    codes "worker disconnected while the job was running (attempt "
    ++ (decimal attempt ++ (codes "/" ++ (decimal disconnect_requeue_budget ++ codes ")")))

-- The queues of the drain, the clock, and the text of the error that `Submit` returns, if it does.
pub record Drain : Type 0 where
  pub src : Bytes
  pub global : Bytes
  pub now : ℕ
  pub stamp : Stamp
  pub submit_error : Bytes

ended_in : Outcome (Option ResultRow) → Bool
ended_in (did existing s) = has_ended existing
ended_in (failed s) = false
ended_in (crashed s) = false

-- An error of `Get` reads as a result that has not ended.
unfoldable pub result_is_terminal : Bytes → Store → Bool × Store
unfolding ended_in
result_is_terminal request_id s = (ended_in (get request_id s), after (get request_id s))

module _ (g : Goqite) (p : Proto) where
  -- Errors of the queue are logged and skipped.
  drop_both : Drain → Bytes → Envelope p → Store → Store
  drop_both d id env s = after (lift (delete_both g d.src id d.global env.global_msg_id) s)

  resubmitted : Drain → Envelope p → Outcome Bytes → Store
  resubmitted d env (did _ s) = after (mark_pending env.request_id s)
  resubmitted d env (failed s) = after (
      fail env.request_id (codes "requeue after worker disconnect failed: " ++ d.submit_error)
        d.stamp s)
  resubmitted d env (crashed s) = s

  -- The envelope of the next attempt; `Attempts` is a uint8.
  abbrev pub next_attempt : Envelope p → Envelope p
  next_attempt env = record env {
    attempts = (env.attempts + 1) % 256;
    global_msg_id = [];
    queued_seconds = 0;
  }

  requeued : Drain → Envelope p → Outcome (Unit {0}) → Store
  unfolding resubmitted
  requeued d env (did _ s) =
      resubmitted d env (lift (submit g p d.global (next_attempt env) d.now) s)
  requeued d env (failed s) = s
  requeued d env (crashed s) = s

  -- What the loop does for a row whose envelope it has read.
  pub drain_live : Drain → Bytes → Bool → Envelope p → Store → Store
  unfolding drop_both requeued
  drain_live d id leased env s =
      if not leased
      then after (lift (delete_and_release_lease g d.src id d.global env.global_msg_id d.now) s)
      else if leb disconnect_requeue_budget (env.attempts + 1)
      then drop_both d id env
          (after (fail env.request_id (disconnected_text ((env.attempts + 1) % 256)) d.stamp s))
      else requeued d env (lift (delete_both g d.src id d.global env.global_msg_id) s)

  settle : Drain → Bytes → Bool → Envelope p → Bool × Store → Store
  unfolding drop_both drain_live
  settle d id leased env (true, s) = drop_both d id env s
  settle d id leased env (false, s) = drain_live d id leased env s

  unfoldable pub drain_envelope : Drain → Bytes → Bool → Bool → Envelope p → Store → Store
  unfolding drop_both settle
  drain_envelope d id leased is_cancelled env s =
      if is_cancelled
      then drop_both d id env
          (after (fail env.request_id (codes "cancelled by operator") d.stamp s))
      else settle d id leased env (result_is_terminal env.request_id s)

  drain_decoded :
      (fl : Float64) → Drain → Bytes → Bool → Ledger fl → Option (Envelope p) → Store → Store
  drain_decoded fl d id leased l none s = s
  drain_decoded fl d id leased l (some env) s =
      drain_envelope d id leased (is_inflight_cancelled fl env.request_id l) env s

  unfoldable pub drain_row : (fl : Float64) → Drain → Bool → Ledger fl → PeekRow → Store → Store
  unfolding drain_decoded
  drain_row fl d include_leased l row s =
      if row.leased && not include_leased
      then s
      else drain_decoded fl d row.message.id row.leased l (unmarshal_envelope p row.message.body) s

  unfoldable pub drain_rows :
      (fl : Float64) → Drain → Bool → Ledger fl → List PeekRow → Store → Store
  unfolding drain_row
  drain_rows fl d include_leased l [] s = s
  drain_rows fl d include_leased l (row ∷ rows) s =
      drain_rows fl d include_leased l rows (drain_row fl d include_leased l row s)

  drained : (fl : Float64) → Drain → Bool → Ledger fl → Outcome (List PeekRow) → Store
  drained fl d include_leased l (did rows s) = drain_rows fl d include_leased l rows s
  drained fl d include_leased l (failed s) = s
  drained fl d include_leased l (crashed s) = s

  -- `limit` is `peekAllLimit`.
  unfoldable pub drain_worker_queue : (fl : Float64) → Drain → ℕ → Bool → Ledger fl → Store → Store
  unfolding drained
  drain_worker_queue fl d limit include_leased l s =
      drained fl d include_leased l (lift (peek_all d.src limit d.now) s)
