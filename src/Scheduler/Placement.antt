-- ===== src/Scheduler/Placement.antt =====
-- internal/scheduler/scheduler.go: `Submit`, and the way from the global queue to the queue of a
-- worker, `placeOnWorkerQueue`, `drainGlobal` and `failUnbenchable`. Logs, metrics and broadcasts are
-- left out, and the durable copy of the tails, which is not read here.
pub mod Kept
pub mod Passes
pub mod Rows
pub mod Sending
pub mod Submitted
mod Tests
use mass.Prelude.{
  ℕ, ◌+◌, Bool, true, false, not, ◌||◌, List, [], ◌∷◌, ◌++◌, Option, none, some, Bytes, codes,
  if◌then◌else◌, ltb, length,
}
use mass.Prelude.Map.{Map, lookup, insert, erase}
use mass.Queue.Database.{Goqite}
use mass.Queue.Envelope.{Proto, Envelope, is_empty, unmarshal_envelope}
use mass.Queue.Ops.{delete, lease_and_submit, peek, submit}
use mass.Queue.Results.{Stamp, Store, Outcome, did, failed, crashed, lift, create, fail}
use mass.Queue.Results.Lifecycle.{after}
use mass.Queue.Table.{Message}
use mass.Scheduler.Dispatch.{Dispatcher, TailState}
use mass.Scheduler.Finalize.{error_chunk}
use mass.Scheduler.Inflight.{Float64}
use mass.Scheduler.Scoring.{Arith, Fleet, Target, workers_for_runtime, pick_worker_queue}
use mass.Scheduler.StreamBuffer.{JobBuffer, new_job_buffer, append}
use mass.Worker.Status.{StreamWorker}

-- `cost` is a float64.
pub record SubmitRequest (p : Proto) : Type 0 where
  pub runtime_name : Bytes
  pub model_id : Bytes
  pub payload : Bytes
  pub cost : ℕ
  pub files : List (Proto.ModelFile p)
  pub load_hints : Bytes
  pub headroom_pct : ℕ
  pub source : Bytes
  pub priority : ℕ

pub data SubmitError : Type 0 where
  runtime_required invalid_cost no_worker not_initialised result_refused envelope_refused :
      SubmitError
  field_too_long : Bytes → SubmitError

pub data SubmitReply : Type 0 where
  accepted : Bytes → SubmitReply
  rejected : SubmitError → SubmitReply
  panics : SubmitReply

-- The global queue, none before `InitQueue`, with the results beside it; `lease` is
-- `anchorLeaseDuration`. `conclusion` is `modelBenchConclusion`.
pub record Desk (p : Proto) : Type 0 where
  pub global : Option Bytes
  pub lease : ℕ
  pub now : ℕ
  pub stamp : Stamp
  pub conclusion : Envelope p → Bool × Bytes

unfoldable pub source_of : (p : Proto) → SubmitRequest p → Bytes
source_of p req = if is_empty req.source then codes "gateway:" ++ req.runtime_name else req.source

too_long : Bytes → Bool
too_long s = ltb 255 (length s)

unfoldable pub envelope_of : (p : Proto) → SubmitRequest p → Bytes → Envelope p
unfolding source_of
envelope_of p req request_id = record {
  priority = req.priority;
  attempts = 0;
  cost = req.cost;
  queued_seconds = 0;
  runtime_name = req.runtime_name;
  model_id = req.model_id;
  source = source_of p req;
  request_id = request_id;
  global_msg_id = [];
  files = req.files;
  load_hints = req.load_hints;
  payload = req.payload;
  headroom_pct = req.headroom_pct;
}

module _ (g : Goqite) (p : Proto) (fl : Float64) (a : Arith fl) (fleet : Fleet fl p)
    (c : Desk p) where
  credit_found : Bytes → Target fl → Option (TailState fl) → Map (TailState fl) → Map (TailState fl)
  credit_found model_id t none m = m
  credit_found model_id t (some old) m =
      insert t.name
        (record {
          seconds =
              Arith.max_f a (Float64.zero_f fl) (Float64.add_f fl old.seconds t.queued_seconds);
          model_id = model_id;
        })
        m

  unfoldable pub credit_tail : Bytes → Target fl → Dispatcher fl → Dispatcher fl
  unfolding credit_found
  credit_tail model_id t st = record st {
    tails = credit_found model_id t (lookup t.name st.tails) st.tails;
  }

  after_handoff :
      Envelope p → Target fl → Outcome (Option Bytes) → Dispatcher fl → Bool × Dispatcher fl
  unfolding credit_tail
  after_handoff env t (did none s) st = (true, record st { store = s })
  after_handoff env t (did (some key) s) st =
      (true, credit_tail env.model_id t (record st { store = s }))
  after_handoff env t (failed s) st = (true, record st { store = s })
  after_handoff env t (crashed s) st = (false, record st { store = s })

  -- The handoff to the target's queue; false is a panic.
  unfoldable pub hand_off : Bytes → Envelope p → Target fl → Dispatcher fl → Bool × Dispatcher fl
  unfolding after_handoff
  hand_off global env t st =
      let env = record env { queued_seconds = Arith.to_bits a t.queued_seconds } in
      after_handoff env t
        (lift (lease_and_submit g p global env.global_msg_id c.lease t.name env c.now) st.store) st

  placed_on : Bytes → Envelope p → Option (Target fl) → Dispatcher fl → Bool × Dispatcher fl
  unfolding hand_off
  placed_on global env none st = (true, st)
  placed_on global env (some t) st = hand_off global env t st

  unfoldable pub place_on_worker_queue : Bytes → Envelope p → Dispatcher fl → Bool × Dispatcher fl
  unfolding placed_on
  place_on_worker_queue global env st =
      placed_on global env (pick_worker_queue fl p a fleet env st.ledger st.tails) st

  unfoldable pub drop_job : Bytes → Dispatcher fl → Dispatcher fl
  drop_job request_id st = record st { buffers = erase request_id st.buffers }

  abbrev none_serve : List StreamWorker → Bool
  none_serve [] = true
  none_serve (w ∷ ws) = false

  -- The checks before anything is written.
  unfoldable pub reject_reason : SubmitRequest p → Option SubmitError
  unfolding source_of too_long
  reject_reason req =
      if is_empty req.runtime_name
      then some runtime_required
      else if Arith.le_f a (Arith.from_bits a req.cost) (Float64.zero_f fl)
      then some invalid_cost
      else if too_long req.runtime_name
      then some (field_too_long (codes "runtime_name"))
      else if too_long req.model_id
      then some (field_too_long (codes "model_id"))
      else if too_long (source_of p req)
      then some (field_too_long (codes "source"))
      else if none_serve (workers_for_runtime fl p a fleet req.runtime_name)
      then some no_worker
      else none

  -- `kick` comes last.
  after_placing : Bytes → Bool × Dispatcher fl → SubmitReply × Dispatcher fl
  after_placing request_id (true, st) = (accepted request_id, record st { kicks = st.kicks + 1 })
  after_placing request_id (false, st) = (panics, st)

  after_submit : Bytes → Envelope p → Outcome Bytes → Dispatcher fl → SubmitReply × Dispatcher fl
  unfolding after_placing place_on_worker_queue drop_job
  after_submit global env (did key s) st =
      after_placing env.request_id (
        place_on_worker_queue global (record env { global_msg_id = key }) (record st { store = s }))
  after_submit global env (failed s) st =
      (rejected envelope_refused, drop_job env.request_id (record st { store = s }))
  after_submit global env (crashed s) st = (panics, record st { store = s })

  after_create :
      Bytes → Envelope p → Outcome (Unit {0}) → Dispatcher fl → SubmitReply × Dispatcher fl
  unfolding after_submit drop_job
  after_create global env (did _ s) st =
      after_submit global env (lift (submit g p global env c.now) s) (record st { store = s })
  after_create global env (failed s) st =
      (rejected result_refused, drop_job env.request_id (record st { store = s }))
  after_create global env (crashed s) st = (panics, record st { store = s })

  checked :
      SubmitRequest p
      → Bytes
      → Option SubmitError
      → Option Bytes
      → Dispatcher fl
      → SubmitReply × Dispatcher fl
  unfolding after_create
  checked req request_id (some e) global st = (rejected e, st)
  checked req request_id none none st = (rejected not_initialised, st)
  checked req request_id none (some global) st =
      after_create global (envelope_of p req request_id) (create request_id c.stamp st.store)
        (record st { buffers = insert request_id (new_job_buffer c.now) st.buffers })

  -- `request_id` is `uuid.NewString()`.
  unfoldable pub submit_job : SubmitRequest p → Bytes → Dispatcher fl → SubmitReply × Dispatcher fl
  unfolding checked reject_reason
  submit_job req request_id st = checked req request_id (reject_reason req) c.global st

  buffer_or_new : Option JobBuffer → JobBuffer
  buffer_or_new none = new_job_buffer c.now
  buffer_or_new (some buf) = buf

  abbrev reason_or_default : Bytes → Bytes
  reason_or_default text = if is_empty text then codes "no worker can run this model" else text

  unfoldable pub fail_unbenchable :
      Bytes → Bytes → Envelope p → Bytes → Dispatcher fl → Dispatcher fl
  unfolding buffer_or_new
  fail_unbenchable global id env reason st =
      let text =
        codes "model benchmark failed on every eligible worker: " ++ reason_or_default reason in
      let store = after (fail env.request_id text c.stamp st.store) in
      record st {
        store = after (lift (delete g global id) store);
        buffers =
            insert env.request_id
              (append (some (error_chunk text)) c.now
                (buffer_or_new (lookup env.request_id st.buffers))).1
              st.buffers;
      }

  -- What one row of the pass gives: whether the pass goes on, whether it leaves a row, the state.
  pub record RowTurn : Type 0 where
    pub goes_on : Bool
    pub pending : Bool
    pub state : Dispatcher fl

  concluded : Bytes → Bytes → Envelope p → Bool × Bytes → Dispatcher fl → RowTurn
  unfolding fail_unbenchable
  concluded global id env (true, reason) st = record { goes_on = true; pending = true; state = st }
  concluded global id env (false, reason) st = record {
    goes_on = true;
    pending = false;
    state = fail_unbenchable global id env reason st;
  }

  targeted : Bytes → Bytes → Envelope p → Option (Target fl) → Dispatcher fl → RowTurn
  unfolding concluded hand_off
  targeted global id env none st = concluded global id env (Desk.conclusion c env) st
  targeted global id env (some t) st =
      let done = hand_off global env t st in
      record { goes_on = done.0; pending = false; state = done.1 }

  read_row : Bytes → Bytes → Option (Envelope p) → Dispatcher fl → RowTurn
  unfolding targeted
  read_row global id none st = record { goes_on = true; pending = false; state = st }
  read_row global id (some env) st =
      let env = record env { global_msg_id = id } in
      targeted global id env (pick_worker_queue fl p a fleet env st.ledger st.tails) st

  unfoldable pub place_row : Bytes → Message → Dispatcher fl → RowTurn
  unfolding read_row
  place_row global msg st = read_row global msg.id (unmarshal_envelope p msg.body) st

  unfoldable pub place_rows : Bytes → List Message → Bool → Dispatcher fl → Bool × Dispatcher fl
  unfolding place_row
  place_rows global [] pending st = (pending, st)
  place_rows global (msg ∷ msgs) pending st =
      let turn = place_row global msg st in
      let rest = place_rows global msgs (pending || turn.pending) turn.state in
      if turn.goes_on then rest else (pending, turn.state)

  place_peeked : Bytes → Outcome (List Message) → Dispatcher fl → Bool × Dispatcher fl
  unfolding place_rows
  place_peeked global (did msgs s) st = place_rows global msgs false (record st { store = s })
  place_peeked global (failed s) st = (false, record st { store = s })
  place_peeked global (crashed s) st = (false, record st { store = s })

  from_global : Option Bytes → Dispatcher fl → Bool × Dispatcher fl
  unfolding place_peeked
  from_global none st = (false, st)
  from_global (some global) st = place_peeked global (lift (peek global 32 c.now) st.store) st

  -- Whether a row is left that no worker may take yet.
  unfoldable pub drain_global : Dispatcher fl → Bool × Dispatcher fl
  unfolding from_global
  drain_global st = from_global c.global st
