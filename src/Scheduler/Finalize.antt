-- ===== src/Scheduler/Finalize.antt =====
-- internal/scheduler/scheduler.go, `pumpWorkerChunks`: what the pump of one job does with the frames
-- of the worker's stream, and how it ends the job. The calls that change state stand as a list of
-- actions in the order of the code, so that a crash between any two of them is a prefix of the list.
pub mod Stream
pub mod Order
pub mod Running
pub mod Verdict
mod Tests
use mass.Prelude.{
  ℕ, ◌+◌, ◌≡◌, Bool, true, false, List, [], ◌∷◌, Option, none, some, Bytes, codes, if◌then◌else◌,
}
use mass.Queue.Database.{Goqite}
use mass.Queue.Envelope.{Proto, is_empty}
use mass.Queue.Results.{Stamp, Store, S, complete, fail}
use mass.Queue.Results.Lifecycle.{after}
use mass.Queue.Sweeper.{delete_message}
use mass.Scheduler.Inflight.{Float64, Ledger, finish_inflight, is_inflight_cancelled}
use mass.Scheduler.StreamBuffer.{
  ChunkType, chunk, progress, completed, error, JobChunk, JobBuffer, append,
}

-- The job that a pump ends: its request, its row and that row's anchor, and the queues of both. A
-- queue subsystem that is not there yet has no global queue.
pub record Job : Type 0 where
  pub request_id : Bytes
  pub queue : Bytes
  pub global : Option Bytes
  pub msg_id : Bytes
  pub global_msg_id : Bytes

-- The part of the scheduler that the pump works on.
pub record State (fl : Float64) : Type 0 where
  pub store : Store
  pub ledger : Ledger fl
  pub buf : JobBuffer
  pub kicks : ℕ

-- What the loop over the channel has kept.
pub record Frames : Type 0 where
  pub buf : JobBuffer
  pub final_body : Bytes
  pub err_text : Bytes
  pub terminal_chunk : Option JobChunk

take_frame : ChunkType → JobChunk → ℕ → Frames → Frames
take_frame completed c now f = record f { final_body = c.final; terminal_chunk = some c }
take_frame error c now f = record f { err_text = c.err_text; terminal_chunk = some c }
take_frame chunk c now f = record f { buf = (append (some c) now f.buf).1 }
take_frame progress c now f = record f { buf = (append (some c) now f.buf).1 }

-- The channel's frames, up to its close. `now` is the time of the append.
unfoldable pub collect : List (JobChunk × ℕ) → Frames → Frames
unfolding take_frame
collect [] f = f
collect ((c, now) ∷ rest) f = collect rest (take_frame c.kind c now f)

abbrev pub no_frames : JobBuffer → Frames
no_frames b = record { buf = b; final_body = []; err_text = []; terminal_chunk = none }

unfoldable pub cancelled_text : Bytes
cancelled_text = codes "cancelled by operator"

unfoldable pub closed_text : Bytes
closed_text = codes "worker stream closed before terminal frame"

pub data Action : Type 0 where
  act_finish act_kick act_drop_rows : Action
  act_fail act_complete : Bytes → Action
  act_publish : JobChunk → Action

-- &worker.JobChunk{Type: worker.JobChunkTypeError, ErrText: text}
abbrev pub error_chunk : Bytes → JobChunk
error_chunk text = record {
  kind = error;
  body = [];
  final = [];
  pct = 0;
  note = [];
  err_text = text;
}

-- The part behind the kick.
ending : Bool → Bool → Frames → Option JobChunk → List Action
ending was_cancelled online f (some c) =
    if is_empty f.err_text
    then act_complete f.final_body ∷ act_publish c ∷ act_drop_rows ∷ []
    else if was_cancelled
    then act_fail cancelled_text
      ∷ act_publish (record c { err_text = cancelled_text })
      ∷ act_drop_rows
      ∷ []
    else act_fail f.err_text ∷ act_publish c ∷ act_drop_rows ∷ []
ending was_cancelled online f none =
    if was_cancelled
    then act_fail cancelled_text ∷ act_publish (error_chunk cancelled_text) ∷ act_drop_rows ∷ []
    else if online
    then act_fail closed_text ∷ act_publish (error_chunk closed_text) ∷ act_drop_rows ∷ []
    else []

unfoldable pub pump_plan : Bool → Bool → Frames → List Action
unfolding ending
pump_plan was_cancelled online f =
    act_finish ∷ act_kick ∷ ending was_cancelled online f f.terminal_chunk

module _ (g : Goqite) (p : Proto) (fl : Float64) where
  unfoldable pub delete_both_rows : Job → Store → Store
  delete_both_rows job s =
      after (delete_message g p job.queue job.global job.msg_id job.global_msg_id s)

  unfoldable pub complete_result : Bytes → Bytes → Stamp → Store → Store
  complete_result request_id body now s = after (complete request_id body now s)

  unfoldable pub fail_result : Bytes → Bytes → Stamp → Store → Store
  fail_result request_id text now s = after (fail request_id text now s)

  unfoldable pub perform : Job → Stamp → ℕ → Action → State fl → State fl
  unfolding delete_both_rows complete_result fail_result
  perform job stamp now act_finish st = record st {
    ledger = finish_inflight fl job.request_id st.ledger;
  }
  perform job stamp now act_kick st = record st { kicks = st.kicks + 1 }
  perform job stamp now act_drop_rows st = record st { store = delete_both_rows job st.store }
  perform job stamp now (act_fail text) st = record st {
    store = fail_result job.request_id text stamp st.store;
  }
  perform job stamp now (act_complete body) st = record st {
    store = complete_result job.request_id body stamp st.store;
  }
  perform job stamp now (act_publish c) st = record st { buf = (append (some c) now st.buf).1 }

  unfoldable pub perform_all : Job → Stamp → ℕ → List Action → State fl → State fl
  unfolding perform
  perform_all job stamp now [] st = st
  perform_all job stamp now (a ∷ actions) st =
      perform_all job stamp now actions (perform job stamp now a st)

  unfoldable pub pump_worker_chunks :
      Job → Stamp → ℕ → List (JobChunk × ℕ) → Bool → State fl → State fl
  unfolding collect pump_plan perform_all
  pump_worker_chunks job stamp now chunks online st =
      let f = collect chunks (no_frames st.buf) in
      perform_all job stamp now
        (pump_plan (is_inflight_cancelled fl job.request_id st.ledger) online f)
        (record st { buf = f.buf })
