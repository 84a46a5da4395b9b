-- ===== src/Scheduler/StreamBuffer/Pump.antt =====
-- `pump` of internal/scheduler/stream_buffer.go as a transition system: one consumer that runs
-- beside a producer, with `ctx.Done()` possible wherever the code selects on it.
pub mod Delivery
pub mod Outcome
use mass.Prelude.{ℕ, ◌+◌, ◌<◌, Bool, true, false, List, [], ◌∷◌, ◌++◌, some, ltb, if◌then◌else◌}
use mass.Prelude.Words.{two_63, two_64, add_64}
use mass.Scheduler.StreamBuffer.{
  JobChunk, SequencedChunk, JobBuffer, Turn, gap, batch, stream_buffer_max_bytes, new_job_buffer,
  chunk_size, append, pump_turn,
}

-- Where the goroutine stands: at the top of the loop; in the loop over `batch`, with the flag and
-- the channel of its snapshot; in the wait on that channel; about to send the gap; and after a
-- return, on the terminal frame, on the gap or on a cancelled context.
pub data Consumer : Type 0 where
  ready : Consumer
  sending : List SequencedChunk → Bool → ℕ → Consumer
  waiting : ℕ → Consumer
  gapped : SequencedChunk → Consumer
  finished gave_up cancelled : Consumer

-- `out` is what the consumer has sent so far. `log` and `seen` are history, which the code does not
-- keep: all that was appended, and what of it the last turn under the lock could see.
pub record Session : Type 0 where
  pub buf : JobBuffer
  pub cursor : ℕ
  pub consumer : Consumer
  pub out : List SequencedChunk
  pub log : List JobChunk
  pub seen : List JobChunk

unfoldable pub attach : ℕ → ℕ → Session
attach now resume_seq = record {
  buf = new_job_buffer now;
  cursor = resume_seq;
  consumer = ready;
  out = [];
  log = [];
  seen = [];
}

take_turn : Turn → Session → Session
take_turn (gap sc) s = record s { consumer = gapped sc; seen = s.log }
take_turn (batch scs terminal notify) s = record s {
  consumer = sending scs terminal notify;
  seen = s.log;
}

-- The next move of the goroutine, the context not being cancelled. A wait on a channel that is
-- still open stays as it is.
pub move : Consumer → Session → Session
unfolding take_turn
move ready s = take_turn (pump_turn s.cursor s.buf) s
move (sending (sc ∷ scs) terminal notify) s = record s {
  out = s.out ++ sc ∷ [];
  cursor = add_64 sc.seq 1;
  consumer = sending scs terminal notify;
}
move (sending [] true notify) s = record s { consumer = finished }
move (sending [] false notify) s = record s { consumer = waiting notify }
move (waiting notify) s = if ltb notify s.buf.notify then record s { consumer = ready } else s
move (gapped sc) s = record s { out = s.out ++ sc ∷ []; consumer = gave_up }
move finished s = s
move gave_up s = s
move cancelled s = s

unfoldable pub advance : Session → Session
unfolding move
advance s = move s.consumer s

-- The `select`s that also listen on `ctx.Done()`.
pub data IsSelecting : Consumer → Type 0 where
  on_send : (scs : List SequencedChunk) (t : Bool) (n : ℕ) → IsSelecting (sending scs t n)
  on_wait : (n : ℕ) → IsSelecting (waiting n)
  on_gap : (sc : SequencedChunk) → IsSelecting (gapped sc)

unfoldable pub produce : JobChunk → ℕ → Session → Session
produce c now s = record s { buf = (append (some c) now s.buf).1; log = s.log ++ c ∷ [] }

-- Sizes and sequence numbers stay within their machine words.
pub data Step (s : Session) : Session → Type 0 where
  produces :
      (c : JobChunk) (now : ℕ)
      → chunk_size c + stream_buffer_max_bytes < two_63
      → s.buf.next_seq + 1 < two_64
      → Step s (produce c now s)
  advances : Step s (advance s)
  cancels : IsSelecting s.consumer → Step s (record s { consumer = cancelled })

pub data Reach (s : Session) : Session → Type 0 where
  here : Reach s s
  next : {t u : Session} → Reach s t → Step t u → Reach s u
