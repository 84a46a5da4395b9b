-- ===== src/Scheduler/StreamBuffer/Tests.antt =====
-- Runs of the replay buffer of internal/scheduler/stream_buffer.go on small inputs.
use mass.Prelude.{
  ℕ, ◌+◌, ◌≡◌, refl, true, false, List, [], ◌∷◌, ◌++◌, some, length, replicate, length-replicate,
  arith, codes,
}
use mass.Scheduler.StreamBuffer.{
  JobChunk, chunk, completed, new_job_buffer, chunk_size, append, pump_turn, gap, gap_chunk,
  terminal_reached,
}
use mass.Scheduler.StreamBuffer.Log.{has_terminal, Holds, new_job_buffer-Holds, append-Holds}
use mass.Scheduler.StreamBuffer.Pump.{
  Session, waiting, finished, attach, advance, produce, produces, advances, Reach, here, next,
}
use mass.Scheduler.StreamBuffer.Pump.Delivery.{from}
use mass.Scheduler.StreamBuffer.Pump.Outcome.{
  IsSent, Reach-IsSent, finished_complete, blocked_has_all, IsDone, pending, run, attached_ends,
  oversized_lost,
}

abbrev hello : JobChunk
hello = record { kind = chunk; body = codes "hello"; final = []; pct = 0; note = []; err_text = [] }

abbrev bye : JobChunk
bye = record { kind = completed; body = []; final = codes "bye"; pct = 0; note = []; err_text = [] }

abbrev streamed : Session
streamed = produce bye 9 (produce hello 5 (attach 0 1))

streamed-Reach : Reach (attach 0 1) streamed
unfolding produce attach append new_job_buffer chunk_size
streamed-Reach =
    next (next here (produces hello 5 (omega arith) (omega arith)))
      (produces bye 9 (omega arith) (omega arith))

abbrev ended : Session
ended = advance (advance (advance streamed))

ended-Reach : Reach (attach 0 1) ended
ended-Reach = next (next (next streamed-Reach advances) advances) advances

buffered_twice :
    (streamed.buf.next_seq ≡ 2)
    × (streamed.buf.bytes ≡ 8)
    × (terminal_reached streamed.buf ≡ (true, 9))
    × (length streamed.buf.chunks ≡ 2)
unfolding produce attach append new_job_buffer chunk_size terminal_reached
buffered_twice = (refl, refl, refl, refl)

Reach-IsSent_example : IsSent 1 ended
Reach-IsSent_example = Reach-IsSent 0 1 ended-Reach

ended_finished : ended.consumer ≡ finished
unfolding advance produce attach append new_job_buffer chunk_size pump_turn
ended_finished = refl

finished_complete_example :
    (seen later : List JobChunk) × (seen ++ later ≡ ended.log)
    × (has_terminal seen ≡ true)
    × (ended.out ≡ from 1 seen)
finished_complete_example = finished_complete 0 1 ended-Reach ended_finished

abbrev blocked : Session
blocked = advance (advance (attach 0 0))

blocked_waits : blocked.consumer ≡ waiting 0
unfolding advance attach new_job_buffer pump_turn
blocked_waits = refl

blocked_still : advance blocked ≡ blocked
unfolding advance attach new_job_buffer pump_turn
blocked_still = refl

blocked_has_all_example : (blocked.out ≡ from 0 blocked.log) × (has_terminal blocked.log ≡ false)
blocked_has_all_example =
    blocked_has_all 0 0 0 (next (next here advances) advances) blocked_waits blocked_still

streamed_terminal : has_terminal streamed.log ≡ true
unfolding produce attach
streamed_terminal = refl

attached_ends_example :
    IsDone (run (pending streamed.consumer + length streamed.log + 4) streamed).consumer
attached_ends_example = attached_ends 0 1 streamed-Reach streamed_terminal

append-Holds_example : Holds (hello ∷ []) (append (some hello) 5 (new_job_buffer 0)).1
unfolding chunk_size
append-Holds_example =
    append-Holds [] (new_job_buffer 0) hello 5 (new_job_buffer-Holds 0) (omega arith) (omega arith)

-- 10 MiB and one byte.
abbrev huge : JobChunk
huge = record {
  kind = completed;
  body = [];
  final = replicate 10485761 0;
  pct = 0;
  note = [];
  err_text = [];
}

huge_size : chunk_size huge ≡ 10485761
unfolding chunk_size
huge_size = omega (arith, length-replicate {A = ℕ} 10485761 0)

oversized_lost_example :
    ((append (some huge) 5 (new_job_buffer 0)).1.chunks ≡ [])
    × (pump_turn 0 (append (some huge) 5 (new_job_buffer 0)).1
        ≡ gap (record { seq = 0; chunk = gap_chunk }))
unfolding new_job_buffer
oversized_lost_example =
    oversized_lost [] (new_job_buffer 0) huge 5 0 (new_job_buffer-Holds 0)
      (omega (arith, huge_size)) (omega (arith, huge_size)) (omega arith) (omega arith)
