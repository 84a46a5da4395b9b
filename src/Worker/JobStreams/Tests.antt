-- ===== src/Worker/JobStreams/Tests.antt =====
-- Runs of the job channels of internal/worker/stream_worker.go.
use mass.Prelude.{◌≡◌, refl, true, false, [], ◌∷◌, bytes_eq, codes}
use mass.Prelude.Map.{lookup, insert, erase}
use mass.Scheduler.StreamBuffer.{JobChunk, chunk, completed}
use mass.Worker.JobStreams.{
  Jobs, no_jobs, register, deliver_job_chunk, send_on, close_on, set_offline, here, next, assigns,
  delivers, goes_offline,
}
use mass.Worker.JobStreams.Delivery.{never_panics}

abbrev token : JobChunk
token = record { kind = chunk; body = codes "hi"; final = []; pct = 0; note = []; err_text = [] }

abbrev last : JobChunk
last = record { kind = completed; body = []; final = codes "ok"; pct = 0; note = []; err_text = [] }

abbrev assigned : Jobs
assigned = register (codes "a") no_jobs

abbrev ended : Jobs
ended = deliver_job_chunk (codes "a") last (deliver_job_chunk (codes "a") token assigned)

-- A frame behind the last one finds no channel, and a disconnect has none to close.
late_frame : set_offline (deliver_job_chunk (codes "a") token ended) ≡ record {
  jobs = [];
  channels = (codes "a", record { sent = token ∷ last ∷ []; closed = true }) ∷ [];
  panicked = false;
}
unfolding set_offline deliver_job_chunk register send_on close_on lookup insert erase bytes_eq
late_frame = refl

never_panics_example : (set_offline ended).panicked ≡ false
unfolding lookup
never_panics_example = never_panics (
    next
      (next (next (next here (assigns (codes "a") refl)) (delivers (codes "a") token))
        (delivers (codes "a") last))
      goes_offline)
