-- ===== src/Scheduler/Finalize/Verdict.antt =====
-- The result that `pumpWorkerChunks` of internal/scheduler/scheduler.go records for a stream that
-- ended with a terminal frame.
use mass.Prelude.{Bool, some, Bytes, if◌then◌else◌}
use mass.Queue.Envelope.{is_empty}
use mass.Queue.Results.{Stamp, ResultRow, done, error}
use mass.Scheduler.Finalize.{cancelled_text}

-- A terminal frame's texts, as the row says them. An error frame without a text counts as done.
abbrev pub verdict : Bool → Stamp → Bytes → Bytes → ResultRow → ResultRow
verdict was_cancelled stamp text body r =
    if is_empty text
    then record r { status = done; body = body; completed_at = some stamp }
    else record r {
      status = error;
      err_text = some (if was_cancelled then cancelled_text else text);
      completed_at = some stamp;
    }
