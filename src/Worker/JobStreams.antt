-- ===== src/Worker/JobStreams.antt =====
-- internal/worker/stream_worker.go: the channels on which a worker's frames come back, and the map
-- `jobs` that finds them. Each function is one critical section under `pendingMu`.
pub mod Delivery
mod Tests
use mass.Prelude.{
  ◌≡◌, Bool, true, false, List, [], ◌∷◌, ◌++◌, Option, none, some, Bytes, if◌then◌else◌,
}
use mass.Prelude.Map.{Map, lookup, insert, erase}
use mass.Scheduler.StreamBuffer.{JobChunk, is_terminal}

-- A channel: what was sent on it, and whether it is closed.
pub record Channel : Type 0 where
  pub sent : List JobChunk
  pub closed : Bool

-- A channel is named by the job ID for which `AssignJob` made it, a fresh UUID; `jobs` maps job IDs to
-- channels. A send on a closed channel, or a second close, panics.
pub record Jobs : Type 0 where
  pub jobs : Map Bytes
  pub channels : Map Channel
  pub panicked : Bool

abbrev pub no_jobs : Jobs
no_jobs = record { jobs = []; channels = []; panicked = false }

-- `AssignJob` up to the send to the worker.
unfoldable pub register : Bytes → Jobs → Jobs
register job_id w = record w {
  jobs = insert job_id job_id w.jobs;
  channels = insert job_id (record { sent = []; closed = false }) w.channels;
}

-- `AssignJob`, when that send fails.
unfoldable pub unregister : Bytes → Jobs → Jobs
unregister job_id w = record w { jobs = erase job_id w.jobs }

send_to : Bytes → JobChunk → Option Channel → Jobs → Jobs
send_to ch c none w = record w { panicked = true }
send_to ch c (some channel) w = if channel.closed then record w { panicked = true } else record w {
  channels = insert ch (record channel { sent = channel.sent ++ c ∷ [] }) w.channels;
}

unfoldable pub send_on : Bytes → JobChunk → Jobs → Jobs
unfolding send_to
send_on ch c w = send_to ch c (lookup ch w.channels) w

shut : Bytes → Option Channel → Jobs → Jobs
shut ch none w = record w { panicked = true }
shut ch (some channel) w =
    if channel.closed
    then record w { panicked = true }
    else record w { channels = insert ch (record channel { closed = true }) w.channels }

unfoldable pub close_on : Bytes → Jobs → Jobs
unfolding shut
close_on ch w = shut ch (lookup ch w.channels) w

deliver_to : Bytes → JobChunk → Option Bytes → Jobs → Jobs
unfolding send_on close_on
deliver_to job_id c none w = w
deliver_to job_id c (some ch) w =
    if is_terminal c.kind
    then close_on ch (send_on ch c (record w { jobs = erase job_id w.jobs }))
    else send_on ch c w

unfoldable pub deliver_job_chunk : Bytes → JobChunk → Jobs → Jobs
unfolding deliver_to
deliver_job_chunk job_id c w = deliver_to job_id c (lookup job_id w.jobs) w

-- The loop of `SetOffline` over `jobs`; each entry is deleted once its channel is closed.
close_all : Map Bytes → Jobs → Jobs
unfolding close_on
close_all [] w = w
close_all ((job_id, ch) ∷ rest) w =
    close_all rest (let w = close_on ch w in record w { jobs = erase job_id w.jobs })

unfoldable pub set_offline : Jobs → Jobs
unfolding close_all
set_offline w = close_all w.jobs w

pub data Step (w : Jobs) : Jobs → Type 0 where
  assigns : (job_id : Bytes) → lookup job_id w.channels ≡ none → Step w (register job_id w)
  gives_up : (job_id : Bytes) → Step w (unregister job_id w)
  delivers : (job_id : Bytes) (c : JobChunk) → Step w (deliver_job_chunk job_id c w)
  goes_offline : Step w (set_offline w)

pub data Reach (w : Jobs) : Jobs → Type 0 where
  here : Reach w w
  next : {u v : Jobs} → Reach w u → Step u v → Reach w v
