-- ===== src/Scheduler/Retry.antt =====
-- internal/scheduler/scheduler.go, `retryAfterLoadFailure`: a job whose model a worker could not load
-- goes back to the global queue.
pub mod Attempts
pub mod Health
mod Tests
use mass.Prelude.{
  ℕ, ◌+◌, ◌%◌, Bool, true, false, [], ◌∷◌, Option, none, some, Bytes, leb, if◌then◌else◌,
}
use mass.Queue.Database.{Db, Result, ok, err, panicked, M, Goqite}
use mass.Queue.Envelope.{Proto, Envelope, is_empty}
use mass.Queue.Ops.{delete, delete_both, submit}

module _ (g : Goqite) (p : Proto) where
  -- The old row and its anchor, if it has one.
  delete_old : Bytes → Bytes → Bytes → Envelope p → M (Unit {0})
  delete_old queue id global env =
      if is_empty env.global_msg_id
      then delete g queue id
      else delete_both g queue id global env.global_msg_id

  -- `Attempts` is a uint8.
  abbrev pub next_try : Envelope p → Envelope p
  next_try env = record env {
    attempts = (env.attempts + 1) % 256;
    global_msg_id = [];
    queued_seconds = 0;
  }

  accepted : Result Bytes → Bool × Db
  accepted (ok _ db) = (true, db)
  accepted (err db) = (false, db)
  accepted (panicked db) = (false, db)

  replaced : Bytes → Envelope p → ℕ → Result (Unit {0}) → Bool × Db
  unfolding accepted
  replaced global env now (ok _ db) = accepted (submit g p global (next_try env) now db)
  replaced global env now (err db) = (false, db)
  replaced global env now (panicked db) = (false, db)

  try_again : Bytes → Bytes → Option Bytes → Envelope p → ℕ → Db → Bool × Db
  unfolding delete_old replaced
  try_again queue id none env now db = (false, db)
  try_again queue id (some global) env now db =
      replaced global env now (delete_old queue id global env db)

  -- Whether the retry was scheduled. `max_attempts` is `EffectiveLoadAttempts`; a queue subsystem that
  -- is not there has no global queue.
  unfoldable pub retry_after_load_failure :
      ℕ → Bytes → Bytes → Option Bytes → Envelope p → ℕ → Db → Bool × Db
  unfolding try_again
  retry_after_load_failure max_attempts queue id global env now db =
      if leb max_attempts (env.attempts + 1)
      then (false, db)
      else try_again queue id global env now db
