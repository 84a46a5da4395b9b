-- ===== src/Scheduler/Retry/Health.antt =====
-- Where the database refuses no statement, `retryAfterLoadFailure` of internal/scheduler/scheduler.go
-- leaves it that way.
use mass.Prelude.{ℕ, ◌+◌, ◌≡◌, Option, none, some, Bytes, leb, Bool-cases, inl, inr, []}
use mass.Queue.Database.{Db, Result, ok, err, panicked, Goqite}
use mass.Queue.Envelope.{Proto, Envelope, is_empty}
use mass.Queue.Ops.{submit}
use mass.Queue.Ops.Health.{IsFree, database_of, delete-IsFree, delete_both-IsFree, submit-IsFree}
use mass.Scheduler.Retry.{
  delete_old, next_try, accepted, replaced, try_again, retry_after_load_failure,
}

module _ (g : Goqite) (p : Proto) where
  delete_old-IsFree :
      (queue id global : Bytes) (env : Envelope p) (db : Db)
      → IsFree db
      → IsFree (database_of (delete_old g p queue id global env db))
  unfolding delete_old
  delete_old-IsFree queue id global env db free = elim (Bool-cases (is_empty env.global_msg_id)) [
    | inl alone ↦ rw (alone, delete_old) (delete-IsFree g p queue id db free)
    | inr anchored ↦
        rw (anchored, delete_old) (delete_both-IsFree g p queue id global env.global_msg_id db free)
  ]

  accepted-IsFree : (r : Result Bytes) → IsFree (database_of r) → IsFree (accepted g p r).1
  unfolding accepted
  accepted-IsFree (ok _ db) free = free
  accepted-IsFree (err db) free = free
  accepted-IsFree (panicked db) free = free

  replaced-IsFree :
      (global : Bytes) (env : Envelope p) (now : ℕ) (r : Result (Unit {0}))
      → IsFree (database_of r)
      → IsFree (replaced g p global env now r).1
  unfolding replaced
  replaced-IsFree global env now (ok _ db) free =
      accepted-IsFree (submit g p global (next_try g p env) now db)
        (submit-IsFree g p global (next_try g p env) now db free)
  replaced-IsFree global env now (err db) free = free
  replaced-IsFree global env now (panicked db) free = free

  try_again-IsFree :
      (queue id : Bytes) (global : Option Bytes) (env : Envelope p) (now : ℕ) (db : Db)
      → IsFree db
      → IsFree (try_again g p queue id global env now db).1
  unfolding try_again
  try_again-IsFree queue id none env now db free = free
  try_again-IsFree queue id (some q) env now db free =
      replaced-IsFree q env now (delete_old g p queue id q env db)
        (delete_old-IsFree queue id q env db free)

  pub retry-IsFree :
      (max_attempts : ℕ) (queue id : Bytes) (global : Option Bytes) (env : Envelope p) (now : ℕ)
      (db : Db)
      → db.faults ≡ []
      → (retry_after_load_failure g p max_attempts queue id global env now db).1.faults ≡ []
  unfolding retry_after_load_failure
  retry-IsFree max_attempts queue id global env now db free =
      elim (Bool-cases (leb max_attempts (env.attempts + 1))) [
        | inl spent ↦ rw (spent, retry_after_load_failure) free
        | inr left ↦
            rw (left, retry_after_load_failure) (try_again-IsFree queue id global env now db free)
      ]
