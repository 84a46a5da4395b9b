-- ===== src/Scheduler/Retry/Attempts.antt =====
-- The attempts of `retryAfterLoadFailure` in internal/scheduler/scheduler.go.
use mass.Prelude.{
  ℕ, ◌+◌, ◌<◌, ◌≡◌, refl, sym, ap, ◌∙◌, Bool, true, false, ◌⊎◌, inl, inr, Option, none, some, Bytes,
  ◌%◌, [], bytes_eq, if◌then◌else◌, leb, Bool-cases, arith,
}
use mass.Prelude.Map.{lookup}
use mass.Queue.Database.{Db, Result, ok, err, panicked, Goqite}
use mass.Queue.Database.Rules.{Atomic}
use mass.Queue.Envelope.{marshal, Proto, Envelope, is_empty}
use mass.Queue.Ops.{delete, delete_both, submit}
use mass.Queue.Ops.Handover.{Views, Sent, submit-Sent, dropped, delete-Atomic, delete_both-Atomic}
use mass.Queue.Table.{Row, Table}
use mass.Scheduler.Retry.{
  delete_old, next_try, accepted, replaced, try_again, retry_after_load_failure,
}

-- The old row, and its anchor if it names one, under their deletion.
abbrev removed_both : Bool → Bytes → Bytes → Bytes → Bytes → Bytes → Option Row → Option Row
removed_both true queue id global anchor_id j o = dropped queue id j o
removed_both false queue id global anchor_id j o = dropped global anchor_id j (dropped queue id j o)

abbrev pub removed :
    (p : Proto) → Bytes → Bytes → Bytes → Envelope p → Bytes → Option Row → Option Row
removed p queue id global env =
    removed_both (is_empty env.global_msg_id) queue id global env.global_msg_id

module _ (g : Goqite) (p : Proto) where
  -- The one new row, on the global queue under a fresh key, carries the envelope with one attempt
  -- more, with no anchor and no seconds; of the old rows the job's are removed, and no other is touched.
  abbrev pub IsReplaced : Bytes → Bytes → Bytes → Envelope p → ℕ → Table → Table → Type 0
  IsReplaced queue id global env now before u =
      (key body : Bytes) × (marshal p (record env {
        attempts = (env.attempts + 1) % 256;
        global_msg_id = [];
        queued_seconds = 0;
      })
        ≡ some body)
      × (removed p queue id global env key (lookup key before) ≡ none)
      × ((j : Bytes)
          → lookup j u ≡ (
              if bytes_eq key j
              then some (record {
                queue = global;
                body = body;
                priority = env.priority;
                created = now;
                timeout = now;
                received = 0;
              })
              else removed p queue id global env j (lookup j before)))

  -- Scheduled, within the budget, or not: then no row is new, and the job's rows are removed at most.
  abbrev pub Retried :
      ℕ → Bytes → Bytes → Option Bytes → Envelope p → ℕ → Table → Bool × Db → Type 0
  Retried max_attempts queue id global env now before (true, db) =
      (env.attempts + 1 < max_attempts)
      × ((q : Bytes) × (global ≡ some q) × IsReplaced queue id q env now before db.rows)
  Retried max_attempts queue id global env now before (false, db) =
      (db.rows ≡ before)
      ⊎ ((q : Bytes) × (global ≡ some q) × Views (removed p queue id q env) before db.rows)

  accepted-Retried :
      (max_attempts : ℕ) (queue id q : Bytes) (env : Envelope p) (now : ℕ) (before middle : Table)
      (r : Result Bytes)
      → env.attempts + 1 < max_attempts
      → Views (removed p queue id q env) before middle
      → Atomic (Sent g p q (next_try g p env) now middle) middle r
      → Retried max_attempts queue id (some q) env now before (accepted g p r)
  unfolding accepted
  accepted-Retried max_attempts queue id q env now before middle (ok key db) left gone
        (body, e, fresh, view) =
      (left, (q, refl, (key, body, e, sym (gone key) ∙ fresh, λ j. view j ∙ rw (gone j) refl)))
  accepted-Retried max_attempts queue id q env now before middle (err db) left gone e =
      inr (q, refl, λ j. ap (lookup j) e ∙ gone j)
  accepted-Retried max_attempts queue id q env now before middle (panicked db) left gone e =
      inr (q, refl, λ j. ap (lookup j) e ∙ gone j)

  replaced-Retried :
      (max_attempts : ℕ) (queue id q : Bytes) (env : Envelope p) (now : ℕ) (before : Table)
      (r : Result (Unit {0}))
      → env.attempts + 1 < max_attempts
      → Atomic (λ _. Views (removed p queue id q env) before) before r
      → Retried max_attempts queue id (some q) env now before (replaced g p q env now r)
  unfolding replaced
  replaced-Retried max_attempts queue id q env now before (ok _ db) left gone =
      accepted-Retried max_attempts queue id q env now before db.rows
        (submit g p q (next_try g p env) now db) left gone
        (submit-Sent g p q (next_try g p env) now db)
  replaced-Retried max_attempts queue id q env now before (err db) left e = inl e
  replaced-Retried max_attempts queue id q env now before (panicked db) left e = inl e

  delete_chosen-Atomic :
      (alone : Bool) (queue id global anchor_id : Bytes) (db : Db)
      → Atomic
          (λ _. Views (removed_both alone queue id global anchor_id) db.rows)
          db.rows
          ((if alone then delete g queue id else delete_both g queue id global anchor_id) db)
  delete_chosen-Atomic true queue id global anchor_id db = delete-Atomic g queue id db
  delete_chosen-Atomic false queue id global anchor_id db =
      delete_both-Atomic g queue id global anchor_id db

  delete_old-Atomic :
      (queue id q : Bytes) (env : Envelope p) (db : Db)
      → Atomic
          (λ _. Views (removed p queue id q env) db.rows)
          db.rows
          (delete_old g p queue id q env db)
  unfolding delete_old
  delete_old-Atomic queue id q env db =
      delete_chosen-Atomic (is_empty env.global_msg_id) queue id q env.global_msg_id db

  try_again-Retried :
      (max_attempts : ℕ) (queue id : Bytes) (global : Option Bytes) (env : Envelope p) (now : ℕ)
      (db : Db)
      → env.attempts + 1 < max_attempts
      → Retried max_attempts queue id global env now db.rows
          (try_again g p queue id global env now db)
  unfolding try_again
  try_again-Retried max_attempts queue id none env now db left = inl refl
  try_again-Retried max_attempts queue id (some q) env now db left =
      replaced-Retried max_attempts queue id q env now db.rows (delete_old g p queue id q env db)
        left (delete_old-Atomic queue id q env db)

  -- A load failure schedules a retry only within the attempt budget, and then the old row and the
  -- anchor that it names are gone, and one new row stands on the global queue, free for a lease: it
  -- carries the envelope with one attempt more (a uint8), without an anchor and without seconds. When
  -- no retry is scheduled, whatever failed, no row is new, and the job's two rows are removed at most.
  -- In both cases no other row is touched.
  pub retry-Retried :
      (max_attempts : ℕ) (queue id : Bytes) (global : Option Bytes) (env : Envelope p) (now : ℕ)
      (db : Db)
      → Retried max_attempts queue id global env now db.rows
          (retry_after_load_failure g p max_attempts queue id global env now db)
  unfolding retry_after_load_failure
  retry-Retried max_attempts queue id global env now db =
      elim (Bool-cases (leb max_attempts (env.attempts + 1))) [
        | inl spent ↦ rw (spent, retry_after_load_failure) (inl refl)
        | inr left ↦
            rw (left, retry_after_load_failure)
              (try_again-Retried max_attempts queue id global env now db (ground (arith, left)))
      ]
