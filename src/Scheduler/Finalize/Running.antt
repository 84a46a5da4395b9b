-- ===== src/Scheduler/Finalize/Running.antt =====
-- Results of internal/queue/results.go that run or end, where the database refuses nothing.
use mass.Prelude.{
  ◌≡◌, refl, ap, ◌∙◌, Bool, true, false, [], Option, none, some, Bytes, inl, inr, ◌⊎◌, bytes_eq_iff,
  arith,
}
use mass.Prelude.Map.{lookup, lookup-insert}
use mass.Queue.Database.Rules.{statement_free}
use mass.Queue.Results.{
  ResultStatus, pending, processing, done, error, Stamp, ResultRow, ResultTable, Store, exec,
  lifted, update, update_row, fail, mark_processing, is_terminal, is_pending, is_processing, lift,
}
use mass.Queue.Results.Lifecycle.{after}
use mass.Queue.Sweeper.{has_ended}
use mass.Scheduler.Finalize.Order.{exec_free, update_ends}

abbrev pub is_running : Option ResultRow → Bool
is_running none = false
is_running (some r) = is_processing r.status

pending_or_processing :
    (status : ResultStatus)
    → is_terminal status ≡ false
    → (is_pending status ≡ true) ⊎ ((is_pending status ≡ false) × (is_processing status ≡ true))
pending_or_processing pending h = inl refl
pending_or_processing processing h = inr (refl, refl)
pending_or_processing done h = absurd (cc h)
pending_or_processing error h = absurd (cc h)

started_row :
    (id : Bytes) (t : ResultTable) (r : ResultRow)
    → is_terminal r.status ≡ false
    → lookup id t ≡ some r
    → is_running (
        lookup id (
          update_row id
            (λ r. is_pending r.status)
            (λ r. record r { status = processing })
            (lookup id t)
            t))
      ≡ true
unfolding update_row
started_row id t r live found = elim (pending_or_processing r.status live) [
  | inl waits ↦
      rw (found, waits)
        (ap is_running (lookup-insert id id (record r { status = processing }) t)
          ∙ ground (arith, bytes_eq_iff id id))
  | inr (waits_not, runs) ↦ rw (found, waits_not) (ap is_running found ∙ runs)
]

pub mark_running :
    (id : Bytes) (s : Store) (r : ResultRow)
    → s.db.faults ≡ []
    → is_terminal r.status ≡ false
    → lookup id s.results ≡ some r
    → is_running (lookup id (after (mark_processing id s)).results) ≡ true
unfolding mark_processing update
mark_running id s r free live found =
    rw
      (exec_free {A = Unit {0}}
        (λ t. (
          tt,
          update_row id (λ r. is_pending r.status) (λ r. record r { status = processing })
              (lookup id t) t,
        ))
        s free)
      (started_row id s.results r live found)

exec_health {ℓ} :
    {A : Type ℓ} (f : ResultTable → A × ResultTable) (s : Store)
    → s.db.faults ≡ []
    → (after (exec f s)).db.faults ≡ []
unfolding exec lift lifted
exec_health f s free = rw (statement_free {A = Unit {0}} (λ t. (tt, t)) s.db free, after) free

pub mark_processing-free :
    (id : Bytes) (s : Store) → s.db.faults ≡ [] → (after (mark_processing id s)).db.faults ≡ []
unfolding mark_processing update
mark_processing-free id s free = exec_health _ s free

pub running_row : (o : Option ResultRow) → is_running o ≡ true → (r : ResultRow) × (o ≡ some r)
running_row none h = absurd (cc h)
running_row (some r) h = (r, refl)

pub fail_ends :
    (id text : Bytes) (now : Stamp) (s : Store) (r : ResultRow)
    → s.db.faults ≡ []
    → lookup id s.results ≡ some r
    → has_ended (lookup id (after (fail id text now s)).results) ≡ true
unfolding fail
fail_ends id text now s r free found =
    update_ends id (λ r. record r { status = error; err_text = some text; completed_at = some now })
      s r (λ r. refl) free found
