-- ===== src/Scheduler/Redistribute/Rows.antt =====
-- What the calls that `drainWorkerQueue` of internal/scheduler/scheduler.go makes do to the rows of
-- the queues.
use mass.Prelude.{◌≡◌, refl, inl, inr, Bytes}
use mass.Queue.Database.{Result, ok, err, panicked}
use mass.Queue.Ops.Placing.{rows_of, Shrinks, OnlyPlaces}
use mass.Queue.Results.{
  ResultTable, Stamp, Store, lifted, get, exec, fail, mark_pending, mark_processing, update,
}
use mass.Queue.Results.Lifecycle.{after, exec-cases}
use mass.Queue.Table.{Row, Table}
use mass.Scheduler.Redistribute.{result_is_terminal}

pub lifted_rows {ℓ} :
    {A : Type ℓ} (t : ResultTable) (r : Result A) → (after (lifted t r)).db.rows ≡ rows_of r
unfolding lifted
lifted_rows t (ok a db) = refl
lifted_rows t (err db) = refl
lifted_rows t (panicked db) = refl

-- The methods of the result store leave the queues alone.
pub exec_rows {ℓ} :
    {A : Type ℓ} (f : ResultTable → A × ResultTable) (s : Store)
    → (after (exec f s)).db.rows ≡ s.db.rows
exec_rows f s =
    exec-cases (λ o. (after o).db.rows ≡ s.db.rows) f s (λ db same. same) (λ db same. same)

pub fail_rows :
    (id text : Bytes) (stamp : Stamp) (s : Store)
    → (after (fail id text stamp s)).db.rows ≡ s.db.rows
unfolding fail update
fail_rows id text stamp s = exec_rows _ s

pub mark_pending_rows : (id : Bytes) (s : Store) → (after (mark_pending id s)).db.rows ≡ s.db.rows
unfolding mark_pending update
mark_pending_rows id s = exec_rows _ s

pub mark_processing_rows :
    (id : Bytes) (s : Store) → (after (mark_processing id s)).db.rows ≡ s.db.rows
unfolding mark_processing update
mark_processing_rows id s = exec_rows _ s

pub result_is_terminal_rows :
    (id : Bytes) (s : Store) → (result_is_terminal id s).1.db.rows ≡ s.db.rows
unfolding result_is_terminal get
result_is_terminal_rows id s = exec_rows _ s

module _ (P : Row → Type 0) where
  pub Shrinks-places : (t u : Table) → Shrinks t u → OnlyPlaces P t u
  Shrinks-places t u h k row here = inl (h k row here)

  -- A step that adds no row, and then one that may.
  pub Shrinks-then : (t u v : Table) → Shrinks t u → OnlyPlaces P u v → OnlyPlaces P t v
  Shrinks-then t u v one two k row here = elim (two k row here) [
    | inl (old, there) ↦ inl (one k old there)
    | inr allowed ↦ inr allowed
  ]
