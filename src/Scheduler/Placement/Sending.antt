-- ===== src/Scheduler/Placement/Sending.antt =====
-- The `Submit` of a queue, as `Submit` of internal/scheduler/scheduler.go sees it: a new row, or none.
use mass.Prelude.{
  ℕ, ◌≡◌, refl, ap, ◌∙◌, inl, inr, Option, none, some, Bytes, bytes_eq, bytes_eq_iff, Bool-cases,
  arith,
}
use mass.Prelude.Map.{lookup}
use mass.Queue.Database.{Result, ok, err, panicked, Goqite}
use mass.Queue.Database.Rules.{Atomic}
use mass.Queue.Envelope.{Proto, Envelope, marshal}
use mass.Queue.Ops.Handover.{Sent}
use mass.Queue.Ops.Moves.{sent}
use mass.Queue.Results.{Store, Outcome, did, failed, crashed, lifted}
use mass.Queue.Table.{Row}

module _ (g : Goqite) (p : Proto) where
  abbrev pub SentBy : Bytes → Envelope p → Option Bytes → Store → Outcome Bytes → Type 0
  SentBy global env o s (did key u) =
      (u.results ≡ s.results)
      × ((body : Bytes) × (o ≡ some body)
          × (lookup key s.db.rows ≡ none)
          × ((row : Row) × (lookup key u.db.rows ≡ some row)
              × (row.queue ≡ global)
              × (row.body ≡ body))
          × ((k : Bytes) (row : Row)
              → lookup k s.db.rows ≡ some row
              → lookup k u.db.rows ≡ some row))
  SentBy global env o s (failed u) = (u.results ≡ s.results) × (u.db.rows ≡ s.db.rows)
  SentBy global env o s (crashed u) = (u.results ≡ s.results) × (u.db.rows ≡ s.db.rows)

  pub Sent-SentBy :
      (global : Bytes) (env : Envelope p) (now : ℕ) (s : Store) (r : Result Bytes)
      → Atomic (Sent g p global env now s.db.rows) s.db.rows r
      → SentBy global env (marshal p env) s (lifted s.results r)
  unfolding lifted
  Sent-SentBy global env now s (ok key db) (body, e, fresh, view) = (
    refl,
    (
      body,
      e,
      fresh,
      (
        sent global body env.priority now,
        view key ∙ ground (arith, bytes_eq_iff key key),
        refl,
        refl,
      ),
      older,
    ),
  )
    where
      older : (k : Bytes) (row : Row) → lookup k s.db.rows ≡ some row → lookup k db.rows ≡ some row
      older k row here = elim (Bool-cases (bytes_eq key k)) [
        | inl same ↦
            absurd (cc (fresh, here, ap (λ j. lookup j s.db.rows) ((bytes_eq_iff key k).0 same)))
        | inr other ↦ view k ∙ rw other here
      ]
  Sent-SentBy global env now s (err db) e = (refl, e)
  Sent-SentBy global env now s (panicked db) e = (refl, e)
