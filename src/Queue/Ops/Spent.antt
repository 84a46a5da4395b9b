-- ===== src/Queue/Ops/Spent.antt =====
-- A row that was delivered stays so under the calls of internal/queue/queue.go that spare it.
use mass.Prelude.{
  ℕ, ◌+◌, ◌≤◌, ◌≡◌, refl, sym, subst, ◌∙◌, Bool, true, false, Bool-cases, inl, inr, Option, none,
  some, Bytes, bytes_eq, bytes_eq_iff, arith,
}
use mass.Prelude.Map.{lookup}
use mass.Queue.Database.{Result, ok, err, panicked, Goqite}
use mass.Queue.Database.Rules.{Atomic}
use mass.Queue.Envelope.{Proto, Envelope}
use mass.Queue.Ops.{in_queue, reset_to}
use mass.Queue.Ops.Handover.{Sent, Submitted, Views, dropped}
use mass.Queue.Ops.Health.{database_of}
use mass.Queue.Ops.Leases.{Delivered}
use mass.Queue.Ops.Moves.{Moved}
use mass.Queue.Table.{Row, Table}
use mass.Queue.Table.Statements.{Same, Updated}

-- The row was delivered.
abbrev pub IsSpent : Bytes → Table → Type 0
IsSpent id t = (r : Row) × (lookup id t ≡ some r) × (1 ≤ r.received)

pub kept {ℓ} :
    {A : Type ℓ} (P : A → Table → Type 0) (id : Bytes) (before : Table) (r : Result A)
    → Atomic P before r
    → IsSpent id before
    → ((a : A) (u : Table) → P a u → IsSpent id u)
    → IsSpent id (database_of r).rows
kept P id before (ok a db) h spent keeps = keeps a db.rows h
kept P id before (err db) h spent keeps = subst (IsSpent id) (sym h) spent
kept P id before (panicked db) h spent keeps = subst (IsSpent id) (sym h) spent

pub lease-IsSpent :
    (queue k id : Bytes) (dur now : ℕ) (t : Table) (o : Option Bytes) (u : Table)
    → IsSpent id t
    → Delivered queue k dur now t o u
    → IsSpent id u
lease-IsSpent queue k id dur now t none u (r, found, h) (_, same) = (r, same id ∙ found, h)
lease-IsSpent queue k id dur now t (some body) u (r, found, h) (s, there, _, _, view) =
    elim (Bool-cases (bytes_eq k id)) [
      | inl here ↦ (
        record s { received = s.received + 1; timeout = now + dur },
        view id ∙ rw here refl,
        omega arith,
      )
      | inr other ↦ (r, view id ∙ rw other found, h)
    ]

pub move-IsSpent :
    (queue dst k id : Bytes) (priority now : ℕ) (t : Table) (b : Bool) (u : Table)
    → IsSpent id t
    → Moved queue dst k priority now t b u
    → IsSpent id u
move-IsSpent queue dst k id priority now t false u (r, found, h) (_, same) = (r, same id ∙ found, h)
move-IsSpent queue dst k id priority now t true u (r, found, h)
      (s, key, there, pending, fresh, view) =
    (
      r,
      ground
          (arith, view id, fresh, found, there, pending, h, bytes_eq_iff key id, bytes_eq_iff k id),
      h,
    )

pub give-IsSpent :
    (queue k id : Bytes) (timeout : ℕ) (t : Table) (o : Option Bytes) (u : Table)
    → IsSpent id t
    → bytes_eq k id ≡ false
    → Updated k (in_queue queue) (reset_to timeout) t o u
    → IsSpent id u
give-IsSpent queue k id timeout t none u (r, found, h) other (_, same) = (r, same id ∙ found, h)
give-IsSpent queue k id timeout t (some body) u (r, found, h) other (s, _, _, _, view) =
    (r, view id ∙ rw other found, h)

pub Delivered-IsSpent :
    (queue id body : Bytes) (dur now : ℕ) (t u : Table)
    → Delivered queue id dur now t (some body) u
    → IsSpent id u
Delivered-IsSpent queue id body dur now t u (r, _, _, _, view) = (
  record r { received = r.received + 1; timeout = now + dur },
  view id ∙ ground (arith, bytes_eq_iff id id),
  omega arith,
)

pub spent_lem :
    (queue id : Bytes) (dur now : ℕ) (t : Table) (o : Option Bytes) (u : Table)
    → IsSpent id t
    → Delivered queue id dur now t o u
    → (o ≡ none) × Same u t
spent_lem queue id dur now t none u spent (_, same) = (refl, same)
spent_lem queue id dur now t (some body) u (r, found, h) (s, there, (_, _, never), _, _) =
    absurd (ground (arith, found, there, h, never))

module _ (g : Goqite) (p : Proto) where
  pub submit-IsSpent :
      (queue id : Bytes) (env : Envelope p) (now : ℕ) (t : Table) (key : Bytes) (u : Table)
      → IsSpent id t
      → Sent g p queue env now t key u
      → IsSpent id u
  submit-IsSpent queue id env now t key u (r, found, h) (_, _, fresh, view) =
      (r, ground (arith, view id, fresh, found, bytes_eq_iff key id), h)

  pub lease_and_submit-IsSpent :
      (queue k id : Bytes) (dur : ℕ) (dst : Bytes) (env : Envelope p) (now : ℕ) (t : Table)
      (o : Option Bytes) (u : Table)
      → IsSpent id t
      → Submitted g p queue k dur dst env now t o u
      → IsSpent id u
  lease_and_submit-IsSpent queue k id dur dst env now t none u (r, found, h) (_, same) =
      (r, same id ∙ found, h)
  lease_and_submit-IsSpent queue k id dur dst env now t (some key) u (r, found, h)
        (s, body, there, pending, _, fresh, view) =
      (
        r,
        ground (
          arith,
          view id,
          fresh,
          found,
          there,
          pending,
          h,
          bytes_eq_iff key id,
          bytes_eq_iff k id,
        ),
        h,
      )

  pub extend-IsSpent :
      (queue k id : Bytes) (timeout : ℕ) (t : Table)
      → IsSpent id t
      → IsSpent id (Goqite.extend g queue k timeout t)
  extend-IsSpent queue k id timeout t (r, found, h) = elim (Bool-cases (bytes_eq k id)) [
    | inr other ↦ (r, Goqite.lookup-extend g queue k timeout t id ∙ rw other found, h)
    | inl here ↦ elim (Bool-cases (bytes_eq r.queue queue)) [
      | inr elsewhere ↦
          (r, Goqite.lookup-extend g queue k timeout t id ∙ rw (here, found, elsewhere) refl, h)
      | inl mine ↦ (
        record r { timeout = timeout },
        Goqite.lookup-extend g queue k timeout t id ∙ rw (here, found, mine) refl,
        h,
      )
    ]
  ]

  pub delete-IsSpent :
      (queue k id : Bytes) (t u : Table)
      → IsSpent id t
      → bytes_eq k id ≡ false
      → Views (dropped queue k) t u
      → IsSpent id u
  delete-IsSpent queue k id t u (r, found, h) other view = (r, view id ∙ rw other found, h)
