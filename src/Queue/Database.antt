-- ===== src/Queue/Database.antt =====
-- The database handle of internal/queue/queue.go: the rows, the pool's wake-up channel, and
-- statements and transactions that may fail. `faults` says of each statement to come whether the
-- database refuses it (`begin` and `commit` count); once it is used up, nothing fails.
pub mod Rules
use mass.Prelude.{
  ℕ, ◌+◌, ◌≡◌, ◌&&◌, Bool, true, false, List, [], ◌∷◌, Option, none, some, Bytes, bytes_eq,
  if◌then◌else◌,
}
use mass.Prelude.Map.{lookup}
use mass.Queue.Table.{Row, Table}

pub record Db : Type 0 where
  pub rows : Table
  pub notified : Bool  -- the capacity-1 channel holds a signal
  pub faults : List Bool

-- `panicked` is a panic that unwinds through the operation.
pub data Result {ℓ} (A : Type ℓ) : Type ℓ where
  ok : A → Db → Result A
  err : Db → Result A
  panicked : Db → Result A

abbrev pub M {ℓ} : Type ℓ → Type ℓ
M A = Db → Result A

infixl 5 ◌>>=◌ ◌>>◌
abbrev pub ◌>>=◌ {ℓ κ} : {A : Type ℓ} {B : Type κ} → M A → (A → M B) → M B
◌>>=◌ m f db = elim (m db) [ ok a db' ↦ f a db' | err db' ↦ err db' | panicked db' ↦ panicked db' ]

abbrev pub ◌>>◌ {ℓ κ} : {A : Type ℓ} {B : Type κ} → M A → M B → M B
◌>>◌ m k db = elim (m db) [ ok a db' ↦ k db' | err db' ↦ err db' | panicked db' ↦ panicked db' ]

abbrev pub return {ℓ} : {A : Type ℓ} → A → M A
return a db = ok a db

-- One SQL statement.
attempt {ℓ} : {A : Type ℓ} → (Table → A × Table) → List Bool → Db → Result A
attempt f [] db = ok (f db.rows).0 (record db { rows = (f db.rows).1 })
attempt f (true ∷ faults) db = err (record db { faults = faults })
attempt f (false ∷ faults) db =
    ok (f db.rows).0 (record db { rows = (f db.rows).1; faults = faults })

unfoldable pub statement {ℓ} : {A : Type ℓ} → (Table → A × Table) → M A
unfolding attempt
statement f db = attempt f db.faults db

-- The end of `inTx`: an error or a panic rolls back, and so does a commit that fails.
finish {ℓ} : {A : Type ℓ} → Table → Result A → Result A
unfolding statement
finish before (ok a db) = elim (statement {A = Unit {0}} (λ t. (tt, t)) db) [
  | ok _ db' ↦ ok a db'
  | err db' ↦ err (record db' { rows = before })
  | panicked db' ↦ panicked (record db' { rows = before })
]
finish before (err db) = err (record db { rows = before })
finish before (panicked db) = panicked (record db { rows = before })

-- What `inTx` does once the transaction has begun, or has failed to.
begun {ℓ} : {A : Type ℓ} → Table → M A → Result (Unit {0}) → Result A
unfolding finish
begun before fn (ok _ db) = finish before (fn db)
begun before fn (err db) = err db
begun before fn (panicked db) = panicked db

unfoldable pub in_tx {ℓ} : {A : Type ℓ} → M A → M A
unfolding begun statement
in_tx fn db = begun db.rows fn (statement (λ t. (tt, t)) db)

-- `signal`: a send that does not block.
unfoldable pub signal : M (Unit {0})
signal db = ok tt (record db { notified = true })

-- A row that a call addresses by its queue too: deleted, or with a later timeout.
abbrev pub without : Bytes → Option Row → Option Row
without queue none = none
without queue (some r) = if bytes_eq r.queue queue then none else some r

abbrev pub extended : Bytes → ℕ → Option Row → Option Row
extended queue timeout none = none
extended queue timeout (some r) =
    if bytes_eq r.queue queue then some (record r { timeout = timeout }) else some r

-- maragu.dev/goqite, which is not part of the repository: what it documents of the calls that
-- internal/queue/queue.go makes. `send` is `SendAndGetID` of a message without a delay.
pub record Goqite : Type 0 where
  pub send : Bytes → Bytes → ℕ → ℕ → Table → Bytes × Table
  pub delete : Bytes → Bytes → Table → Table
  pub extend : Bytes → Bytes → ℕ → Table → Table
  pub send_fresh :
      (queue body : Bytes) (priority now : ℕ) (t : Table)
      → lookup (send queue body priority now t).0 t ≡ none
  pub lookup-send :
      (queue body : Bytes) (priority now : ℕ) (t : Table) (j : Bytes)
      → lookup j (send queue body priority now t).1 ≡ (
          if bytes_eq (send queue body priority now t).0 j
          then some (record {
            queue = queue;
            body = body;
            priority = priority;
            created = now;
            timeout = now;
            received = 0;
          })
          else lookup j t)
  pub lookup-delete :
      (queue id : Bytes) (t : Table) (j : Bytes)
      → lookup j (delete queue id t)
        ≡ (if bytes_eq id j then without queue (lookup j t) else lookup j t)
  pub lookup-extend :
      (queue id : Bytes) (timeout : ℕ) (t : Table) (j : Bytes)
      → lookup j (extend queue id timeout t)
        ≡ (if bytes_eq id j then extended queue timeout (lookup j t) else lookup j t)
