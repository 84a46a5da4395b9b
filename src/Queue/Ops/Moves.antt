-- ===== src/Queue/Ops/Moves.antt =====
-- `MoveTo` and `LeaseAndSubmit` of internal/queue/queue.go: a row changes queues in one piece.
use mass.Prelude.{
  ℕ, ◌≡◌, ◌⊎◌, ◌∙◌, Bool, true, false, Option, none, some, Bytes, bytes_eq, bytes_eq_iff,
  if◌then◌else◌, arith,
}
use mass.Prelude.Map.{lookup}
use mass.Queue.Database.{Db, M, ◌>>=◌, return, statement, in_tx, signal, Goqite}
use mass.Queue.Database.Rules.{
  OnOk, Atomic, OnOk-bind, Atomic-bind, statement-OnOk, in_tx-Atomic, Succeeds,
}
use mass.Queue.Ops.{move_to, move_row, signal_if}
use mass.Queue.Table.{Row, Table, is_pending, delete_by_id}
use mass.Queue.Table.Statements.{Same, Deleted, returned, delete_by_id-Deleted}

-- The row that `send` makes.
abbrev pub sent : Bytes → Bytes → ℕ → ℕ → Row
sent queue body priority now = record {
  queue = queue;
  body = body;
  priority = priority;
  created = now;
  timeout = now;
  received = 0;
}

-- What `MoveTo` may return, and leave behind. `key` is the key of the new row.
abbrev pub Moved : Bytes → Bytes → Bytes → ℕ → ℕ → Table → Bool → Table → Type 0
Moved queue dst id priority now t false u =
    (returned (is_pending queue now) (lookup id t) ≡ none) × Same u t
Moved queue dst id priority now t true u =
    (r : Row) × (key : Bytes) × (lookup id t ≡ some r)
    × (is_pending queue now r ≡ true)
    × ((key ≡ id) ⊎ (lookup key t ≡ none))
    × ((j : Bytes)
        → lookup j u ≡ (
            if bytes_eq key j
            then some (sent dst r.body priority now)
            else if bytes_eq id j
            then none
            else lookup j t))

module _ (g : Goqite) where
  move_row-OnOk :
      (queue dst id : Bytes) (priority now : ℕ) (before : Table) (o : Option Bytes) (db : Db)
      → Deleted id (is_pending queue now) before o db.rows
      → OnOk (Moved queue dst id priority now before) (move_row g dst priority now o db)
  unfolding move_row
  move_row-OnOk queue dst id priority now before none db h = h
  move_row-OnOk queue dst id priority now before (some body) db (r, found, pending, same, view) =
      let sends = Goqite.send g dst body priority now in
      OnOk-bind (λ _. Moved queue dst id priority now before true)
        (Moved queue dst id priority now before) (statement sends) (λ _. return true) db
        (statement-OnOk (λ _. Moved queue dst id priority now before true) sends db
          (
            r,
            key,
            found,
            pending,
            new_key,
            λ j. Goqite.lookup-send g dst body priority now db.rows j ∙ rw (view j, same),
          ))
        (λ _ db' p. p)
    where
      key : Bytes
      key = (Goqite.send g dst body priority now db.rows).0

      new_key : (key ≡ id) ⊎ (lookup key before ≡ none)
      new_key =
          ground (
            arith,
            Goqite.send_fresh g dst body priority now db.rows,
            view key,
            bytes_eq_iff id key,
          )

  -- `MoveTo` takes only a row of this queue that is neither leased nor past its budget. It says
  -- `true` exactly when that row is gone and one row with its body stands in the other queue,
  -- visible at once and under a key of its own, all other rows being as they were. It says `false`
  -- when there was no such row, and then nothing changed; whatever fails, nothing changed either.
  pub move_to-Atomic :
      (queue dst id : Bytes) (priority now : ℕ) (db : Db)
      → Atomic
          (Moved queue dst id priority now db.rows)
          db.rows
          (move_to g queue dst id priority now db)
  unfolding move_to signal_if signal
  move_to-Atomic queue dst id priority now db =
      Atomic-bind (Moved queue dst id priority now db.rows)
        (Moved queue dst id priority now db.rows) (in_tx moves) (signal_if g) db.rows db
        (in_tx-Atomic (Moved queue dst id priority now db.rows) moves db inside) signals
    where
      moves : M Bool
      moves = do
        body ← statement (delete_by_id id (is_pending queue now))
        move_row g dst priority now body

      inside :
          (db' : Db)
          → db'.rows ≡ db.rows
          → OnOk (Moved queue dst id priority now db.rows) (moves db')
      inside db' e =
          OnOk-bind (Deleted id (is_pending queue now) db.rows)
            (Moved queue dst id priority now db.rows)
            (statement (delete_by_id id (is_pending queue now))) (move_row g dst priority now) db'
            (statement-OnOk (Deleted id (is_pending queue now) db.rows)
              (delete_by_id id (is_pending queue now)) db'
              (rw e (delete_by_id-Deleted id (is_pending queue now) db.rows)))
            (λ o db'' h. move_row-OnOk queue dst id priority now db.rows o db'' h)

      signals :
          (b : Bool) (db' : Db)
          → Moved queue dst id priority now db.rows b db'.rows
          → OnOk (Moved queue dst id priority now db.rows) (signal_if g b db')
            × Succeeds (signal_if g b db')
      signals true db' h = (h, tt)
      signals false db' h = (h, tt)
