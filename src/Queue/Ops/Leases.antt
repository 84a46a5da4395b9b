-- ===== src/Queue/Ops/Leases.antt =====
-- `LeaseByID`, `ReleaseLease` and `Defer` of internal/queue/queue.go: who may hold a row, and when
-- it comes back.
use mass.Prelude.{
  ℕ, ◌+◌, ◌<◌, ◌≤◌, bytes_eq, ◌≡◌, refl, ap, ◌∙◌, true, [], Option, none, some, Bytes, bytes_eq_iff,
  leb, if◌then◌else◌, arith,
}
use mass.Prelude.Map.{lookup}
use mass.Queue.Database.{Db, ok, statement, signal}
use mass.Queue.Database.Rules.{
  OnOk, Atomic, statement-OnOk, in_tx-Atomic, Atomic-map, statement_free, in_tx_free, bind_ok,
}
use mass.Queue.Ops.{
  in_queue, expired_timeout, reset_to, lease_to, lease_by_id_tx, lease_by_id, release_lease, defer,
}
use mass.Queue.Table.{Row, Table, is_pending, update_by_id}
use mass.Queue.Table.Statements.{
  Same, Updated, returned, update_by_id-Updated, update_by_id-returned, lookup-update_by_id,
}

-- What `LeaseByID` may return, and leave behind.
abbrev pub Leased : Bytes → Bytes → ℕ → ℕ → Table → Option Bytes → Table → Type 0
Leased queue id dur now t = Updated id (is_pending queue now) (lease_to (now + dur)) t

pub lease_by_id_tx-OnOk :
    (queue id : Bytes) (dur now : ℕ) (before : Table) (db : Db)
    → db.rows ≡ before
    → OnOk (Leased queue id dur now before) (lease_by_id_tx queue id dur now db)
unfolding lease_by_id_tx
lease_by_id_tx-OnOk queue id dur now before db e =
    statement-OnOk (Leased queue id dur now before) _ db
      (rw e (update_by_id-Updated id (is_pending queue now) (lease_to (now + dur)) before))

pub lease_by_id-Leased :
    (queue id : Bytes) (dur now : ℕ) (db : Db)
    → Atomic (Leased queue id dur now db.rows) db.rows (lease_by_id queue id dur now db)
unfolding lease_by_id
lease_by_id-Leased queue id dur now db =
    in_tx-Atomic (Leased queue id dur now db.rows) (lease_by_id_tx queue id dur now) db
      (lease_by_id_tx-OnOk queue id dur now db.rows)

-- A row of the queue whose timeout has passed and that was never delivered.
abbrev pub IsLeasable : Bytes → ℕ → Option Row → Type 0
IsLeasable queue now none = ⊥
IsLeasable queue now (some r) = (r.queue ≡ queue) × (r.timeout ≤ now) × (r.received < 1)

-- The one row is delivered once more and hidden until `now + dur`, or there was none to lease.
abbrev pub Delivered : Bytes → Bytes → ℕ → ℕ → Table → Option Bytes → Table → Type 0
Delivered queue id dur now t none u = ¬ IsLeasable queue now (lookup id t) × Same u t
Delivered queue id dur now t (some body) u =
    (r : Row) × (lookup id t ≡ some r)
    × IsLeasable queue now (some r)
    × (body ≡ r.body)
    × ((j : Bytes)
        → lookup j u ≡ (
            if bytes_eq id j
            then some (record r { received = r.received + 1; timeout = now + dur })
            else lookup j t))

not-IsLeasable :
    (queue : Bytes) (now : ℕ) (o : Option Row)
    → returned (is_pending queue now) o ≡ none
    → ¬ IsLeasable queue now o
not-IsLeasable queue now none e h = h
not-IsLeasable queue now (some r) e h = ground (arith, e, h, bytes_eq_iff r.queue queue)

Leased-Delivered :
    (queue id : Bytes) (dur now : ℕ) (t : Table) (o : Option Bytes) (u : Table)
    → Leased queue id dur now t o u
    → Delivered queue id dur now t o u
Leased-Delivered queue id dur now t none u (e, same) =
    (not-IsLeasable queue now (lookup id t) e, same)
Leased-Delivered queue id dur now t (some body) u (r, found, pending, same, view) =
    (r, found, ground (arith, pending, bytes_eq_iff r.queue queue), same, view)

-- `LeaseByID` returns a body only for a row of this queue whose timeout has passed and that was
-- never delivered; then that row alone changes, to one delivery more and a timeout of now + dur. It
-- returns nothing only where there is no such row, and then, or whatever fails, every row stays as
-- it was.
pub lease_by_id-Atomic :
    (queue id : Bytes) (dur now : ℕ) (db : Db)
    → Atomic (Delivered queue id dur now db.rows) db.rows (lease_by_id queue id dur now db)
lease_by_id-Atomic queue id dur now db =
    Atomic-map (Leased queue id dur now db.rows) (Delivered queue id dur now db.rows) db.rows
      (lease_by_id queue id dur now db) (lease_by_id-Leased queue id dur now db)
      (λ o u. Leased-Delivered queue id dur now db.rows o u)

lease_by_id_free :
    (queue id : Bytes) (dur now : ℕ) (db : Db)
    → db.faults ≡ []
    → lease_by_id queue id dur now db
      ≡ ok (returned (is_pending queue now) (lookup id db.rows)) (record db {
        rows = (update_by_id id (is_pending queue now) (lease_to (now + dur)) db.rows).1;
      })
unfolding lease_by_id lease_by_id_tx
lease_by_id_free queue id dur now db e =
    in_tx_free (lease_by_id_tx queue id dur now) db _ _ e
      (statement_free (update_by_id id (is_pending queue now) (lease_to (now + dur))) db e
        ∙ rw (update_by_id-returned id (is_pending queue now) (lease_to (now + dur)) db.rows))
      e

-- After `Defer` (no statement failing), a lease of the row at `later` succeeds exactly when the
-- delay is over, also if the row had been delivered before. The row keeps its place: only its
-- timeout and its delivery count change.
pub defer_until :
    (queue id : Bytes) (delay dur now later : ℕ) (db : Db) (r : Row)
    → db.faults ≡ []
    → lookup id db.rows ≡ some r
    → r.queue ≡ queue
    → (db' db'' : Db) × (defer queue id delay now db ≡ ok (some r.body) db')
      × (lookup id db'.rows ≡ some (reset_to (now + delay) r))
      × (lease_by_id queue id dur later db'
          ≡ ok (if leb (now + delay) later then some r.body else none) db'')
unfolding defer
defer_until queue id delay dur now later db r none_fail found here = (
  hidden,
  after_lease,
  deferred,
  held,
  lease_by_id_free queue id dur later hidden none_fail
      ∙ ap (λ (o : Option Bytes). ok o after_lease) woken,
)
  where
    hidden : Db
    hidden = record db {
      rows = (update_by_id id (in_queue queue) (reset_to (now + delay)) db.rows).1;
    }

    held : lookup id hidden.rows ≡ some (reset_to (now + delay) r)
    held = ground (
      arith,
      lookup-update_by_id id id (in_queue queue) (reset_to (now + delay)) db.rows,
      bytes_eq_iff id id,
      bytes_eq_iff r.queue queue,
    )

    named : (update_by_id id (in_queue queue) (reset_to (now + delay)) db.rows).0 ≡ some r.body
    named =
        update_by_id-returned id (in_queue queue) (reset_to (now + delay)) db.rows
        ∙ rw found (ground (arith, bytes_eq_iff r.queue queue))

    deferred : defer queue id delay now db ≡ ok (some r.body) hidden
    deferred =
        statement_free (update_by_id id (in_queue queue) (reset_to (now + delay))) db none_fail
        ∙ ap (λ (o : Option Bytes). ok o hidden) named

    woken :
        returned (is_pending queue later) (lookup id hidden.rows)
        ≡ (if leb (now + delay) later then some r.body else none)
    woken = rw held (ground (arith, bytes_eq_iff r.queue queue))

    after_lease : Db
    after_lease = record hidden {
      rows = (update_by_id id (is_pending queue later) (lease_to (later + dur)) hidden.rows).1;
    }

-- After `ReleaseLease` (no statement failing), however often the row was delivered, it can be leased
-- at once, by any consumer whose clock is not a second behind, and the dispatcher is woken.
pub release_then_lease :
    (queue id : Bytes) (dur now later : ℕ) (db : Db) (r : Row)
    → db.faults ≡ []
    → lookup id db.rows ≡ some r
    → r.queue ≡ queue
    → expired_timeout now ≤ later
    → (db' db'' : Db) × (release_lease queue id now db ≡ ok tt db')
      × (db'.notified ≡ true)
      × (lease_by_id queue id dur later db' ≡ ok (some r.body) db'')
unfolding release_lease signal
release_then_lease queue id dur now later db r none_fail found here soon = (
  woken,
  after_lease,
  bind_ok (statement (update_by_id id (in_queue queue) (reset_to (expired_timeout now))))
      (λ _. signal) db _ _
      (statement_free (update_by_id id (in_queue queue) (reset_to (expired_timeout now))) db
        none_fail),
  refl,
  lease_by_id_free queue id dur later woken none_fail
      ∙ ap (λ (o : Option Bytes). ok o after_lease) free,
)
  where
    woken : Db
    woken = record db {
      rows = (update_by_id id (in_queue queue) (reset_to (expired_timeout now)) db.rows).1;
      notified = true;
    }

    after_lease : Db
    after_lease = record woken {
      rows = (update_by_id id (is_pending queue later) (lease_to (later + dur)) woken.rows).1;
    }

    held : lookup id woken.rows ≡ some (reset_to (expired_timeout now) r)
    held = ground (
      arith,
      lookup-update_by_id id id (in_queue queue) (reset_to (expired_timeout now)) db.rows,
      bytes_eq_iff id id,
      bytes_eq_iff r.queue queue,
    )

    free : returned (is_pending queue later) (lookup id woken.rows) ≡ some r.body
    free = rw held (ground (arith, bytes_eq_iff r.queue queue))
