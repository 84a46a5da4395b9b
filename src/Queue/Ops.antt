-- ===== src/Queue/Ops.antt =====
-- The methods of `*Queue` in internal/queue/queue.go, one function each. A queue handle is its
-- name; the queues share one database (`assertSameDB`), and `now` is the clock at the call.
pub mod Leases
pub mod Moves
pub mod Once
pub mod Handover
pub mod Health
pub mod Views
pub mod Placing
pub mod Shown
pub mod Spent
use mass.Prelude.{
  ℕ, ◌+◌, ◌-◌, Bool, true, false, ◌&&◌, List, [], ◌∷◌, map, Option, none, some, Bytes, bytes_eq,
  ltb, leb, take, length,
}
use mass.Queue.Database.{
  Db, Result, ok, err, panicked, M, ◌>>=◌, ◌>>◌, return, statement, in_tx, signal, Goqite,
}
use mass.Queue.Envelope.{Proto, Envelope, marshal}
use mass.Queue.Table.{
  Row, Table, Message, PeekRow, max_receive, is_visible, is_pending, is_abandoned, update_by_id,
  delete_by_id, order_by_priority, select, to_message,
}

-- WHERE id = ? AND queue = ?
abbrev pub in_queue : Bytes → Row → Bool
in_queue queue r = bytes_eq r.queue queue

-- The lease's time one second ago.
abbrev pub expired_timeout : ℕ → ℕ
expired_timeout now = now - 1000

-- SET timeout = ?, received = 0
abbrev pub reset_to : ℕ → Row → Row
reset_to timeout r = record r { timeout = timeout; received = 0 }

-- SET received = received + 1, timeout = ?
abbrev pub lease_to : ℕ → Row → Row
lease_to timeout r = record r { received = r.received + 1; timeout = timeout }

unfoldable pub update_body : Bytes → Bytes → Bytes → M (Option Bytes)
update_body queue id body =
    statement (update_by_id id (in_queue queue) (λ r. record r { body = body }))

unfoldable pub list_abandoned : Bytes → ℕ → M (List Message)
list_abandoned queue now = statement (λ t. (map to_message (select (is_abandoned queue now) t), t))

unfoldable pub peek : Bytes → ℕ → ℕ → M (List Message)
peek queue limit now =
    statement
      (λ t. (map to_message (take limit (order_by_priority (select (is_visible queue now) t))), t))

-- (timeout > ? AND received > 0)
abbrev pub is_leased : ℕ → Row → Bool
is_leased now r = ltb now r.timeout && ltb 0 r.received

abbrev pub to_peek_row : ℕ → Bytes × Row → PeekRow
to_peek_row now e = record { message = to_message e; leased = is_leased now e.1 }

unfoldable pub peek_all : Bytes → ℕ → ℕ → M (List PeekRow)
peek_all queue limit now =
    statement
      (λ t. (map (to_peek_row now) (take limit (order_by_priority (select (in_queue queue) t))), t))

unfoldable pub depth : Bytes → ℕ → M ℕ
depth queue now = statement (λ t. (length (select (is_visible queue now) t), t))

-- `none` is the race lost: no such row, leased, or past its budget.
unfoldable pub lease_by_id_tx : Bytes → Bytes → ℕ → ℕ → M (Option Bytes)
lease_by_id_tx queue id lease_dur now =
    statement (update_by_id id (is_pending queue now) (lease_to (now + lease_dur)))

unfoldable pub lease_by_id : Bytes → Bytes → ℕ → ℕ → M (Option Bytes)
unfolding lease_by_id_tx
lease_by_id queue id lease_dur now = in_tx (lease_by_id_tx queue id lease_dur now)

unfoldable pub release_lease : Bytes → Bytes → ℕ → M (Unit {0})
release_lease queue id now = do
  _ ← statement (update_by_id id (in_queue queue) (reset_to (expired_timeout now)))
  signal

unfoldable pub defer : Bytes → Bytes → ℕ → ℕ → M (Option Bytes)
defer queue id delay now = statement (update_by_id id (in_queue queue) (reset_to (now + delay)))

module _ (g : Goqite) where
  unfoldable pub delete : Bytes → Bytes → M (Unit {0})
  delete queue id = statement (λ t. (tt, Goqite.delete g queue id t))

  unfoldable pub extend : Bytes → Bytes → ℕ → ℕ → M (Unit {0})
  extend queue id d now = statement (λ t. (tt, Goqite.extend g queue id (now + d) t))

  -- The body of the transaction of `MoveTo`.
  move_row : Bytes → ℕ → ℕ → Option Bytes → M Bool
  move_row dst priority now none = return false
  move_row dst priority now (some body) = do
    _ ← statement (Goqite.send g dst body priority now)
    return true

  signal_if : Bool → M Bool
  signal_if true = do signal; return true
  signal_if false = return false

  unfoldable pub move_to : Bytes → Bytes → Bytes → ℕ → ℕ → M Bool
  unfolding move_row signal_if
  move_to queue dst id priority now = do
    moved ← in_tx (do
      body ← statement (delete_by_id id (is_pending queue now))
      move_row dst priority now body)
    signal_if moved

  unfoldable pub delete_both : Bytes → Bytes → Bytes → Bytes → M (Unit {0})
  unfolding delete
  delete_both queue id other other_id = in_tx (do delete queue id; delete other other_id)

  unfoldable pub delete_and_release_lease : Bytes → Bytes → Bytes → Bytes → ℕ → M (Unit {0})
  unfolding delete
  delete_and_release_lease queue id other other_id now = do
    _ ← in_tx (do
      delete queue id
      statement (update_by_id other_id (in_queue other) (reset_to (expired_timeout now))))
    signal

  unfoldable pub release_lease_and_delete : Bytes → Bytes → Bytes → Bytes → ℕ → M (Unit {0})
  unfolding delete
  release_lease_and_delete queue id other other_id now = do
    in_tx (do
      _ ← statement (update_by_id other_id (in_queue other) (reset_to (expired_timeout now)))
      delete queue id)
    signal

  module _ (p : Proto) where
    -- `env.Marshal()` is an argument of the call: it panics before the statement runs.
    send_envelope : Bytes → Envelope p → ℕ → Option Bytes → M Bytes
    send_envelope queue env now none db = panicked db
    send_envelope queue env now (some body) db =
        statement (Goqite.send g queue body env.priority now) db

    unfoldable pub submit : Bytes → Envelope p → ℕ → M Bytes
    unfolding send_envelope
    submit queue env now = do id ← send_envelope queue env now (marshal p env); signal; return id

    -- The body of the transaction of `LeaseAndSubmit`, behind the lease.
    submit_leased : Bytes → Envelope p → ℕ → Option Bytes → M (Option Bytes)
    submit_leased dst env now none = return none
    submit_leased dst env now (some _) = do
      id ← send_envelope dst env now (marshal p env)
      return (some id)

    signal_some : Option Bytes → M (Option Bytes)
    signal_some none = return none
    signal_some (some id) = do signal; return (some id)

    -- The ID of the new row; `none` is `leased == false`.
    unfoldable pub lease_and_submit : Bytes → Bytes → ℕ → Bytes → Envelope p → ℕ → M (Option Bytes)
    unfolding lease_by_id_tx send_envelope submit_leased signal_some
    lease_and_submit queue lease_id lease_dur dst env now = do
      result ← in_tx (do
        leased ← lease_by_id_tx queue lease_id lease_dur now
        submit_leased dst env now leased)
      signal_some result
