-- ===== src/Queue/Table.antt =====
-- The table `goqite` as the SQL of internal/queue/queue.go reads and writes it: rows under their
-- primary key, and the statements that the file writes by hand. Times are milliseconds.
pub mod Statements
pub mod Selection
use mass.Prelude.{
  ℕ, ◌+◌, ◌≤◌, Bool, true, false, ◌&&◌, ◌||◌, List, [], ◌∷◌, map, Option, none, some, Bytes,
  bytes_eq, leb, ltb, ◌==◌, if◌then◌else◌, keep, take, length,
}
use mass.Prelude.Map.{Map, lookup, insert, erase}

pub record Row : Type 0 where
  pub queue : Bytes
  pub body : Bytes
  pub priority : ℕ
  pub created : ℕ
  pub timeout : ℕ
  pub received : ℕ

abbrev pub Table : Type 0
Table = Map Row

pub record Message : Type 0 where
  pub id : Bytes
  pub body : Bytes

pub record PeekRow : Type 0 where
  pub message : Message
  pub leased : Bool

abbrev pub max_receive : ℕ
max_receive = 1

-- WHERE queue = ? AND timeout <= ?
abbrev pub is_visible : Bytes → ℕ → Row → Bool
is_visible queue now r = bytes_eq r.queue queue && leb r.timeout now

-- WHERE queue = ? AND timeout <= ? AND received < ?
abbrev pub is_pending : Bytes → ℕ → Row → Bool
is_pending queue now r = is_visible queue now r && ltb r.received max_receive

-- WHERE queue = ? AND received >= ? AND timeout <= ?
abbrev pub is_abandoned : Bytes → ℕ → Row → Bool
is_abandoned queue now r =
    bytes_eq r.queue queue && (leb max_receive r.received && leb r.timeout now)

-- UPDATE goqite SET … WHERE id = ? AND test RETURNING body
update_found : Bytes → (Row → Bool) → (Row → Row) → Option Row → Table → Option Bytes × Table
update_found id test change none t = (none, t)
update_found id test change (some r) t =
    if test r then (some r.body, insert id (change r) t) else (none, t)

unfoldable pub update_by_id : Bytes → (Row → Bool) → (Row → Row) → Table → Option Bytes × Table
unfolding update_found
update_by_id id test change t = update_found id test change (lookup id t) t

-- DELETE FROM goqite WHERE id = ? AND test RETURNING body
delete_found : Bytes → (Row → Bool) → Option Row → Table → Option Bytes × Table
delete_found id test none t = (none, t)
delete_found id test (some r) t = if test r then (some r.body, erase id t) else (none, t)

unfoldable pub delete_by_id : Bytes → (Row → Bool) → Table → Option Bytes × Table
unfolding delete_found
delete_by_id id test t = delete_found id test (lookup id t) t

-- ORDER BY priority DESC, created. Rows that tie stay in the table's order.
abbrev pub precedes : Row → Row → Bool
precedes a b = ltb b.priority a.priority || (a.priority == b.priority && leb a.created b.created)

unfoldable pub insert_ordered : Bytes × Row → Table → Table
insert_ordered x [] = x ∷ []
insert_ordered (k, r) ((j, s) ∷ rest) =
    if precedes r s then (k, r) ∷ (j, s) ∷ rest else (j, s) ∷ insert_ordered (k, r) rest

unfoldable pub order_by_priority : Table → Table
unfolding insert_ordered
order_by_priority [] = []
order_by_priority (x ∷ rest) = insert_ordered x (order_by_priority rest)

abbrev pub select : (Row → Bool) → Table → Table
select test t = keep (λ (e : Bytes × Row). test e.1) t

abbrev pub to_message : Bytes × Row → Message
to_message e = record { id = e.0; body = e.1.body }
