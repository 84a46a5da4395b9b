-- ===== src/Queue/Ops/Views.antt =====
-- `Peek` of internal/queue/queue.go: what a consumer is shown.
use mathlib.Core.List.{Perm}
use mass.Prelude.{
  ℕ, ◌≡◌, refl, bytes_eq, leb, ◌&&◌, ap, ◌∙◌, ◌++◌, map, Bytes, All, length, take, drop, keep, min,
  take-append-drop, length-take,
}
use mass.Queue.Database.{Db}
use mass.Queue.Database.Rules.{Atomic, statement-Atomic}
use mass.Queue.Ops.{peek}
use mass.Queue.Table.{Row, Table, is_visible, order_by_priority, select, to_message}
use mass.Queue.Table.Selection.{
  Precedes, IsOrdered, order_by_priority-IsOrdered, order_by_priority-perm, take-Precedes,
  length-order_by_priority,
}

-- The best `limit` of some rows, in dispatch order: with what is left out they make up the rows,
-- each comes before all that are left out, and there are as many as the limit allows.
abbrev pub Best : ℕ → Table → Table → Type 0
Best limit rows chosen =
    (rest : Table) × Perm (chosen ++ rest) rows
    × IsOrdered chosen
    × All (λ x. All (Precedes x) rest) chosen
    × (length chosen ≡ min limit (length rows))

take-Best : (limit : ℕ) (rows : Table) → Best limit rows (take limit (order_by_priority rows))
take-Best limit rows =
    let sorted = take-Precedes limit (order_by_priority rows) (order_by_priority-IsOrdered rows) in
    (
      drop limit (order_by_priority rows),
      rw (take-append-drop limit (order_by_priority rows)) (order_by_priority-perm rows),
      sorted.0,
      sorted.1,
      length-take limit (order_by_priority rows) ∙ ap (min limit) (length-order_by_priority rows),
    )

-- `Peek` shows the best `limit` of the rows of its queue whose timeout has passed, in the order in
-- which they go out: higher priorities first, and the older first among equals. It changes nothing,
-- whatever happens.
pub peek-Best :
    (queue : Bytes) (limit now : ℕ) (db : Db)
    → Atomic
        (λ messages u.
          (chosen : Table) × (messages ≡ map to_message chosen)
          × Best limit
              (keep
                (λ (e : Bytes × Row). bytes_eq (e.1).queue queue && leb (e.1).timeout now)
                db.rows)
              chosen
          × (u ≡ db.rows))
        db.rows
        (peek queue limit now db)
unfolding peek
peek-Best queue limit now db =
    let visible = select (is_visible queue now) db.rows in
    statement-Atomic
      (λ messages u.
        (chosen : Table) × (messages ≡ map to_message chosen)
        × Best limit visible chosen
        × (u ≡ db.rows))
      (λ t. (map to_message (take limit (order_by_priority (select (is_visible queue now) t))), t))
      db (take limit (order_by_priority visible), refl, take-Best limit visible, refl)
