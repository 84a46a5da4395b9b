-- ===== src/Queue/Ops/Shown.antt =====
-- Every message that `Peek` of internal/queue/queue.go shows is a visible row of the table.
use mass.Prelude.{
  All, ℕ, zero, suc, ◌≡◌, refl, true, [], ◌∷◌, map, take, keep, some, Bytes, bytes_eq_iff,
  Bool-cases, inl, inr, arith,
}
use mass.Prelude.Map.{lookup, IsMap}
use mass.Queue.Table.{
  Row, Table, Message, is_visible, precedes, insert_ordered, order_by_priority, select, to_message,
}

-- The message is that of a row of the queue that is visible now.
abbrev pub IsShown : Bytes → ℕ → Table → Message → Type 0
IsShown queue now t m =
    (row : Row) × (lookup m.id t ≡ some row)
    × (m.body ≡ row.body)
    × (is_visible queue now row ≡ true)

module _ (P : Bytes × Row → Type 0) where
  All-insert_ordered : (x : Bytes × Row) (t : Table) → P x → All P t → All P (insert_ordered x t)
  unfolding insert_ordered
  All-insert_ordered x [] h all = (h, tt)
  All-insert_ordered (k, r) ((j, s) ∷ t) h (first, rest) = elim (Bool-cases (precedes r s)) [
    | inl before ↦ rw before (h, (first, rest))
    | inr behind ↦ rw behind (first, All-insert_ordered (k, r) t h rest)
  ]

  All-order : (t : Table) → All P t → All P (order_by_priority t)
  unfolding order_by_priority
  All-order [] all = tt
  All-order (x ∷ t) (h, all) = All-insert_ordered x (order_by_priority t) h (All-order t all)

  All-take_rows : (n : ℕ) (t : Table) → All P t → All P (take n t)
  All-take_rows zero t all = tt
  All-take_rows (suc n) [] all = tt
  All-take_rows (suc n) (x ∷ t) (h, all) = (h, All-take_rows n t all)

All-messages :
    (Q : Message → Type 0) (t : Table)
    → All (λ (e : Bytes × Row). Q (to_message e)) t
    → All Q (map to_message t)
All-messages Q [] all = tt
All-messages Q (x ∷ t) (h, all) = (h, All-messages Q t all)

selected-IsShown :
    (queue : Bytes) (now : ℕ) (whole part : Table)
    → ((j : Bytes) (r : Row) → lookup j part ≡ some r → lookup j whole ≡ some r)
    → IsMap part
    → All
        (λ (e : Bytes × Row). IsShown queue now whole (to_message e))
        (select (is_visible queue now) part)
unfolding lookup
selected-IsShown queue now whole [] inside d = tt
selected-IsShown queue now whole ((k, r) ∷ part) inside d =
    let here : lookup k whole ≡ some r = inside k r (ground (arith, bytes_eq_iff k k)) in
    let rest =
      selected-IsShown queue now whole part
        (λ j s e. inside j s (ground (arith, bytes_eq_iff k j, d.0, e))) d.1 in
    elim (Bool-cases (is_visible queue now r)) [
      | inl visible ↦ rw (visible, keep) ((r, here, refl, visible), rest)
      | inr hidden ↦ rw (hidden, keep) rest
    ]

pub visible-IsShown :
    (queue : Bytes) (limit now : ℕ) (t : Table)
    → IsMap t
    → All
        (IsShown queue now t)
        (map to_message (take limit (order_by_priority (select (is_visible queue now) t))))
visible-IsShown queue limit now t keyed =
    let P = λ (e : Bytes × Row). IsShown queue now t (to_message e) in
    All-messages (IsShown queue now t)
      (take limit (order_by_priority (select (is_visible queue now) t)))
      (All-take_rows P limit (order_by_priority (select (is_visible queue now) t)) (
        All-order P (select (is_visible queue now) t)
          (selected-IsShown queue now t t (λ j r e. e) keyed)))
