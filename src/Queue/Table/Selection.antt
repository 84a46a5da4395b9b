-- ===== src/Queue/Table/Selection.antt =====
-- `ORDER BY priority DESC, created LIMIT ?` of internal/queue/queue.go: what a limited, ordered
-- SELECT returns of the rows that pass its test.
use mathlib.Core.List.{Perm}
use mathlib.Core.List.Perm
use mass.Prelude.{
  ℕ, zero, suc, ◌<◌, ◌≤◌, ◌⊎◌, ◌≡◌, refl, ap, ◌∙◌, true, false, [], ◌∷◌, Bytes, All, length, take,
  drop, Bool-cases, inl, inr, arith,
}
use mass.Queue.Table.{Row, Table, precedes, insert_ordered, order_by_priority}

-- A higher priority, or the same one and no younger.
abbrev pub Precedes : Bytes × Row → Bytes × Row → Type 0
Precedes a b =
    ((b.1).priority < (a.1).priority)
    ⊎ (((a.1).priority ≡ (b.1).priority) × ((a.1).created ≤ (b.1).created))

-- Every row comes before all that follow it.
abbrev pub IsOrdered : Table → Type 0
IsOrdered [] = Unit
IsOrdered (x ∷ rest) = All (Precedes x) rest × IsOrdered rest

precedes-Precedes : (a b : Bytes × Row) → precedes a.1 b.1 ≡ true → Precedes a b
precedes-Precedes a b h = ground (arith, h)

Precedes-flip : (a b : Bytes × Row) → precedes a.1 b.1 ≡ false → Precedes b a
Precedes-flip a b h = ground (arith, h)

Precedes-then : (a b c : Bytes × Row) → Precedes a b → Precedes b c → Precedes a c
Precedes-then a b c h k = ground (arith, h, k)

All-Precedes :
    (x y : Bytes × Row) (t : Table) → Precedes x y → All (Precedes y) t → All (Precedes x) t
All-Precedes x y [] h a = tt
All-Precedes x y (z ∷ t) h a = (Precedes-then x y z h a.0, All-Precedes x y t h a.1)

All-insert_ordered :
    (y x : Bytes × Row) (t : Table)
    → Precedes y x
    → All (Precedes y) t
    → All (Precedes y) (insert_ordered x t)
unfolding insert_ordered
All-insert_ordered y (k, r) [] h a = (h, tt)
All-insert_ordered y (k, r) ((j, s) ∷ t) h a = elim (Bool-cases (precedes r s)) [
  | inl before ↦ rw (before, insert_ordered) (h, (a.0, a.1))
  | inr after ↦ rw (after, insert_ordered) (a.0, All-insert_ordered y (k, r) t h a.1)
]

insert_ordered-IsOrdered :
    (x : Bytes × Row) (t : Table) → IsOrdered t → IsOrdered (insert_ordered x t)
unfolding insert_ordered
insert_ordered-IsOrdered (k, r) [] o = (tt, tt)
insert_ordered-IsOrdered (k, r) ((j, s) ∷ t) o = elim (Bool-cases (precedes r s)) [
  | inl before ↦
      rw (before, insert_ordered)
        (
          (
            precedes-Precedes (k, r) (j, s) before,
            All-Precedes (k, r) (j, s) t (precedes-Precedes (k, r) (j, s) before) o.0,
          ),
          (o.0, o.1),
        )
  | inr after ↦
      rw (after, insert_ordered)
        (
          All-insert_ordered (j, s) (k, r) t (Precedes-flip (k, r) (j, s) after) o.0,
          insert_ordered-IsOrdered (k, r) t o.1,
        )
]

insert_ordered-perm : (x : Bytes × Row) (t : Table) → Perm (insert_ordered x t) (x ∷ t)
unfolding insert_ordered
insert_ordered-perm (k, r) [] = Perm.refl _
insert_ordered-perm (k, r) ((j, s) ∷ t) = elim (Bool-cases (precedes r s)) [
  | inl before ↦ rw (before, insert_ordered) (Perm.refl _)
  | inr after ↦
      rw (after, insert_ordered)
        (Perm.trans (Perm.cons (j, s) (insert_ordered-perm (k, r) t)) (Perm.swap (k, r) (j, s) t))
]

pub order_by_priority-IsOrdered : (t : Table) → IsOrdered (order_by_priority t)
unfolding order_by_priority
order_by_priority-IsOrdered [] = tt
order_by_priority-IsOrdered (x ∷ t) =
    insert_ordered-IsOrdered x (order_by_priority t) (order_by_priority-IsOrdered t)

pub order_by_priority-perm : (t : Table) → Perm (order_by_priority t) t
unfolding order_by_priority
order_by_priority-perm [] = Perm.refl []
order_by_priority-perm (x ∷ t) =
    Perm.trans (insert_ordered-perm x (order_by_priority t))
      (Perm.cons x (order_by_priority-perm t))

All-take : (x : Bytes × Row) (n : ℕ) (t : Table) → All (Precedes x) t → All (Precedes x) (take n t)
All-take x zero t a = tt
All-take x (suc n) [] a = tt
All-take x (suc n) (y ∷ t) a = (a.0, All-take x n t a.1)

All-drop : (x : Bytes × Row) (n : ℕ) (t : Table) → All (Precedes x) t → All (Precedes x) (drop n t)
All-drop x zero t a = a
All-drop x (suc n) [] a = tt
All-drop x (suc n) (y ∷ t) a = All-drop x n t a.1

-- In an ordered table, what a limit lets through comes before what it cuts off.
pub take-Precedes :
    (n : ℕ) (t : Table)
    → IsOrdered t
    → IsOrdered (take n t) × All (λ x. All (Precedes x) (drop n t)) (take n t)
take-Precedes zero t o = (tt, tt)
take-Precedes (suc n) [] o = (tt, tt)
take-Precedes (suc n) (x ∷ t) o =
    let rest = take-Precedes n t o.1 in ((All-take x n t o.0, rest.0), (All-drop x n t o.0, rest.1))

length-insert_ordered : (x : Bytes × Row) (t : Table) → length (insert_ordered x t) ≡ suc (length t)
unfolding insert_ordered
length-insert_ordered (k, r) [] = refl
length-insert_ordered (k, r) ((j, s) ∷ t) = ground (arith, length-insert_ordered (k, r) t)

pub length-order_by_priority : (t : Table) → length (order_by_priority t) ≡ length t
unfolding order_by_priority
length-order_by_priority [] = refl
length-order_by_priority (x ∷ t) =
    length-insert_ordered x (order_by_priority t) ∙ ap suc (length-order_by_priority t)
