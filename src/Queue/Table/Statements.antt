-- ===== src/Queue/Table/Statements.antt =====
-- What a keyed UPDATE or DELETE of internal/queue/queue.go does to every row of the table.
use mass.Prelude.{
  ◌≡◌, refl, Bool, true, Option, none, some, Bytes, bytes_eq, bytes_eq_iff, if◌then◌else◌,
  Option-cases, Bool-cases, inl, inr, arith,
}
use mass.Prelude.Map.{lookup, lookup-insert, lookup-erase}
use mass.Queue.Table.{Row, Table, update_by_id, delete_by_id, update_found, delete_found}

-- A row after an UPDATE with this test.
abbrev pub changed : (Row → Bool) → (Row → Row) → Option Row → Option Row
changed test change none = none
changed test change (some r) = if test r then some (change r) else some r

-- A row after a DELETE with this test.
abbrev pub left : (Row → Bool) → Option Row → Option Row
left test none = none
left test (some r) = if test r then none else some r

-- What RETURNING gives.
abbrev pub returned : (Row → Bool) → Option Row → Option Bytes
returned test none = none
returned test (some r) = if test r then some r.body else none

pub lookup-update_by_id :
    (id j : Bytes) (test : Row → Bool) (change : Row → Row) (t : Table)
    → lookup j (update_by_id id test change t).1
      ≡ (if bytes_eq id j then changed test change (lookup j t) else lookup j t)
unfolding update_by_id
lookup-update_by_id id j test change t =
    let same = bytes_eq_iff id j in
    elim (Option-cases (lookup id t)) [
      | inl e ↦ ground (arith, same, e)
      | inr (r, e) ↦ ground (arith, same, e, lookup-insert id j (change r) t)
    ]

pub lookup-delete_by_id :
    (id j : Bytes) (test : Row → Bool) (t : Table)
    → lookup j (delete_by_id id test t).1
      ≡ (if bytes_eq id j then left test (lookup j t) else lookup j t)
unfolding delete_by_id
lookup-delete_by_id id j test t =
    let same = bytes_eq_iff id j in
    elim (Option-cases (lookup id t)) [
      | inl e ↦ ground (arith, same, e)
      | inr (r, e) ↦ ground (arith, same, e, lookup-erase id j t)
    ]

pub update_by_id-returned :
    (id : Bytes) (test : Row → Bool) (change : Row → Row) (t : Table)
    → (update_by_id id test change t).0 ≡ returned test (lookup id t)
unfolding update_by_id
update_by_id-returned id test change t = ground arith

pub delete_by_id-returned :
    (id : Bytes) (test : Row → Bool) (t : Table)
    → (delete_by_id id test t).0 ≡ returned test (lookup id t)
unfolding delete_by_id
delete_by_id-returned id test t = ground arith

-- The same rows under the same keys.
abbrev pub Same : Table → Table → Type 0
Same t u = (j : Bytes) → lookup j t ≡ lookup j u

-- What an UPDATE … RETURNING body returns, and leaves behind: nothing where no row passes, and
-- otherwise the body of the row, which alone is changed.
abbrev pub Updated : Bytes → (Row → Bool) → (Row → Row) → Table → Option Bytes → Table → Type 0
Updated id test change t none u = (returned test (lookup id t) ≡ none) × Same u t
Updated id test change t (some body) u =
    (r : Row) × (lookup id t ≡ some r)
    × (test r ≡ true)
    × (body ≡ r.body)
    × ((j : Bytes) → lookup j u ≡ (if bytes_eq id j then some (change r) else lookup j t))

-- The same of a DELETE … RETURNING body.
abbrev pub Deleted : Bytes → (Row → Bool) → Table → Option Bytes → Table → Type 0
Deleted id test t none u = (returned test (lookup id t) ≡ none) × Same u t
Deleted id test t (some body) u =
    (r : Row) × (lookup id t ≡ some r)
    × (test r ≡ true)
    × (body ≡ r.body)
    × ((j : Bytes) → lookup j u ≡ (if bytes_eq id j then none else lookup j t))

update_found-Updated :
    (id : Bytes) (test : Row → Bool) (change : Row → Row) (t : Table) (o : Option Row)
    → lookup id t ≡ o
    → Updated id test change t
        (update_found id test change o t).0
        (update_found id test change o t).1
unfolding update_found
update_found-Updated id test change t none e = (rw e, λ j. refl)
update_found-Updated id test change t (some r) e = elim (Bool-cases (test r)) [
  | inl passes ↦
      rw (passes, update_found) (r, e, passes, refl, λ j. lookup-insert id j (change r) t)
  | inr fails ↦ rw (fails, update_found) ((rw e (rw fails)), λ j. refl)
]

delete_found-Deleted :
    (id : Bytes) (test : Row → Bool) (t : Table) (o : Option Row)
    → lookup id t ≡ o
    → Deleted id test t (delete_found id test o t).0 (delete_found id test o t).1
unfolding delete_found
delete_found-Deleted id test t none e = (rw e, λ j. refl)
delete_found-Deleted id test t (some r) e = elim (Bool-cases (test r)) [
  | inl passes ↦ rw (passes, delete_found) (r, e, passes, refl, λ j. lookup-erase id j t)
  | inr fails ↦ rw (fails, delete_found) ((rw e (rw fails)), λ j. refl)
]

pub update_by_id-Updated :
    (id : Bytes) (test : Row → Bool) (change : Row → Row) (t : Table)
    → Updated id test change t (update_by_id id test change t).0 (update_by_id id test change t).1
unfolding update_by_id
update_by_id-Updated id test change t = update_found-Updated id test change t (lookup id t) refl

pub delete_by_id-Deleted :
    (id : Bytes) (test : Row → Bool) (t : Table)
    → Deleted id test t (delete_by_id id test t).0 (delete_by_id id test t).1
unfolding delete_by_id
delete_by_id-Deleted id test t = delete_found-Deleted id test t (lookup id t) refl
