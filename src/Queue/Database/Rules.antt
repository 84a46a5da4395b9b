-- ===== src/Queue/Database/Rules.antt =====
-- Rules for the statements and transactions of internal/queue/queue.go: what holds after each of
-- their outcomes.
use mass.Prelude.{◌≡◌, refl, List, [], ◌∷◌, Bool, true, false, arith}
use mass.Queue.Database.{
  Db, Result, ok, err, panicked, M, ◌>>=◌, statement, in_tx, attempt, finish, begun,
}
use mass.Queue.Table.{Table}

-- What holds if the operation succeeds.
abbrev pub OnOk {ℓ} : {A : Type ℓ} → (A → Table → Type 0) → Result A → Type 0
OnOk P (ok a db) = P a db.rows
OnOk P (err db) = Unit
OnOk P (panicked db) = Unit

-- All or nothing: `P` if the operation succeeds, and the rows as they were if it does not.
abbrev pub Atomic {ℓ} : {A : Type ℓ} → (A → Table → Type 0) → Table → Result A → Type 0
Atomic P before (ok a db) = P a db.rows
Atomic P before (err db) = db.rows ≡ before
Atomic P before (panicked db) = db.rows ≡ before

-- An operation that cannot fail here.
abbrev pub Succeeds {ℓ} : {A : Type ℓ} → Result A → Type 0
Succeeds (ok a db) = Unit
Succeeds (err db) = ⊥
Succeeds (panicked db) = ⊥

Atomic-of_Succeeds {ℓ} :
    {A : Type ℓ} (Q : A → Table → Type 0) (before : Table) (r : Result A)
    → OnOk Q r × Succeeds r
    → Atomic Q before r
Atomic-of_Succeeds Q before (ok a db) h = h.0
Atomic-of_Succeeds Q before (err db) h = absurd h.1
Atomic-of_Succeeds Q before (panicked db) h = absurd h.1

-- The second half of a bind.
after {ℓ κ} : {A : Type ℓ} {B : Type κ} → (A → M B) → Result A → Result B
after k (ok a db) = k a db
after k (err db) = err db
after k (panicked db) = panicked db

bind-after {ℓ κ} :
    {A : Type ℓ} {B : Type κ} (m : M A) (k : A → M B) (db : Db) → (m >>= k) db ≡ after k (m db)
unfolding after
bind-after m k db = ground arith

OnOk-after {ℓ κ} :
    {A : Type ℓ} {B : Type κ} (P : A → Table → Type 0) (Q : B → Table → Type 0) (k : A → M B)
    (r : Result A)
    → OnOk P r
    → ((a : A) (db' : Db) → P a db'.rows → OnOk Q (k a db'))
    → OnOk Q (after k r)
unfolding after
OnOk-after P Q k (ok a db) h next = next a db h
OnOk-after P Q k (err db) h next = tt
OnOk-after P Q k (panicked db) h next = tt

pub OnOk-bind {ℓ κ} :
    {A : Type ℓ} {B : Type κ} (P : A → Table → Type 0) (Q : B → Table → Type 0) (m : M A)
    (k : A → M B) (db : Db)
    → OnOk P (m db)
    → ((a : A) (db' : Db) → P a db'.rows → OnOk Q (k a db'))
    → OnOk Q ((m >>= k) db)
OnOk-bind P Q m k db h next = rw (bind-after m k db) (OnOk-after P Q k (m db) h next)

Atomic-after {ℓ κ} :
    {A : Type ℓ} {B : Type κ} (P : A → Table → Type 0) (Q : B → Table → Type 0) (k : A → M B)
    (before : Table) (r : Result A)
    → Atomic P before r
    → ((a : A) (db' : Db) → P a db'.rows → OnOk Q (k a db') × Succeeds (k a db'))
    → Atomic Q before (after k r)
unfolding after
Atomic-after P Q k before (ok a db) h next = Atomic-of_Succeeds Q before (k a db) (next a db h)
Atomic-after P Q k before (err db) h next = h
Atomic-after P Q k before (panicked db) h next = h

-- An operation that cannot fail may follow one that is all or nothing.
pub Atomic-bind {ℓ κ} :
    {A : Type ℓ} {B : Type κ} (P : A → Table → Type 0) (Q : B → Table → Type 0) (m : M A)
    (k : A → M B) (before : Table) (db : Db)
    → Atomic P before (m db)
    → ((a : A) (db' : Db) → P a db'.rows → OnOk Q (k a db') × Succeeds (k a db'))
    → Atomic Q before ((m >>= k) db)
Atomic-bind P Q m k before db h next =
    rw (bind-after m k db) (Atomic-after P Q k before (m db) h next)

OnOk-of_Atomic {ℓ} :
    {A : Type ℓ} (P : A → Table → Type 0) (before : Table) (r : Result A)
    → Atomic P before r
    → OnOk P r
OnOk-of_Atomic P before (ok a db) h = h
OnOk-of_Atomic P before (err db) h = tt
OnOk-of_Atomic P before (panicked db) h = tt

pub statement-Atomic {ℓ} :
    {A : Type ℓ} (P : A → Table → Type 0) (f : Table → A × Table) (db : Db)
    → P (f db.rows).0 (f db.rows).1
    → Atomic P db.rows (statement f db)
unfolding statement
statement-Atomic {A = A} P f db h = go db.faults
  where
    go : (faults : List Bool) → Atomic P db.rows (attempt f faults db)
    go [] = h
    go (true ∷ faults) = refl
    go (false ∷ faults) = h

-- The outcomes of a statement.
pub statement-cases {ℓ} :
    {A : Type ℓ} (P : Result A → Type 0) (f : Table → A × Table) (db : Db)
    → ((faults : List Bool)
        → P (ok (f db.rows).0 (record db { rows = (f db.rows).1; faults = faults })))
    → ((faults : List Bool) → P (err (record db { faults = faults })))
    → P (statement f db)
unfolding statement
statement-cases {A = A} P f db runs refused = go db.faults
  where
    go : (faults : List Bool) → P (attempt f faults db)
    go [] = runs db.faults
    go (true ∷ faults) = refused faults
    go (false ∷ faults) = runs faults

pub statement-OnOk {ℓ} :
    {A : Type ℓ} (P : A → Table → Type 0) (f : Table → A × Table) (db : Db)
    → P (f db.rows).0 (f db.rows).1
    → OnOk P (statement f db)
statement-OnOk P f db h = OnOk-of_Atomic P db.rows (statement f db) (statement-Atomic P f db h)

finish-Atomic {ℓ} :
    {A : Type ℓ} (P : A → Table → Type 0) (before : Table) (r : Result A)
    → OnOk P r
    → Atomic P before (finish before r)
unfolding finish statement
finish-Atomic P before (ok a db) h = ground (arith, h)
finish-Atomic P before (err db) h = refl
finish-Atomic P before (panicked db) h = refl

begun-Atomic {ℓ} :
    {A : Type ℓ} (P : A → Table → Type 0) (fn : M A) (before : Table) (r : Result (Unit {0}))
    → ((inside : Db) → inside.rows ≡ before → OnOk P (fn inside))
    → Atomic (λ _ t. t ≡ before) before r
    → Atomic P before (begun before fn r)
unfolding begun
begun-Atomic P fn before (ok _ db) h e = finish-Atomic P before (fn db) (h db e)
begun-Atomic P fn before (err db) h e = e
begun-Atomic P fn before (panicked db) h e = e

-- A transaction either does all that its body did, or leaves the rows as they were, wherever a
-- statement, the commit or a panic breaks it off.
pub in_tx-Atomic {ℓ} :
    {A : Type ℓ} (P : A → Table → Type 0) (fn : M A) (db : Db)
    → ((inside : Db) → inside.rows ≡ db.rows → OnOk P (fn inside))
    → Atomic P db.rows (in_tx fn db)
unfolding in_tx
in_tx-Atomic P fn db h =
    begun-Atomic P fn db.rows _ h
      (statement-Atomic {A = Unit {0}} (λ _ t. t ≡ db.rows) (λ t. (tt, t)) db refl)

pub Atomic-map {ℓ} :
    {A : Type ℓ} (P Q : A → Table → Type 0) (before : Table) (r : Result A)
    → Atomic P before r
    → ((a : A) (t : Table) → P a t → Q a t)
    → Atomic Q before r
Atomic-map P Q before (ok a db) h weaken = weaken a db.rows h
Atomic-map P Q before (err db) h weaken = h
Atomic-map P Q before (panicked db) h weaken = h

-- Where nothing fails, a statement does what it says.
pub statement_free {ℓ} :
    {A : Type ℓ} (f : Table → A × Table) (db : Db)
    → db.faults ≡ []
    → statement f db ≡ ok (f db.rows).0 (record db { rows = (f db.rows).1 })
unfolding statement
statement_free f db e = rw (e, attempt)

pub in_tx_free {ℓ} :
    {A : Type ℓ} (fn : M A) (db : Db) (a : A) (after_fn : Db)
    → db.faults ≡ []
    → fn db ≡ ok a after_fn
    → after_fn.faults ≡ []
    → in_tx fn db ≡ ok a after_fn
unfolding in_tx begun finish
in_tx_free fn db a after_fn none_before runs none_after =
    rw (statement_free {A = Unit {0}} (λ t. (tt, t)) db none_before, runs)
      (rw (statement_free {A = Unit {0}} (λ t. (tt, t)) after_fn none_after, finish))

-- A bind behind an operation that succeeds.
pub bind_ok {ℓ κ} :
    {A : Type ℓ} {B : Type κ} (m : M A) (k : A → M B) (db : Db) (a : A) (db' : Db)
    → m db ≡ ok a db'
    → (m >>= k) db ≡ k a db'
bind_ok m k db a db' e = rw (e, ◌>>=◌)

pub OnOk-map {ℓ} :
    {A : Type ℓ} (P Q : A → Table → Type 0) (r : Result A)
    → OnOk P r
    → ((a : A) (t : Table) → P a t → Q a t)
    → OnOk Q r
OnOk-map P Q (ok a db) h weaken = weaken a db.rows h
OnOk-map P Q (err db) h weaken = tt
OnOk-map P Q (panicked db) h weaken = tt
