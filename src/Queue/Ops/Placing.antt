-- ===== src/Queue/Ops/Placing.antt =====
-- What the methods of internal/queue/queue.go may add to the table: rows appear only by `Submit`.
use mass.Prelude.{
  ℕ, ◌≡◌, refl, sym, ap, ◌∙◌, true, ◌⊎◌, inl, inr, Option, none, some, Bytes, bytes_eq,
  if◌then◌else◌, Bool-cases, arith,
}
use mass.Prelude.Map.{lookup}
use mass.Queue.Database.{Db, Result, ok, err, panicked, ◌>>=◌, Goqite, signal}
use mass.Queue.Database.Rules.{Atomic, statement-cases}
use mass.Queue.Envelope.{Proto, Envelope, marshal}
use mass.Queue.Ops.{submit, send_envelope}
use mass.Queue.Ops.Handover.{Views}
use mass.Queue.Table.{Row, Table}

-- The rows that an operation leaves, however it ends.
abbrev pub rows_of {ℓ} : {A : Type ℓ} → Result A → Table
rows_of (ok a db) = db.rows
rows_of (err db) = db.rows
rows_of (panicked db) = db.rows

-- Every row of `u` has its key from `t`.
abbrev pub Shrinks : Table → Table → Type 0
Shrinks t u =
    (k : Bytes) (row : Row) → lookup k u ≡ some row → (old : Row) × (lookup k t ≡ some old)

-- Every row of `u` has its key from `t`, or is one that `P` allows.
abbrev pub OnlyPlaces : (Row → Type 0) → Table → Table → Type 0
OnlyPlaces P t u =
    (k : Bytes) (row : Row)
    → lookup k u ≡ some row
    → ((old : Row) × (lookup k t ≡ some old)) ⊎ P row

found_before :
    (k : Bytes) (row : Row) (f : Bytes → Option Row → Option Row) (o u : Option Row)
    → f k none ≡ none
    → u ≡ f k o
    → u ≡ some row
    → (old : Row) × (o ≡ some old)
found_before k row f none u gone e here = absurd (cc (gone, e, here))
found_before k row f (some old) u gone e here = (old, refl)

pub Shrinks-rows_of {ℓ} :
    {A : Type ℓ} (f : Bytes → Option Row → Option Row) (t : Table) (r : Result A)
    → ((k : Bytes) → f k none ≡ none)
    → Atomic (λ _. Views f t) t r
    → Shrinks t (rows_of r)
Shrinks-rows_of f t (ok a db) gone v k row here =
    found_before k row f (lookup k t) (lookup k db.rows) (gone k) (v k) here
Shrinks-rows_of f t (err db) gone e k row here = (row, sym (ap (lookup k) e) ∙ here)
Shrinks-rows_of f t (panicked db) gone e k row here = (row, sym (ap (lookup k) e) ∙ here)

module _ (g : Goqite) (p : Proto) where
  -- A row that carries the envelope into the queue.
  abbrev pub IsSubmitted : Bytes → Envelope p → Row → Type 0
  IsSubmitted queue env row = (row.queue ≡ queue) × (marshal p env ≡ some row.body)

  sent_row :
      (key k : Bytes) (o u : Option Row) (new row : Row)
      → u ≡ (if bytes_eq key k then some new else o)
      → u ≡ some row
      → ((old : Row) × (o ≡ some old)) ⊎ (row ≡ new)
  sent_row key k o u new row e here = elim (Bool-cases (bytes_eq key k)) [
    | inl same ↦ inr (ground (arith, e, here, same))
    | inr other ↦ inl (row, ground (arith, e, here, other))
  ]

  sent_by :
      (queue : Bytes) (env : Envelope p) (now : ℕ) (o : Option Bytes) (db : Db)
      → marshal p env ≡ o
      → Atomic
          (λ _. OnlyPlaces (IsSubmitted queue env) db.rows)
          db.rows
          ((send_envelope g p queue env now o >>= λ id.
              (λ db'. ok id (record db' { notified = true })))
            db)
  unfolding send_envelope
  sent_by queue env now none db e = refl
  sent_by queue env now (some body) db e =
      statement-cases
        (λ r.
          Atomic (λ _. OnlyPlaces (IsSubmitted queue env) db.rows) db.rows
            (elim r [
              | ok id db' ↦ ok id (record db' { notified = true })
              | err db' ↦ err db'
              | panicked db' ↦ panicked db'
            ]))
        (Goqite.send g queue body env.priority now) db
        (λ faults k row here.
          let sent = Goqite.send g queue body env.priority now db.rows in
          elim (sent_row sent.0 k (lookup k db.rows) (lookup k sent.1) _ row
            (Goqite.lookup-send g queue body env.priority now db.rows k) here) [
              | inl old ↦ inl old
              | inr new ↦
                  inr (
                    ap (λ (r : Row). r.queue) new,
                    e ∙ ap some (sym (ap (λ (r : Row). r.body) new)),
                  )
            ])
        (λ faults. refl)

  -- `Submit` either adds the one row, or, if it fails, changes nothing.
  pub submit-Atomic :
      (queue : Bytes) (env : Envelope p) (now : ℕ) (db : Db)
      → Atomic
          (λ _. OnlyPlaces (IsSubmitted queue env) db.rows)
          db.rows
          (submit g p queue env now db)
  unfolding submit signal
  submit-Atomic queue env now db = sent_by queue env now (marshal p env) db refl

  Atomic-places {ℓ} :
      {A : Type ℓ} (P : Row → Type 0) (t : Table) (r : Result A)
      → Atomic (λ _. OnlyPlaces P t) t r
      → OnlyPlaces P t (rows_of r)
  Atomic-places P t (ok a db) h k row here = h k row here
  Atomic-places P t (err db) e k row here = inl (row, sym (ap (lookup k) e) ∙ here)
  Atomic-places P t (panicked db) e k row here = inl (row, sym (ap (lookup k) e) ∙ here)

  pub submit-OnlyPlaces :
      (queue : Bytes) (env : Envelope p) (now : ℕ) (db : Db)
      → OnlyPlaces (IsSubmitted queue env) db.rows (rows_of (submit g p queue env now db))
  submit-OnlyPlaces queue env now db =
      Atomic-places (IsSubmitted queue env) db.rows (submit g p queue env now db)
        (submit-Atomic queue env now db)
