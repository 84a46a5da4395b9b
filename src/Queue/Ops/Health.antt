-- ===== src/Queue/Ops/Health.antt =====
-- Where the database refuses no statement, the calls of internal/queue/queue.go leave it that way.
use mass.Prelude.{ℕ, ◌≡◌, refl, [], Option, none, some, Bytes}
use mass.Queue.Database.{Db, Result, ok, err, panicked, Goqite, ◌>>=◌, ◌>>◌, signal}
use mass.Queue.Database.Rules.{statement_free, in_tx_free}
use mass.Queue.Envelope.{Proto, Envelope, marshal}
use mass.Queue.Ops.{delete, delete_both, submit, send_envelope}

abbrev pub database_of {ℓ} : {A : Type ℓ} → Result A → Db
database_of (ok a db) = db
database_of (err db) = db
database_of (panicked db) = db

abbrev pub IsFree : Db → Type 0
IsFree db = db.faults ≡ []

module _ (g : Goqite) (p : Proto) where
  pub delete-IsFree :
      (queue id : Bytes) (db : Db) → IsFree db → IsFree (database_of (delete g queue id db))
  unfolding delete
  delete-IsFree queue id db free =
      rw (statement_free {A = Unit {0}} (λ t. (tt, Goqite.delete g queue id t)) db free) free

  pub delete_both-free :
      (queue id other other_id : Bytes) (db : Db)
      → IsFree db
      → delete_both g queue id other other_id db
        ≡ ok tt
            (record db { rows = Goqite.delete g other other_id (Goqite.delete g queue id db.rows) })
  unfolding delete_both delete
  delete_both-free queue id other other_id db free =
      let first = statement_free {A = Unit {0}} (λ t. (tt, Goqite.delete g queue id t)) db free in
      let middle : Db = record db { rows = Goqite.delete g queue id db.rows } in
      let second =
        statement_free {A = Unit {0}} (λ t. (tt, Goqite.delete g other other_id t)) middle free in
      in_tx_free {A = Unit {0}} (λ db. (delete g queue id >> delete g other other_id) db) db tt
        (record middle { rows = Goqite.delete g other other_id middle.rows }) free
        (rw (first, ◌>>◌) second) free

  pub delete_both-IsFree :
      (queue id other other_id : Bytes) (db : Db)
      → IsFree db
      → IsFree (database_of (delete_both g queue id other other_id db))
  delete_both-IsFree queue id other other_id db free =
      rw (delete_both-free queue id other other_id db free) free

  submitted-IsFree :
      (queue : Bytes) (env : Envelope p) (now : ℕ) (o : Option Bytes) (db : Db)
      → marshal p env ≡ o
      → IsFree db
      → IsFree (database_of (submit g p queue env now db))
  unfolding submit send_envelope signal
  submitted-IsFree queue env now none db e free = rw (e, send_envelope) free
  submitted-IsFree queue env now (some body) db e free =
      rw (e, send_envelope)
        (rw (statement_free (Goqite.send g queue body env.priority now) db free, ◌>>=◌) free)

  pub submit-IsFree :
      (queue : Bytes) (env : Envelope p) (now : ℕ) (db : Db)
      → IsFree db
      → IsFree (database_of (submit g p queue env now db))
  submit-IsFree queue env now db free = submitted-IsFree queue env now (marshal p env) db refl free
