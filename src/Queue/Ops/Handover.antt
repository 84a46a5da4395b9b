-- ===== src/Queue/Ops/Handover.antt =====
-- `LeaseAndSubmit`, `DeleteBoth`, `DeleteAndReleaseLease` and `ReleaseLeaseAndDelete` of
-- internal/queue/queue.go: the two rows of a job, its anchor in the global queue and its row in a
-- worker's queue, change together or not at all.
use mass.Prelude.{
  ℕ, ◌+◌, ◌≡◌, refl, sym, ap, ◌∙◌, true, Option, none, some, Bytes, bytes_eq, if◌then◌else◌, arith,
}
use mass.Prelude.Map.{lookup}
use mass.Queue.Database.{Db, M, ◌>>=◌, ◌>>◌, return, statement, in_tx, signal, Goqite, without}
use mass.Queue.Database.Rules.{
  OnOk, Atomic, Succeeds, OnOk-bind, OnOk-map, Atomic-map, Atomic-bind, statement-OnOk,
  statement-Atomic, in_tx-Atomic,
}
use mass.Queue.Envelope.{Proto, Envelope, marshal}
use mass.Queue.Ops.{
  in_queue, expired_timeout, reset_to, lease_to, lease_by_id_tx, lease_and_submit, submit_leased,
  send_envelope, submit, signal_some, delete, delete_both, delete_and_release_lease,
  release_lease_and_delete,
}
use mass.Queue.Ops.Leases.{Leased, lease_by_id_tx-OnOk}
use mass.Queue.Ops.Moves.{sent}
use mass.Queue.Table.{Row, Table, is_pending, update_by_id}
use mass.Queue.Table.Statements.{Same, changed, returned, lookup-update_by_id}

module _ (g : Goqite) (p : Proto) where
  -- What `LeaseAndSubmit` may return, and leave behind: the key of the new row, if it was made.
  abbrev pub Submitted :
      Bytes → Bytes → ℕ → Bytes → Envelope p → ℕ → Table → Option Bytes → Table → Type 0
  Submitted queue id dur dst env now t none u =
      (returned (is_pending queue now) (lookup id t) ≡ none) × Same u t
  Submitted queue id dur dst env now t (some key) u =
      (r : Row) × (body : Bytes) × (lookup id t ≡ some r)
      × (is_pending queue now r ≡ true)
      × (marshal p env ≡ some body)
      × (lookup key t ≡ none)
      × ((j : Bytes)
          → lookup j u ≡ (
              if bytes_eq key j
              then some (sent dst body env.priority now)
              else if bytes_eq id j
              then some (lease_to (now + dur) r)
              else lookup j t))

  -- What sending the envelope returns and leaves behind.
  abbrev pub Sent : Bytes → Envelope p → ℕ → Table → Bytes → Table → Type 0
  Sent dst env now t key u =
      (body : Bytes) × (marshal p env ≡ some body)
      × (lookup key t ≡ none)
      × ((j : Bytes)
          → lookup j u
            ≡ (if bytes_eq key j then some (sent dst body env.priority now) else lookup j t))

  send_envelope-OnOk :
      (dst : Bytes) (env : Envelope p) (now : ℕ) (o : Option Bytes) (db : Db)
      → marshal p env ≡ o
      → OnOk (Sent dst env now db.rows) (send_envelope g p dst env now o db)
  unfolding send_envelope
  send_envelope-OnOk dst env now none db e = tt
  send_envelope-OnOk dst env now (some body) db e =
      statement-OnOk (Sent dst env now db.rows) (Goqite.send g dst body env.priority now) db (
        body,
        e,
        Goqite.send_fresh g dst body env.priority now db.rows,
        Goqite.lookup-send g dst body env.priority now db.rows,
      )

  send_envelope-Atomic :
      (dst : Bytes) (env : Envelope p) (now : ℕ) (o : Option Bytes) (db : Db)
      → marshal p env ≡ o
      → Atomic (Sent dst env now db.rows) db.rows (send_envelope g p dst env now o db)
  unfolding send_envelope
  send_envelope-Atomic dst env now none db e = refl
  send_envelope-Atomic dst env now (some body) db e =
      statement-Atomic (Sent dst env now db.rows) (Goqite.send g dst body env.priority now) db (
        body,
        e,
        Goqite.send_fresh g dst body env.priority now db.rows,
        Goqite.lookup-send g dst body env.priority now db.rows,
      )

  -- `Submit` inserts the envelope under a fresh key, or changes nothing.
  pub submit-Sent :
      (queue : Bytes) (env : Envelope p) (now : ℕ) (db : Db)
      → Atomic (Sent queue env now db.rows) db.rows (submit g p queue env now db)
  unfolding submit signal
  submit-Sent queue env now db =
      Atomic-bind (Sent queue env now db.rows) (Sent queue env now db.rows)
        (send_envelope g p queue env now (marshal p env)) (λ id. do signal; return id) db.rows db
        (send_envelope-Atomic queue env now (marshal p env) db refl) (λ id db' h. (h, tt))

  submit_leased-OnOk :
      (queue id : Bytes) (dur : ℕ) (dst : Bytes) (env : Envelope p) (now : ℕ) (before : Table)
      (o : Option Bytes) (db : Db)
      → Leased queue id dur now before o db.rows
      → OnOk (Submitted queue id dur dst env now before) (submit_leased g p dst env now o db)
  unfolding submit_leased
  submit_leased-OnOk queue id dur dst env now before none db h = h
  submit_leased-OnOk queue id dur dst env now before (some _) db (r, found, pending, same, view) =
      OnOk-bind (Sent dst env now db.rows) (Submitted queue id dur dst env now before)
        (send_envelope g p dst env now (marshal p env)) (λ key. return (some key)) db
        (send_envelope-OnOk dst env now (marshal p env) db refl)
        (λ key db' h.
          (r, h.0, found, pending, h.1, ground (arith, h.2, view key), λ j. h.3 j ∙ rw (view j)))

  -- `LeaseAndSubmit` leases the row and inserts the envelope's bytes into the other queue, both or
  -- neither: it names the new row's key exactly when the row was pending, the row is now leased and
  -- stays under its own key, and the new row, under a fresh key, carries the marshalled envelope and
  -- its priority. A row that was not pending gives nothing and changes nothing; so does every
  -- failure, a panic of `Marshal` between the two statements included.
  pub lease_and_submit-Atomic :
      (queue id : Bytes) (dur : ℕ) (dst : Bytes) (env : Envelope p) (now : ℕ) (db : Db)
      → Atomic
          (Submitted queue id dur dst env now db.rows)
          db.rows
          (lease_and_submit g p queue id dur dst env now db)
  unfolding lease_and_submit signal_some signal
  lease_and_submit-Atomic queue id dur dst env now db =
      Atomic-bind P P (in_tx both) (signal_some g p) db.rows db (in_tx-Atomic P both db inside)
        signals
    where
      P : Option Bytes → Table → Type 0
      P = Submitted queue id dur dst env now db.rows

      both : M (Option Bytes)
      both = do leased ← lease_by_id_tx queue id dur now; submit_leased g p dst env now leased

      inside : (db' : Db) → db'.rows ≡ db.rows → OnOk P (both db')
      inside db' e =
          OnOk-bind (Leased queue id dur now db.rows) P (lease_by_id_tx queue id dur now)
            (submit_leased g p dst env now) db' (lease_by_id_tx-OnOk queue id dur now db.rows db' e)
            (submit_leased-OnOk queue id dur dst env now db.rows)

      signals :
          (o : Option Bytes) (db' : Db)
          → P o db'.rows
          → OnOk P (signal_some g p o db') × Succeeds (signal_some g p o db')
      signals none db' h = (h, tt)
      signals (some key) db' h = (h, tt)

-- One row under a DELETE that names its queue, and under a release that does.
abbrev pub dropped : Bytes → Bytes → Bytes → Option Row → Option Row
dropped queue id j o = if bytes_eq id j then without queue o else o

abbrev pub freed : Bytes → Bytes → ℕ → Bytes → Option Row → Option Row
freed queue id now j o =
    if bytes_eq id j then changed (in_queue queue) (reset_to (expired_timeout now)) o else o

abbrev pub Views : (Bytes → Option Row → Option Row) → Table → Table → Type 0
Views f t u = (j : Bytes) → lookup j u ≡ f j (lookup j t)

freed-dropped :
    (queue id other other_id : Bytes) (now : ℕ) (j : Bytes) (o : Option Row)
    → freed other other_id now j (dropped queue id j o)
      ≡ dropped queue id j (freed other other_id now j o)
freed-dropped queue id other other_id now j none = ground arith
freed-dropped queue id other other_id now j (some r) = ground arith

module _ (g : Goqite) where
  delete-Views :
      (queue id : Bytes) (db : Db)
      → OnOk (λ _. Views (dropped queue id) db.rows) (delete g queue id db)
  unfolding delete
  delete-Views queue id db =
      statement-OnOk (λ _. Views (dropped queue id) db.rows) (λ t. (tt, Goqite.delete g queue id t))
        db (Goqite.lookup-delete g queue id db.rows)

  pub delete-Atomic :
      (queue id : Bytes) (db : Db)
      → Atomic (λ _. Views (dropped queue id) db.rows) db.rows (delete g queue id db)
  unfolding delete
  delete-Atomic queue id db =
      statement-Atomic (λ _. Views (dropped queue id) db.rows)
        (λ t. (tt, Goqite.delete g queue id t)) db (Goqite.lookup-delete g queue id db.rows)

  free-Views :
      (queue id : Bytes) (now : ℕ) (db : Db)
      → OnOk
          (λ _. Views (freed queue id now) db.rows)
          (statement (update_by_id id (in_queue queue) (reset_to (expired_timeout now))) db)
  free-Views queue id now db =
      statement-OnOk (λ _. Views (freed queue id now) db.rows)
        (update_by_id id (in_queue queue) (reset_to (expired_timeout now))) db
        (λ j. lookup-update_by_id id j (in_queue queue) (reset_to (expired_timeout now)) db.rows)

  -- Two statements of a transaction, the views of each known.
  two-Views {ℓ κ} :
      {A : Type ℓ} {B : Type κ} (f h : Bytes → Option Row → Option Row) (first : M A) (second : M B)
      (db : Db)
      → ((db' : Db) → OnOk (λ _. Views f db'.rows) (first db'))
      → ((db' : Db) → OnOk (λ _. Views h db'.rows) (second db'))
      → Atomic (λ _. Views (λ j o. h j (f j o)) db.rows) db.rows (in_tx (first >>= λ _. second) db)
  two-Views f h first second db one two =
      in_tx-Atomic (λ _. Views (λ j o. h j (f j o)) db.rows) (first >>= λ _. second) db
        λ db' e.
          OnOk-bind (λ _. Views f db.rows) (λ _. Views (λ j o. h j (f j o)) db.rows) first
            (λ _. second) db'
            (OnOk-map (λ _. Views f db'.rows) (λ _. Views f db.rows) (first db') (one db')
              λ _ u v j. v j ∙ ap (λ t. f j (lookup j t)) e)
            λ _ db'' v.
              OnOk-map (λ _. Views h db''.rows) (λ _. Views (λ j o. h j (f j o)) db.rows)
                (second db'') (two db'') λ _ u w j. w j ∙ ap (h j) (v j)

  signal-Views :
      (f : Bytes → Option Row → Option Row) (before : Table) (db : Db)
      → Views f before db.rows
      → OnOk (λ _. Views f before) (signal db) × Succeeds (signal db)
  unfolding signal
  signal-Views f before db v = (v, tt)

  -- `DeleteBoth` removes the two rows, each from its queue, and touches no other; or, whatever
  -- fails, it leaves every row as it was.
  pub delete_both-Atomic :
      (queue id other other_id : Bytes) (db : Db)
      → Atomic
          (λ _. Views (λ j o. dropped other other_id j (dropped queue id j o)) db.rows)
          db.rows
          (delete_both g queue id other other_id db)
  unfolding delete_both
  delete_both-Atomic queue id other other_id db =
      two-Views (dropped queue id) (dropped other other_id) (delete g queue id)
        (delete g other other_id) db (delete-Views queue id) (delete-Views other other_id)

  -- The row deleted, and its anchor free again.
  abbrev pub handed : Bytes → Bytes → Bytes → Bytes → ℕ → Bytes → Option Row → Option Row
  handed queue id other other_id now j o = freed other other_id now j (dropped queue id j o)

  -- `DeleteAndReleaseLease` and `ReleaseLeaseAndDelete` run the same two statements in opposite
  -- orders and come to the same: the row is deleted from its queue, its anchor in the other queue
  -- gets an expired timeout and a fresh delivery budget, no other row changes, and whatever fails,
  -- nothing does.
  pub handover-Atomic :
      (queue id other other_id : Bytes) (now : ℕ) (db : Db)
      → Atomic
          (λ _. Views (handed queue id other other_id now) db.rows)
          db.rows
          (delete_and_release_lease g queue id other other_id now db)
        × Atomic
            (λ _. Views (handed queue id other other_id now) db.rows)
            db.rows
            (release_lease_and_delete g queue id other other_id now db)
  unfolding delete_and_release_lease release_lease_and_delete
  handover-Atomic queue id other other_id now db = (
    Atomic-bind R P (in_tx (do delete g queue id; free)) (λ _. signal) db.rows db
        (two-Views (dropped queue id) (freed other other_id now) (delete g queue id) free db
          (delete-Views queue id) (free-Views other other_id now))
        (λ _ db'. signal-Views f db.rows db'),
    Atomic-bind P P (in_tx (do _ ← free; delete g queue id)) (λ _. signal) db.rows db
        (Atomic-map (λ _. Views swapped db.rows) P db.rows _
          (two-Views (freed other other_id now) (dropped queue id) free (delete g queue id) db
            (free-Views other other_id now) (delete-Views queue id))
          (λ _ u v j. v j ∙ sym (freed-dropped queue id other other_id now j (lookup j db.rows))))
        (λ _ db'. signal-Views f db.rows db'),
  )
    where
      f : Bytes → Option Row → Option Row
      f = handed queue id other other_id now

      swapped : Bytes → Option Row → Option Row
      swapped j o = dropped queue id j (freed other other_id now j o)

      P : Unit {0} → Table → Type 0
      P _ = Views f db.rows

      R : Option Bytes → Table → Type 0
      R _ = Views f db.rows

      free : M (Option Bytes)
      free = statement (update_by_id other_id (in_queue other) (reset_to (expired_timeout now)))
