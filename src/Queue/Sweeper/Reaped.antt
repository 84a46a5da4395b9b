-- ===== src/Queue/Sweeper/Reaped.antt =====
-- internal/queue/sweeper.go, `reapOne`: what becomes of one abandoned message.
use mass.Prelude.{
  ◌≡◌, refl, ap, ◌∙◌, true, false, [], ◌∷◌, Option, none, some, Bytes, bytes_eq, bytes_eq_iff,
  if◌then◌else◌, Bool-cases, ◌⊎◌, inl, inr, arith,
}
use mass.Prelude.Map.{lookup, insert, lookup-insert}
use mass.Queue.Database.{Db, Result, ok, err, panicked, Goqite}
use mass.Queue.Database.Rules.{Atomic}
use mass.Queue.Envelope.{Proto, is_empty}
use mass.Queue.Ops.Handover.{Views, dropped, delete-Atomic, delete_both-Atomic}
use mass.Queue.Results.{
  Stamp, ResultRow, ResultTable, Store, Outcome, did, failed, crashed, ◌>>=◌, lift, lifted,
  update_row, update, fail, get, is_terminal, error,
}
use mass.Queue.Results.Lifecycle.{exec-cases}
use mass.Queue.Sweeper.{
  abandoned_message, has_ended, names_of, record_failure, delete_message, reap_one,
}
use mass.Queue.Table.{Row, Message}

-- Results that have ended stay as they are.
abbrev pub Keeps : ResultTable → ResultTable → Type 0
Keeps t u =
    (j : Bytes) (r : ResultRow)
    → lookup j t ≡ some r
    → is_terminal r.status ≡ true
    → lookup j u ≡ some r

-- No result but that of `request_id` changes.
abbrev pub OnlyOf : Bytes → ResultTable → ResultTable → Type 0
OnlyOf request_id t u = (j : Bytes) → bytes_eq request_id j ≡ false → lookup j u ≡ lookup j t

-- The request's result has ended, unless it has none.
abbrev pub IsSettled : Option ResultRow → Type 0
IsSettled o = (o ≡ none) ⊎ (has_ended o ≡ true)

-- The message's row, and its anchor's, under the sweep.
abbrev pub removed : Bytes → Option Bytes → Bytes → Bytes → Bytes → Option Row → Option Row
removed queue none id anchor_id j o = dropped queue id j o
removed queue (some anchor_queue) id anchor_id j o =
    if is_empty anchor_id
    then dropped queue id j o
    else dropped anchor_queue anchor_id j (dropped queue id j o)

-- What `reapOne` leaves behind, by its outcome.
abbrev pub Reaped :
    Bytes → Option Bytes → Bytes → Bytes → Bytes → Store → Outcome (Unit {0}) → Type 0
Reaped queue anchor_queue id request_id anchor_id s (did _ s') =
    Keeps s.results s'.results
    × OnlyOf request_id s.results s'.results
    × IsSettled (lookup request_id s'.results)
    × Views (removed queue anchor_queue id anchor_id) s.db.rows s'.db.rows
Reaped queue anchor_queue id request_id anchor_id s (failed s') =
    Keeps s.results s'.results × OnlyOf request_id s.results s'.results × (s'.db.rows ≡ s.db.rows)
Reaped queue anchor_queue id request_id anchor_id s (crashed s') =
    Keeps s.results s'.results × OnlyOf request_id s.results s'.results × (s'.db.rows ≡ s.db.rows)

module _ (g : Goqite) (p : Proto) where
  lifted-Reaped :
      (queue : Bytes) (anchor_queue : Option Bytes) (id request_id anchor_id : Bytes) (s u : Store)
      (r : Result (Unit {0}))
      → Keeps s.results u.results
      → OnlyOf request_id s.results u.results
      → IsSettled (lookup request_id u.results)
      → u.db.rows ≡ s.db.rows
      → Atomic (λ _. Views (removed queue anchor_queue id anchor_id) u.db.rows) u.db.rows r
      → Reaped queue anchor_queue id request_id anchor_id s (lifted u.results r)
  unfolding lifted
  lifted-Reaped queue anchor_queue id request_id anchor_id s u (ok _ db) keeps only settled same v =
      (
        keeps,
        only,
        settled,
        λ j. v j ∙ ap (λ t. removed queue anchor_queue id anchor_id j (lookup j t)) same,
      )
  lifted-Reaped queue anchor_queue id request_id anchor_id s u (err db) keeps only settled same e =
      (keeps, only, e ∙ same)
  lifted-Reaped queue anchor_queue id request_id anchor_id s u (panicked db) keeps only settled same
        e =
      (keeps, only, e ∙ same)

  delete_message-Reaped :
      (queue : Bytes) (anchor_queue : Option Bytes) (id request_id anchor_id : Bytes) (s u : Store)
      → Keeps s.results u.results
      → OnlyOf request_id s.results u.results
      → IsSettled (lookup request_id u.results)
      → u.db.rows ≡ s.db.rows
      → Reaped queue anchor_queue id request_id anchor_id s
          (delete_message g p queue anchor_queue id anchor_id u)
  unfolding delete_message lift
  delete_message-Reaped queue none id request_id anchor_id s u keeps only settled same =
      lifted-Reaped queue none id request_id anchor_id s u _ keeps only settled same
        (delete-Atomic g queue id u.db)
  delete_message-Reaped queue (some q) id request_id [] s u keeps only settled same =
      lifted-Reaped queue (some q) id request_id [] s u _ keeps only settled same
        (delete-Atomic g queue id u.db)
  delete_message-Reaped queue (some q) id request_id (c ∷ cs) s u keeps only settled same =
      lifted-Reaped queue (some q) id request_id (c ∷ cs) s u _ keeps only settled same
        (delete_both-Atomic g queue id q (c ∷ cs) u.db)

-- The row that `Fail` leaves.
abbrev as_failed : Stamp → ResultRow → ResultRow
as_failed now r = record r {
  status = error;
  err_text = some abandoned_message;
  completed_at = some now;
}

Fails : Bytes → ResultTable → ResultTable → Type 0
Fails request_id t u = Keeps t u × OnlyOf request_id t u × IsSettled (lookup request_id u)

update_row-Fails :
    (request_id : Bytes) (now : Stamp) (t : ResultTable) (o : Option ResultRow)
    → lookup request_id t ≡ o
    → has_ended o ≡ false
    → Fails request_id t (update_row request_id (λ _. true) (as_failed now) o t)
unfolding Fails update_row
update_row-Fails request_id now t none e live = (λ j r found over. found, λ j other. refl, inl e)
update_row-Fails request_id now t (some r) e live = (
  λ j r' found over. ground (arith, view j, bytes_eq_iff request_id j, e, live),
  λ j other. ground (arith, view j),
  inr (ground (arith, view request_id, bytes_eq_iff request_id request_id)),
)
  where
    view :
        (j : Bytes)
        → lookup j (insert request_id (as_failed now r) t)
          ≡ (if bytes_eq request_id j then some (as_failed now r) else lookup j t)
    view j = lookup-insert request_id j (as_failed now r) t

module _ (g : Goqite) (p : Proto) where
  record_failure-Reaped :
      (queue : Bytes) (anchor_queue : Option Bytes) (id request_id anchor_id : Bytes) (now : Stamp)
      (s : Store) (db : Db) (existing : Option ResultRow)
      → lookup request_id s.results ≡ existing
      → db.rows ≡ s.db.rows
      → Reaped queue anchor_queue id request_id anchor_id s (
          (record_failure request_id now existing >>= λ _.
          delete_message g p queue anchor_queue id anchor_id)
            (record { db = db; results = s.results }))
  unfolding record_failure fail update Fails
  record_failure-Reaped queue anchor_queue id request_id anchor_id now s db existing e same =
      elim (Bool-cases (has_ended existing)) [
        | inl over ↦
            rw (over, record_failure)
              (delete_message-Reaped g p queue anchor_queue id request_id anchor_id s
                (record { db = db; results = s.results }) (λ j r found _. found) (λ j _. refl)
                (inr (rw e over)) same)
        | inr live ↦
            rw (live, record_failure)
              (exec-cases
                (λ o. Reaped queue anchor_queue id request_id anchor_id s (elim o [
                  | did _ u ↦ delete_message g p queue anchor_queue id anchor_id u
                  | failed u ↦ failed u
                  | crashed u ↦ crashed u
                ]))
                _ (record { db = db; results = s.results })
                (λ db' same'.
                  let (keeps, only, settled) =
                    update_row-Fails request_id now s.results (lookup request_id s.results) refl
                      (rw e live) in
                  delete_message-Reaped g p queue anchor_queue id request_id anchor_id s _ keeps
                    only settled (same' ∙ same))
                (λ db' same'. (λ j r found _. found, λ j _. refl, same' ∙ same)))
      ]

  -- `reapOne` leaves every result that has ended as it is, and touches no result but that of the
  -- message's request. If it succeeds, that result has ended (or there is none), and the row is gone
  -- from its queue, together with the anchor that it names when the queue has an anchor queue; all
  -- other rows are as they were. If it fails anywhere, no row has changed.
  pub reap_one-Reaped :
      (queue : Bytes) (anchor_queue : Option Bytes) (now : Stamp) (msg : Message) (s : Store)
      → Reaped queue anchor_queue msg.id
          (names_of p msg).0
          (names_of p msg).1
          s
          (reap_one g p queue anchor_queue now msg s)
  unfolding reap_one get
  reap_one-Reaped queue anchor_queue now msg s =
      exec-cases
        (λ o. Reaped queue anchor_queue msg.id (names_of p msg).0 (names_of p msg).1 s (elim o [
          | did existing u ↦
              (record_failure (names_of p msg).0 now existing >>= λ _.
              delete_message g p queue anchor_queue msg.id (names_of p msg).1)
                u
          | failed u ↦ failed u
          | crashed u ↦ crashed u
        ]))
        (λ t. (lookup (names_of p msg).0 t, t)) s
        (λ db same.
          record_failure-Reaped queue anchor_queue msg.id (names_of p msg).0 (names_of p msg).1 now
            s db (lookup (names_of p msg).0 s.results) refl same)
        (λ db same. (λ j r found _. found, λ j _. refl, same))
