-- ===== src/Scheduler/Cancels/Effects.antt =====
-- What a cancel of internal/scheduler/queue_view.go has done when it answers.
use mass.Prelude.{
  All, if◌then◌else◌, ◌≡◌, refl, sym, ap, subst, ◌∙◌, inl, inr, Bool, true, false, List, [], ◌∷◌,
  map, take, Option, none, some, Bytes, bytes_eq, bytes_eq_iff, Bool-cases, ℕ,
}
use mass.Prelude.Map.{IsMap, lookup}
use mass.Queue.Database.{Result, ok, err, panicked, Goqite}
use mass.Queue.Database.Rules.{Atomic, statement-cases}
use mass.Queue.Envelope.{Proto, Envelope, is_empty, unmarshal_envelope}
use mass.Queue.Ops.{peek, delete, delete_both}
use mass.Queue.Ops.Handover.{Views, dropped, delete-Atomic, delete_both-Atomic}
use mass.Queue.Ops.Shown.{IsShown, visible-IsShown}
use mass.Queue.Results.{Store, Outcome, did, failed, crashed, lift, lifted, fail, update, Stamp}
use mass.Queue.Results.Lifecycle.{after, exec-cases}
use mass.Queue.Sweeper.{delete_message}
use mass.Queue.Table.{Message, Row, Table, select, order_by_priority, to_message, is_visible}
use mass.Scheduler.Cancels.{
  Reply, ok_reply, row_in_flight, unknown_queue, evict_global_row, no_anchor, not_initialised,
  not_inflight, no_worker_id, worker_gone, not_streamed, send_error, store_error, panics, View,
  Console, find_message, record_cancel, deleted, anchor_of, delete_row, cancel_found, cancel_peeked,
  cancel_in,
}
use mass.Scheduler.Finalize.{cancelled_text}
use mass.Scheduler.Inflight.{Float64}

-- An operation on the queues either succeeds, with `P` of the new rows, or leaves the rows; the
-- results it leaves in any case.
abbrev pub Ran : (Table → Type 0) → Store → Outcome (Unit {0}) → Type 0
Ran P s (did a u) = P u.db.rows × (u.results ≡ s.results)
Ran P s (failed u) = (u.db.rows ≡ s.db.rows) × (u.results ≡ s.results)
Ran P s (crashed u) = (u.db.rows ≡ s.db.rows) × (u.results ≡ s.results)

lifted-Ran :
    (P : Table → Type 0) (s : Store) (r : Result (Unit {0}))
    → Atomic (λ _. P) s.db.rows r
    → Ran P s (lifted s.results r)
unfolding lifted
lifted-Ran P s (ok a db) h = (h, refl)
lifted-Ran P s (err db) h = (h, refl)
lifted-Ran P s (panicked db) h = (h, refl)

-- The row is gone from its queue, and with it the anchor that it names, if it names one and there is
-- a queue of anchors; no other row has changed.
abbrev pub both_gone : Bool → Bytes → Bytes → Bytes → Bytes → Bytes → Option Row → Option Row
both_gone true queue id global anchor_id j o = dropped queue id j o
both_gone false queue id global anchor_id j o = dropped global anchor_id j (dropped queue id j o)

abbrev pub Dropped : Bytes → Option Bytes → Bytes → Bytes → Table → Table → Type 0
Dropped queue none id anchor_id t u = Views (dropped queue id) t u
Dropped queue (some global) id anchor_id t u =
    Views (both_gone (is_empty anchor_id) queue id global anchor_id) t u

fail-rows :
    (id text : Bytes) (now : Stamp) (s : Store) → (after (fail id text now s)).db.rows ≡ s.db.rows
unfolding fail update
fail-rows id text now s =
    exec-cases (λ o. (after o).db.rows ≡ s.db.rows) _ s (λ db e. e) (λ db e. e)

-- What a call that only reads leaves.
abbrev pub Same : Store → Store → Type 0
Same s u = (u.db.rows ≡ s.db.rows) × (u.results ≡ s.results)

-- The rows of a queue that a scan sees.
abbrev pub visible_in : Bytes → ℕ → ℕ → Table → List Message
visible_in queue limit now t =
    map to_message (take limit (order_by_priority (select (is_visible queue now) t)))

abbrev pub Read : List Message → Store → Outcome (List Message) → Type 0
Read shown s (did msgs u) = (msgs ≡ shown) × Same s u
Read shown s (failed u) = Same s u
Read shown s (crashed u) = Same s u

pub peek-Read :
    (queue : Bytes) (limit now : ℕ) (s : Store)
    → Read (visible_in queue limit now s.db.rows) s (lift (peek queue limit now) s)
unfolding peek lift lifted
peek-Read queue limit now s =
    statement-cases (λ r. Read (visible_in queue limit now s.db.rows) s (lifted s.results r))
      (λ t. (map to_message (take limit (order_by_priority (select (is_visible queue now) t))), t))
      s.db (λ faults. (refl, (refl, refl))) (λ faults. (refl, refl))

module _ (g : Goqite) (p : Proto) where
  delete-Ran :
      (queue id : Bytes) (s : Store)
      → Ran (Views (dropped queue id) s.db.rows) s (lift (delete g queue id) s)
  unfolding lift
  delete-Ran queue id s =
      lifted-Ran (Views (dropped queue id) s.db.rows) s (delete g queue id s.db)
        (delete-Atomic g queue id s.db)

  delete_chosen-Ran :
      (alone : Bool) (queue global id anchor_id : Bytes) (s : Store)
      → Ran (Views (both_gone alone queue id global anchor_id) s.db.rows) s (
          (if alone
              then lift (delete g queue id)
              else lift (delete_both g queue id global anchor_id))
            s)
  unfolding lift
  delete_chosen-Ran true queue global id anchor_id s = delete-Ran queue id s
  delete_chosen-Ran false queue global id anchor_id s =
      lifted-Ran (Views (λ j o. dropped global anchor_id j (dropped queue id j o)) s.db.rows) s
        (delete_both g queue id global anchor_id s.db)
        (delete_both-Atomic g queue id global anchor_id s.db)

  delete_message-Ran :
      (queue : Bytes) (anchors : Option Bytes) (id anchor_id : Bytes) (s : Store)
      → Ran
          (Dropped queue anchors id anchor_id s.db.rows)
          s
          (delete_message g p queue anchors id anchor_id s)
  unfolding delete_message
  delete_message-Ran queue none id anchor_id s = delete-Ran queue id s
  delete_message-Ran queue (some global) id anchor_id s =
      delete_chosen-Ran (is_empty anchor_id) queue global id anchor_id s

-- The message that a loop by ID finds.
find_message_lem :
    (P : Message → Type 0) (id : Bytes) (msgs : List Message) (m : Message)
    → All P msgs
    → find_message id msgs ≡ some m
    → P m × (m.id ≡ id)
unfolding find_message
find_message_lem P id [] m all found = absurd (cc found)
find_message_lem P id (x ∷ msgs) m (h, all) found = elim (Bool-cases (bytes_eq x.id id)) [
  | inl same ↦
      let here : some x ≡ some m = rw same at found in
      subst (λ (o : Option Message). elim o [ none ↦ Unit | some y ↦ P y × (y.id ≡ id) ]) here
        (h, (bytes_eq_iff x.id id).0 same)
  | inr other ↦ find_message_lem P id msgs m all (rw other at found)
]

-- A view whose queues, results, books and buffers are as they were.
abbrev pub Untouched : (fl : Float64) → View fl → View fl → Type 0
Untouched fl v u =
    (u.store.db.rows ≡ v.store.db.rows)
    × (u.store.results ≡ v.store.results)
    × (u.ledger ≡ v.ledger)
    × (u.buffers ≡ v.buffers)

module _ (g : Goqite) (p : Proto) (fl : Float64) (c : Console fl) where
  -- A visible row of the queue is gone, with the anchor that it names, and the books are as they were.
  abbrev pub Removed : Bytes → Option Bytes → Bytes → View fl → View fl → Type 0
  Removed queue anchors id v u =
      ((row : Row) × (lookup id v.store.db.rows ≡ some row)
        × (is_visible queue (Console.now c) row ≡ true)
        × Dropped queue anchors id (anchor_of g p fl c (unmarshal_envelope p row.body))
            v.store.db.rows u.store.db.rows)
      × (u.ledger ≡ v.ledger)

  -- The answer of the cancel of a queued row.
  abbrev pub RowReply : Bytes → Option Bytes → Bytes → View fl → Reply × View fl → Type 0
  RowReply queue anchors id v (ok_reply, u) = Removed queue anchors id v u
  RowReply queue anchors id v (row_in_flight, u) = Untouched fl v u
  RowReply queue anchors id v (unknown_queue, u) = Untouched fl v u
  RowReply queue anchors id v (evict_global_row, u) = Untouched fl v u
  RowReply queue anchors id v (no_anchor, u) = Untouched fl v u
  RowReply queue anchors id v (not_initialised, u) = Untouched fl v u
  RowReply queue anchors id v (not_inflight, u) = ⊥
  RowReply queue anchors id v (no_worker_id, u) = ⊥
  RowReply queue anchors id v (worker_gone, u) = ⊥
  RowReply queue anchors id v (not_streamed, u) = ⊥
  RowReply queue anchors id v (send_error, u) = ⊥
  RowReply queue anchors id v (store_error, u) = Untouched fl v u
  RowReply queue anchors id v (panics, u) = Untouched fl v u

pub Untouched-then :
    (fl : Float64) (v w u : View fl) → Untouched fl v w → Untouched fl w u → Untouched fl v u
Untouched-then fl v w u (a, b, d, e) (a', b', d', e') = (a' ∙ a, b' ∙ b, d' ∙ d, e' ∙ e)

module _ (g : Goqite) (p : Proto) (fl : Float64) (c : Console fl) where
  record_cancel-rows :
      (env : Option (Envelope p)) (v : View fl)
      → ((record_cancel g p fl c env v).store.db.rows ≡ v.store.db.rows)
        × ((record_cancel g p fl c env v).ledger ≡ v.ledger)
  unfolding record_cancel
  record_cancel-rows none v = (refl, refl)
  record_cancel-rows (some env) v = elim (Bool-cases (is_empty env.request_id)) [
    | inl nameless ↦ rw (nameless, record_cancel) (refl, refl)
    | inr named ↦
        rw (named, record_cancel)
          (fail-rows env.request_id cancelled_text (Console.stamp c) v.store, refl)
  ]

  deleted-RowReply :
      (queue : Bytes) (anchors : Option Bytes) (id : Bytes) (row : Row) (v w : View fl)
      (o : Outcome (Unit {0}))
      → Untouched fl v w
      → lookup id v.store.db.rows ≡ some row
      → is_visible queue (Console.now c) row ≡ true
      → Ran
          (Dropped queue anchors id
            (anchor_of g p fl c (unmarshal_envelope p row.body))
            w.store.db.rows)
          w.store
          o
      → RowReply g p fl c queue anchors id v (deleted g p fl c (unmarshal_envelope p row.body) o w)
  unfolding deleted
  deleted-RowReply queue anchors id row v w (did a s) (rows, _, books, _) found visible
        (gone, same) =
      let env = unmarshal_envelope p row.body in
      let (kept, kept_books) = record_cancel-rows env (record w { store = s }) in
      (
        (
          row,
          found,
          visible,
          subst (λ t. Dropped queue anchors id (anchor_of g p fl c env) v.store.db.rows t)
              (sym kept)
              (subst (λ t. Dropped queue anchors id (anchor_of g p fl c env) t s.db.rows) rows
                gone),
        ),
        kept_books ∙ books,
      )
  deleted-RowReply queue anchors id row v w (failed s) h found visible (rows, same) =
      Untouched-then fl v w (record w { store = s }) h (rows, same, refl, refl)
  deleted-RowReply queue anchors id row v w (crashed s) h found visible (rows, same) =
      Untouched-then fl v w (record w { store = s }) h (rows, same, refl, refl)

  cancel_found-RowReply :
      (queue : Bytes) (anchors : Option Bytes) (id : Bytes) (o : Option Message)
      (msgs : List Message) (v w : View fl)
      → Untouched fl v w
      → find_message id msgs ≡ o
      → All (IsShown queue (Console.now c) v.store.db.rows) msgs
      → RowReply g p fl c queue anchors id v (cancel_found g p fl c queue anchors id o w)
  unfolding cancel_found delete_row
  cancel_found-RowReply queue anchors id none msgs v w h found shown = h
  cancel_found-RowReply queue anchors id (some m) msgs v w h found shown =
      let ((row, there, body, visible), same) =
        find_message_lem (IsShown queue (Console.now c) v.store.db.rows) id msgs m shown found in
      let anchor_id = anchor_of g p fl c (unmarshal_envelope p row.body) in
      rw body (
        deleted-RowReply queue anchors id row v w
          (delete_message g p queue anchors id anchor_id w.store) h
          (subst (λ k. lookup k v.store.db.rows ≡ some row) same there) visible
          (delete_message-Ran g p queue anchors id anchor_id w.store))

  cancel_peeked-RowReply :
      (queue : Bytes) (anchors : Option Bytes) (id : Bytes) (o : Outcome (List Message))
      (v w : View fl)
      → Untouched fl v w
      → IsMap v.store.db.rows
      → Read (visible_in queue (Console.limit c) (Console.now c) w.store.db.rows) w.store o
      → RowReply g p fl c queue anchors id v (cancel_peeked g p fl c queue anchors id o w)
  unfolding cancel_peeked
  cancel_peeked-RowReply queue anchors id (did msgs s) v w h keyed (all, (rows, results)) =
      cancel_found-RowReply queue anchors id (find_message id msgs) msgs v (record w { store = s })
        (Untouched-then fl v w (record w { store = s }) h (rows, results, refl, refl)) refl
        (subst (All (IsShown queue (Console.now c) v.store.db.rows))
          (sym (all ∙ ap (visible_in queue (Console.limit c) (Console.now c)) h.0))
          (visible-IsShown queue (Console.limit c) (Console.now c) v.store.db.rows keyed))
  cancel_peeked-RowReply queue anchors id (failed s) v w h keyed (rows, results) =
      Untouched-then fl v w (record w { store = s }) h (rows, results, refl, refl)
  cancel_peeked-RowReply queue anchors id (crashed s) v w h keyed (rows, results) =
      Untouched-then fl v w (record w { store = s }) h (rows, results, refl, refl)

  -- The cancel of a queued row, after calls that have touched nothing.
  pub cancel_in-RowReply :
      (queue : Bytes) (anchors : Option Bytes) (id : Bytes) (v w : View fl)
      → Untouched fl v w
      → IsMap v.store.db.rows
      → RowReply g p fl c queue anchors id v (cancel_in g p fl c queue anchors id w)
  unfolding cancel_in
  cancel_in-RowReply queue anchors id v w h keyed =
      cancel_peeked-RowReply queue anchors id
        (lift (peek queue (Console.limit c) (Console.now c)) w.store) v w h keyed
        (peek-Read queue (Console.limit c) (Console.now c) w.store)
