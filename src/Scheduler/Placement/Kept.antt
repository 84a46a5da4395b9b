-- ===== src/Scheduler/Placement/Kept.antt =====
-- Which rows `drainGlobal` of internal/scheduler/scheduler.go may take away.
use mass.Prelude.{
  All, ℕ, ◌≡◌, refl, sym, ap, subst, ◌∙◌, Bool, true, false, ◌||◌, ◌⊎◌, inl, inr, List, [], ◌∷◌,
  Option, none, some, Bytes, bytes_eq, bytes_eq_iff, Bool-cases, if◌then◌else◌,
}
use mass.Prelude.Map.{lookup, IsMap}
use mass.Queue.Database.{Goqite}
use mass.Queue.Database.Rules.{statement-cases}
use mass.Queue.Envelope.{Proto, Envelope, unmarshal_envelope}
use mass.Queue.Ops.{delete, peek}
use mass.Queue.Ops.Shown.{IsShown, visible-IsShown}
use mass.Queue.Results.{Store, Outcome, did, failed, crashed, lift, lifted, fail}
use mass.Queue.Results.Lifecycle.{after}
use mass.Queue.Table.{Row, Table, Message}
use mass.Scheduler.Dispatch.{Dispatcher}
use mass.Scheduler.Inflight.{Float64, Ledger}
use mass.Scheduler.Placement.{
  Desk, RowTurn, hand_off, fail_unbenchable, concluded, targeted, read_row, place_row, place_rows,
  place_peeked, from_global, drain_global,
}
use mass.Scheduler.Placement.Rows.{hand_off-IsHanded, hand_off-ledger}
use mass.Scheduler.Redistribute.Rows.{fail_rows}
use mass.Scheduler.Scoring.{Arith, Fleet, Target, pick_worker_queue}
use mass.Scheduler.Scoring.Best.{IsBest, pick_worker_queue-IsBest}
use mass.Scheduler.Scoring.Candidates.{MayTake}
use mass.Scheduler.Devices.{ModelBenchmarkRow}
use mass.Worker.Status.{StreamWorker}

-- A row is still there, with its queue and its bytes.
abbrev pub Survives : Bytes → Row → Table → Type 0
Survives k row u =
    (now : Row) × (lookup k u ≡ some now) × (now.queue ≡ row.queue) × (now.body ≡ row.body)

module _ (g : Goqite) where
  -- What a delete may take away.
  abbrev Drops : Bytes → Bytes → Table → Table → Type 0
  Drops queue id t u =
      (k : Bytes) (row : Row)
      → lookup k t ≡ some row
      → (lookup k u ≡ some row) ⊎ ((id ≡ k) × (row.queue ≡ queue))

  delete-Drops :
      (queue id : Bytes) (s : Store)
      → Drops queue id s.db.rows (after (lift (delete g queue id) s)).db.rows
  unfolding delete lift lifted
  delete-Drops queue id s =
      statement-cases {A = Unit {0}}
        (λ r. Drops queue id s.db.rows (after (lifted s.results r)).db.rows)
        (λ t. (tt, Goqite.delete g queue id t)) s.db
        (λ faults k row here. elim (Bool-cases (bytes_eq id k)) [
          | inl same ↦ elim (Bool-cases (bytes_eq row.queue queue)) [
            | inl ours ↦ inr ((bytes_eq_iff id k).0 same, (bytes_eq_iff row.queue queue).0 ours)
            | inr other ↦
                inl (Goqite.lookup-delete g queue id s.db.rows k ∙ rw (same, here, other) refl)
          ]
          | inr other ↦ inl (Goqite.lookup-delete g queue id s.db.rows k ∙ rw (other, here) refl)
        ])
        (λ faults k row here. inl here)

module _ (g : Goqite) (p : Proto) (fl : Float64) (a : Arith fl) (fleet : Fleet fl p)
    (c : Desk p) where
  -- The row is on the global queue, no worker may take its job, and every worker's benchmark of the
  -- model has been concluded.
  abbrev pub IsHopeless : Bytes → Ledger fl → Bytes → Row → Type 0
  IsHopeless global l k row =
      (row.queue ≡ global)
      × ((env : Envelope p) × (unmarshal_envelope p row.body ≡ some env)
          × ((Desk.conclusion c (record env { global_msg_id = k })).0 ≡ false)
          × ((w : StreamWorker) (r : ModelBenchmarkRow fl)
              → MayTake fl p a fleet (record env { global_msg_id = k }) l w r
              → ⊥))

  abbrev pub Fates : Bytes → Ledger fl → Table → Table → Type 0
  Fates global l t u =
      (k : Bytes) (row : Row) → lookup k t ≡ some row → Survives k row u ⊎ IsHopeless global l k row

  -- The message is that of a row.
  abbrev IsOf : Table → Message → Type 0
  IsOf t m = (row : Row) × (lookup m.id t ≡ some row) × (m.body ≡ row.body)

  -- On the way through the pass: the ledger is as it was, and every row has its fate.
  abbrev IsOn : Bytes → Dispatcher fl → Dispatcher fl → Type 0
  IsOn global st u =
      (u.ledger ≡ st.ledger) × Fates global st.ledger st.store.db.rows u.store.db.rows

  after_handoff-IsOn :
      (global : Bytes) (env : Envelope p) (t : Target fl) (st u : Dispatcher fl)
      → IsOn global st u
      → IsOn global st (hand_off g p fl a fleet c global env t u).1
  after_handoff-IsOn global env t st u (books, fates) = (
    hand_off-ledger g p fl a fleet c global env t u ∙ books,
    λ k row here. elim (fates k row here) [
      | inl (now, there, queue, body) ↦
          let (next, still, queue2, body2, same) =
            (hand_off-IsHanded g p fl a fleet c global env t u).2 k now there in
          inl (next, still, queue2 ∙ queue, body2 ∙ body)
      | inr hopeless ↦ inr hopeless
    ],
  )

  failed-IsOn :
      (global id : Bytes) (env : Envelope p) (reason : Bytes) (st u : Dispatcher fl)
      → ((row : Row)
          → lookup id st.store.db.rows ≡ some row
          → row.queue ≡ global
          → IsHopeless global st.ledger id row)
      → IsOn global st u
      → IsOn global st (fail_unbenchable g p fl a fleet c global id env reason u)
  unfolding fail_unbenchable
  failed-IsOn global id env reason st u hopeless (books, fates) = (
    books,
    λ k row here. elim (fates k row here) [
      | inl (now, there, queue, body) ↦
          elim (delete-Drops g global id (after (fail env.request_id _ c.stamp u.store)) k now
            (ap (lookup k) (fail_rows env.request_id _ c.stamp u.store) ∙ there)) [
              | inl still ↦ inl (now, still, queue, body)
              | inr (is, ours) ↦ inr (
                  subst (λ j. IsHopeless global st.ledger j row) is
                    (hopeless row (ap (λ j. lookup j st.store.db.rows) is ∙ here)
                      (sym queue ∙ ours)))
            ]
      | inr gone ↦ inr gone
    ],
  )

  concluded-IsOn :
      (global id : Bytes) (env : Envelope p) (o : Bool × Bytes) (st u : Dispatcher fl)
      → ((row : Row)
          → lookup id st.store.db.rows ≡ some row
          → row.queue ≡ global
          → o.0 ≡ false
          → IsHopeless global st.ledger id row)
      → IsOn global st u
      → IsOn global st (RowTurn.state (concluded g p fl a fleet c global id env o u))
  unfolding concluded
  concluded-IsOn global id env (true, reason) st u hopeless on = on
  concluded-IsOn global id env (false, reason) st u hopeless on =
      failed-IsOn global id env reason st u (λ row here ours. hopeless row here ours refl) on

  targeted-IsOn :
      (global id : Bytes) (env : Envelope p) (o : Option (Target fl)) (st u : Dispatcher fl)
      → pick_worker_queue fl p a fleet (record env { global_msg_id = id }) u.ledger u.tails ≡ o
      → ((row : Row)
          → lookup id st.store.db.rows ≡ some row
          → unmarshal_envelope p row.body ≡ some env)
      → IsOn global st u
      → IsOn global st (
          RowTurn.state
            (targeted g p fl a fleet c global id (record env { global_msg_id = id }) o u))
  unfolding targeted
  targeted-IsOn global id env (some t) st u e reads on =
      after_handoff-IsOn global (record env { global_msg_id = id }) t st u on
  targeted-IsOn global id env none st u e reads (books, fates) =
      let named : Envelope p = record env { global_msg_id = id } in
      let nobody : IsBest fl p a fleet named u.ledger u.tails none =
        subst (IsBest fl p a fleet named u.ledger u.tails) e
          (pick_worker_queue-IsBest fl p a fleet named u.ledger u.tails) in
      concluded-IsOn global id named (Desk.conclusion c named) st u
        (λ row here ours settled. (
          ours,
          (
            env,
            reads row here,
            settled,
            λ w r may. nobody w r (subst (λ l. MayTake fl p a fleet named l w r) (sym books) may),
          ),
        ))
        (books, fates)

  read_row-IsOn :
      (global id : Bytes) (o : Option (Envelope p)) (st u : Dispatcher fl)
      → ((row : Row) → lookup id st.store.db.rows ≡ some row → unmarshal_envelope p row.body ≡ o)
      → IsOn global st u
      → IsOn global st (RowTurn.state (read_row g p fl a fleet c global id o u))
  unfolding read_row
  read_row-IsOn global id none st u reads on = on
  read_row-IsOn global id (some env) st u reads on =
      targeted-IsOn global id env _ st u refl reads on

  place_row-IsOn :
      (global : Bytes) (m : Message) (st u : Dispatcher fl)
      → IsOf st.store.db.rows m
      → IsOn global st u
      → IsOn global st (RowTurn.state (place_row g p fl a fleet c global m u))
  unfolding place_row
  place_row-IsOn global m st u (r, found, body) on =
      read_row-IsOn global m.id (unmarshal_envelope p m.body) st u
        (λ row here.
          let same : r ≡ row = cc (found, here) in
          ap (unmarshal_envelope p) (ap (λ (x : Row). x.body) (sym same) ∙ sym body))
        on

  place_rows-IsOn :
      (global : Bytes) (msgs : List Message) (pending : Bool) (st u : Dispatcher fl)
      → All (IsOf st.store.db.rows) msgs
      → IsOn global st u
      → IsOn global st (place_rows g p fl a fleet c global msgs pending u).1
  unfolding place_rows
  place_rows-IsOn global [] pending st u known on = on
  place_rows-IsOn global (m ∷ msgs) pending st u (first, known) on =
      let turn = place_row g p fl a fleet c global m u in
      let next = place_row-IsOn global m st u first on in
      either (RowTurn.goes_on turn) next (
        place_rows-IsOn global msgs (pending || RowTurn.pending turn) st (RowTurn.state turn) known
          next)
    where
      either :
          (b : Bool)
          → IsOn global st (RowTurn.state (place_row g p fl a fleet c global m u))
          → IsOn global st
              (place_rows g p fl a fleet c global msgs
                (pending || RowTurn.pending (place_row g p fl a fleet c global m u))
                (RowTurn.state (place_row g p fl a fleet c global m u))).1
          → IsOn global st
              (if b
                then place_rows g p fl a fleet c global msgs
                    (pending || RowTurn.pending (place_row g p fl a fleet c global m u))
                    (RowTurn.state (place_row g p fl a fleet c global m u))
                else (pending, RowTurn.state (place_row g p fl a fleet c global m u))).1
      either true now rest = rest
      either false now rest = now

  -- What was place_peeked: rows of the table, which stays as it is.
  abbrev Peeked : Dispatcher fl → Outcome (List Message) → Type 0
  Peeked st (did msgs s) = All (IsOf st.store.db.rows) msgs × (s.db.rows ≡ st.store.db.rows)
  Peeked st (failed s) = s.db.rows ≡ st.store.db.rows
  Peeked st (crashed s) = s.db.rows ≡ st.store.db.rows

  shown_rows :
      (queue : Bytes) (now : ℕ) (t : Table) (msgs : List Message)
      → All (IsShown queue now t) msgs
      → All (IsOf t) msgs
  shown_rows queue now t [] all = tt
  shown_rows queue now t (m ∷ msgs) ((row, there, body, visible), all) =
      ((row, there, body), shown_rows queue now t msgs all)

  peek-Peeked :
      (global : Bytes) (st : Dispatcher fl)
      → IsMap st.store.db.rows
      → Peeked st (lift (peek global 32 c.now) st.store)
  unfolding peek lift lifted
  peek-Peeked global st keyed =
      statement-cases (λ r. Peeked st (lifted st.store.results r)) _ st.store.db
        (λ faults. (
          shown_rows global c.now st.store.db.rows _
              (visible-IsShown global 32 c.now st.store.db.rows keyed),
          refl,
        ))
        (λ faults. refl)

  start-IsOn :
      (global : Bytes) (st : Dispatcher fl) (s : Store)
      → s.db.rows ≡ st.store.db.rows
      → IsOn global st (record st { store = s })
  start-IsOn global st s same =
      (refl, λ k row here. inl (row, ap (lookup k) same ∙ here, refl, refl))

  place_peeked-IsOn :
      (global : Bytes) (o : Outcome (List Message)) (st : Dispatcher fl)
      → Peeked st o
      → IsOn global st (place_peeked g p fl a fleet c global o st).1
  unfolding place_peeked
  place_peeked-IsOn global (did msgs s) st (known, same) =
      place_rows-IsOn global msgs false st (record st { store = s }) known
        (start-IsOn global st s same)
  place_peeked-IsOn global (failed s) st same = start-IsOn global st s same
  place_peeked-IsOn global (crashed s) st same = start-IsOn global st s same

  -- A placement pass loses no job that may still run: whatever the database refuses, every row that
  -- was there is there afterwards, in the same queue with the same bytes, except for a row of the
  -- global queue whose job no worker may take and whose model's benchmarks have all been concluded.
  -- The queues are set up, and no two rows share a key.
  pub drain_global-Fates :
      (global : Bytes) (st : Dispatcher fl)
      → c.global ≡ some global
      → IsMap st.store.db.rows
      → Fates global st.ledger st.store.db.rows (drain_global g p fl a fleet c st).1.store.db.rows
  unfolding drain_global from_global
  drain_global-Fates global st is_global keyed =
      subst
        (λ o.
          Fates global st.ledger st.store.db.rows
            (from_global g p fl a fleet c o st).1.store.db.rows)
        (sym is_global)
        (place_peeked-IsOn global (lift (peek global 32 c.now) st.store) st
          (peek-Peeked global st keyed)).1
