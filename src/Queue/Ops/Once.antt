-- ===== src/Queue/Ops/Once.antt =====
-- internal/queue/queue.go: how often a row is delivered, over sequences of calls.
use mass.Prelude.{All, ℕ, ◌+◌, ◌≡◌, subst, Bool, false, List, [], ◌∷◌, none, some, Bytes, bytes_eq}
use mass.Queue.Database.{Db, ok, statement, signal, Goqite}
use mass.Queue.Database.Rules.{Atomic, Atomic-bind, Atomic-map, statement-Atomic}
use mass.Queue.Envelope.{Proto, Envelope}
use mass.Queue.Ops.{
  in_queue, expired_timeout, reset_to, lease_by_id, release_lease, defer, move_to, submit,
  lease_and_submit, extend, delete,
}
use mass.Queue.Ops.Handover.{
  submit-Sent, Sent, Submitted, lease_and_submit-Atomic, Views, dropped, delete-Atomic,
}
use mass.Queue.Ops.Health.{database_of}
use mass.Queue.Ops.Leases.{Delivered, lease_by_id-Atomic}
use mass.Queue.Ops.Moves.{Moved, move_to-Atomic}
use mass.Queue.Ops.Spent.{
  IsSpent, kept, lease-IsSpent, move-IsSpent, give-IsSpent, Delivered-IsSpent, spent_lem,
  submit-IsSpent, lease_and_submit-IsSpent, extend-IsSpent, delete-IsSpent,
}
use mass.Queue.Table.{update_by_id}
use mass.Queue.Table.Statements.{Same, Updated, update_by_id-Updated}

-- A call with its arguments, the clock last.
pub data Call (p : Proto) : Type 0 where
  call_lease : Bytes → Bytes → ℕ → ℕ → Call p
  call_move : Bytes → Bytes → Bytes → ℕ → ℕ → Call p
  call_submit : Bytes → Envelope p → ℕ → Call p
  call_lease_and_submit : Bytes → Bytes → ℕ → Bytes → Envelope p → ℕ → Call p
  call_extend : Bytes → Bytes → ℕ → ℕ → Call p
  call_delete : Bytes → Bytes → Call p
  call_defer : Bytes → Bytes → ℕ → ℕ → Call p
  call_release : Bytes → Bytes → ℕ → Call p

-- The calls that give a row back, or take it away.
abbrev pub frees : {p : Proto} → Bytes → Call p → Bool
frees id (call_lease queue k dur now) = false
frees id (call_move queue dst k priority now) = false
frees id (call_submit queue env now) = false
frees id (call_lease_and_submit queue k dur dst env now) = false
frees id (call_extend queue k d now) = false
frees id (call_delete queue k) = bytes_eq k id
frees id (call_defer queue k delay now) = bytes_eq k id
frees id (call_release queue k now) = bytes_eq k id

module _ (g : Goqite) (p : Proto) where
  abbrev pub run_call : Call p → Db → Db
  run_call (call_lease queue id dur now) db = database_of (lease_by_id queue id dur now db)
  run_call (call_move queue dst id priority now) db =
      database_of (move_to g queue dst id priority now db)
  run_call (call_submit queue env now) db = database_of (submit g p queue env now db)
  run_call (call_lease_and_submit queue id dur dst env now) db =
      database_of (lease_and_submit g p queue id dur dst env now db)
  run_call (call_extend queue id d now) db = database_of (extend g queue id d now db)
  run_call (call_delete queue id) db = database_of (delete g queue id db)
  run_call (call_defer queue id delay now) db = database_of (defer queue id delay now db)
  run_call (call_release queue id now) db = database_of (release_lease queue id now db)

  abbrev pub run_calls : List (Call p) → Db → Db
  run_calls [] db = db
  run_calls (call ∷ calls) db = run_calls calls (run_call call db)

  call-IsSpent :
      (id : Bytes) (call : Call p) (db : Db)
      → frees id call ≡ false
      → IsSpent id db.rows
      → IsSpent id (run_call call db).rows
  unfolding defer release_lease signal extend
  call-IsSpent id (call_lease queue k dur now) db other spent =
      kept (Delivered queue k dur now db.rows) id db.rows (lease_by_id queue k dur now db)
        (lease_by_id-Atomic queue k dur now db) spent
        (λ o u. lease-IsSpent queue k id dur now db.rows o u spent)
  call-IsSpent id (call_move queue dst k priority now) db other spent =
      kept (Moved queue dst k priority now db.rows) id db.rows
        (move_to g queue dst k priority now db) (move_to-Atomic g queue dst k priority now db) spent
        (λ b u. move-IsSpent queue dst k id priority now db.rows b u spent)
  call-IsSpent id (call_submit queue env now) db other spent =
      kept (Sent g p queue env now db.rows) id db.rows (submit g p queue env now db)
        (submit-Sent g p queue env now db) spent
        (λ key u. submit-IsSpent g p queue id env now db.rows key u spent)
  call-IsSpent id (call_lease_and_submit queue k dur dst env now) db other spent =
      kept (Submitted g p queue k dur dst env now db.rows) id db.rows
        (lease_and_submit g p queue k dur dst env now db)
        (lease_and_submit-Atomic g p queue k dur dst env now db) spent
        (λ o u. lease_and_submit-IsSpent g p queue k id dur dst env now db.rows o u spent)
  call-IsSpent id (call_extend queue k d now) db other spent =
      kept (λ _ u. IsSpent id u) id db.rows (extend g queue k d now db)
        (statement-Atomic {A = Unit {0}} (λ _ u. IsSpent id u)
          (λ t. (tt, Goqite.extend g queue k (now + d) t)) db
          (extend-IsSpent g p queue k id (now + d) db.rows spent))
        spent (λ _ u h. h)
  call-IsSpent id (call_delete queue k) db other spent =
      kept (λ _. Views (dropped queue k) db.rows) id db.rows (delete g queue k db)
        (delete-Atomic g queue k db) spent
        (λ _ u. delete-IsSpent g p queue k id db.rows u spent other)
  call-IsSpent id (call_defer queue k delay now) db other spent =
      let P = Updated k (in_queue queue) (reset_to (now + delay)) db.rows in
      kept P id db.rows (defer queue k delay now db)
        (statement-Atomic P (update_by_id k (in_queue queue) (reset_to (now + delay))) db
          (update_by_id-Updated k (in_queue queue) (reset_to (now + delay)) db.rows))
        spent (λ o u. give-IsSpent queue k id (now + delay) db.rows o u spent other)
  call-IsSpent id (call_release queue k now) db other spent =
      let P = Updated k (in_queue queue) (reset_to (expired_timeout now)) db.rows in
      kept (λ _ u. IsSpent id u) id db.rows (release_lease queue k now db)
        (Atomic-bind P (λ _ u. IsSpent id u)
          (statement (update_by_id k (in_queue queue) (reset_to (expired_timeout now))))
          (λ _. signal) db.rows db
          (statement-Atomic P (update_by_id k (in_queue queue) (reset_to (expired_timeout now))) db
            (update_by_id-Updated k (in_queue queue) (reset_to (expired_timeout now)) db.rows))
          (λ o db' h.
            (give-IsSpent queue k id (expired_timeout now) db.rows o db'.rows spent other h, tt)))
        spent (λ _ u h. h)

  calls-IsSpent :
      (id : Bytes) (calls : List (Call p)) (db : Db)
      → All (λ (call : Call p). frees id call ≡ false) calls
      → IsSpent id db.rows
      → IsSpent id (run_calls calls db).rows
  calls-IsSpent id [] db none_back spent = spent
  calls-IsSpent id (call ∷ calls) db (other, others) spent =
      calls-IsSpent id calls (run_call call db) others (call-IsSpent id call db other spent)

  -- A row is delivered once: after a lease that succeeded, and any sequence of calls, whatever fails
  -- (leases, moves, submissions, handovers and extensions, and `Delete`, `Defer` and `ReleaseLease` of
  -- other rows), no lease of the row succeeds, from whatever queue and at whatever time, also when the
  -- first one has run out.
  pub delivered_once :
      (queue id body : Bytes) (dur now : ℕ) (db db' : Db)
      → lease_by_id queue id dur now db ≡ ok (some body) db'
      → (calls : List (Call p)) → All (λ (call : Call p). frees id call ≡ false) calls
      → (again : Bytes) (later_dur later : ℕ)
      → Atomic
          (λ o t. (o ≡ none) × Same t (run_calls calls db').rows)
          (run_calls calls db').rows
          (lease_by_id again id later_dur later (run_calls calls db'))
  delivered_once queue id body dur now db db' e calls none_back again later_dur later =
      let first = Delivered-IsSpent queue id body dur now db.rows db'.rows (
        subst (Atomic (Delivered queue id dur now db.rows) db.rows) e
          (lease_by_id-Atomic queue id dur now db)) in
      let last = run_calls calls db' in
      let spent = calls-IsSpent id calls db' none_back first in
      Atomic-map (Delivered again id later_dur later last.rows)
        (λ o t. (o ≡ none) × Same t last.rows) last.rows (lease_by_id again id later_dur later last)
        (lease_by_id-Atomic again id later_dur later last)
        (λ o t. spent_lem again id later_dur later last.rows o t spent)
