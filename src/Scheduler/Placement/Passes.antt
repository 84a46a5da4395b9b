-- ===== src/Scheduler/Placement/Passes.antt =====
-- The passes of the dispatch loop in internal/scheduler/scheduler.go, `drainGlobal` and
-- `drainOneWorkerQueue`, in any order, against the phases of a request.
use mass.Prelude.{
  ℕ, Bool, true, false, ◌||◌, List, [], ◌∷◌, Option, none, some, Bytes, if◌then◌else◌,
}
use mass.Prelude.Map.{lookup}
use mass.Queue.Database.{Goqite}
use mass.Queue.Envelope.{Proto, Envelope, unmarshal_envelope}
use mass.Queue.Ops.{delete, peek}
use mass.Queue.Results.{Store, Outcome, did, failed, crashed, lift, fail}
use mass.Queue.Results.Lifecycle.{after}
use mass.Queue.Table.{Message}
use mass.Scheduler.Dispatch.{Dispatcher, Setting, World, drain_one_worker_queue}
use mass.Scheduler.Dispatch.Passes.{drain-Steps}
use mass.Scheduler.Dispatch.Phases.{Advances, stays, Advances-twice, Steps-Advances, phase_of}
use mass.Scheduler.Dispatch.Steps.{Steps, here, next, fails, trans, same}
use mass.Scheduler.Finalize.Order.{lifted_results}
use mass.Scheduler.Inflight.{Float64}
use mass.Scheduler.Placement.{
  Desk, RowTurn, fail_unbenchable, concluded, targeted, read_row, place_row, place_rows,
  place_peeked, from_global, drain_global,
}
use mass.Scheduler.Placement.Rows.{hand_off-IsHanded}
use mass.Scheduler.Scoring.{Arith, Fleet, Target, pick_worker_queue}

module _ (g : Goqite) (p : Proto) (fl : Float64) (a : Arith fl) (fleet : Fleet fl p)
    (c : Desk p) where
  fail_unbenchable-Steps :
      (global id : Bytes) (env : Envelope p) (reason : Bytes) (st : Dispatcher fl)
      → Steps st.store (fail_unbenchable g p fl a fleet c global id env reason st).store
  unfolding fail_unbenchable lift
  fail_unbenchable-Steps global id env reason st =
      let failed_store = after (fail env.request_id _ c.stamp st.store) in
      trans (next here (fails env.request_id _ c.stamp))
        (same (lifted_results failed_store.results (delete g global id failed_store.db)))

  concluded-Steps :
      (global id : Bytes) (env : Envelope p) (o : Bool × Bytes) (st : Dispatcher fl)
      → Steps st.store (RowTurn.state (concluded g p fl a fleet c global id env o st)).store
  unfolding concluded
  concluded-Steps global id env (true, reason) st = here
  concluded-Steps global id env (false, reason) st = fail_unbenchable-Steps global id env reason st

  targeted-Steps :
      (global id : Bytes) (env : Envelope p) (o : Option (Target fl)) (st : Dispatcher fl)
      → Steps st.store (RowTurn.state (targeted g p fl a fleet c global id env o st)).store
  unfolding targeted
  targeted-Steps global id env none st = concluded-Steps global id env (Desk.conclusion c env) st
  targeted-Steps global id env (some t) st =
      same (hand_off-IsHanded g p fl a fleet c global env t st).0

  read_row-Steps :
      (global id : Bytes) (o : Option (Envelope p)) (st : Dispatcher fl)
      → Steps st.store (RowTurn.state (read_row g p fl a fleet c global id o st)).store
  unfolding read_row
  read_row-Steps global id none st = here
  read_row-Steps global id (some env) st =
      let named : Envelope p = record env { global_msg_id = id } in
      targeted-Steps global id named (pick_worker_queue fl p a fleet named st.ledger st.tails) st

  stopped :
      (b : Bool) (s : Store) (x y : Bool × Dispatcher fl)
      → Steps s (x.1).store
      → Steps s (y.1).store
      → Steps s ((if b then x else y).1).store
  stopped true s x y h k = h
  stopped false s x y h k = k

  place_rows-Steps :
      (global : Bytes) (msgs : List Message) (pending : Bool) (st : Dispatcher fl)
      → Steps st.store (place_rows g p fl a fleet c global msgs pending st).1.store
  unfolding place_rows place_row
  place_rows-Steps global [] pending st = here
  place_rows-Steps global (m ∷ msgs) pending st =
      let turn = place_row g p fl a fleet c global m st in
      let first = read_row-Steps global m.id (unmarshal_envelope p m.body) st in
      stopped (RowTurn.goes_on turn) st.store
        (place_rows g p fl a fleet c global msgs (pending || RowTurn.pending turn)
          (RowTurn.state turn))
        (pending, RowTurn.state turn)
        (trans first
          (place_rows-Steps global msgs (pending || RowTurn.pending turn) (RowTurn.state turn)))
        first

  place_peeked-Steps :
      (global : Bytes) (o : Outcome (List Message)) (s : Store) (st : Dispatcher fl)
      → Steps s (after o)
      → Steps s (place_peeked g p fl a fleet c global o st).1.store
  unfolding place_peeked
  place_peeked-Steps global (did msgs u) s st h =
      trans h (place_rows-Steps global msgs false (record st { store = u }))
  place_peeked-Steps global (failed u) s st h = h
  place_peeked-Steps global (crashed u) s st h = h

  from_global-Steps :
      (o : Option Bytes) (st : Dispatcher fl)
      → Steps st.store (from_global g p fl a fleet c o st).1.store
  unfolding from_global lift
  from_global-Steps none st = here
  from_global-Steps (some global) st =
      place_peeked-Steps global (lift (peek global 32 c.now) st.store) st.store st
        (same (lifted_results st.store.results (peek global 32 c.now st.store.db)))

-- One pass, with all that it meets. It may find another fleet, other answers and another time than
-- the pass before.
pub data Pass (p : Proto) (fl : Float64) : Type 0 where
  placing : Fleet fl p → Desk p → Pass p fl
  draining :
      (c : Setting) (known gate_held : Bool) (dur : ℕ) (worlds : Bytes → World fl) → Pass p fl

module _ (g : Goqite) (p : Proto) (fl : Float64) (a : Arith fl) where
  unfoldable pub run_pass : Pass p fl → Dispatcher fl → Dispatcher fl
  run_pass (placing fleet c) st = (drain_global g p fl a fleet c st).1
  run_pass (draining c known gate_held dur worlds) st =
      drain_one_worker_queue g p fl c known gate_held dur worlds st

  unfoldable pub run_passes : List (Pass p fl) → Dispatcher fl → Dispatcher fl
  unfolding run_pass
  run_passes [] st = st
  run_passes (pass ∷ passes) st = run_passes passes (run_pass pass st)

  run_pass-Steps : (pass : Pass p fl) (st : Dispatcher fl) → Steps st.store (run_pass pass st).store
  unfolding run_pass drain_global
  run_pass-Steps (placing fleet c) st = from_global-Steps g p fl a fleet c (Desk.global c) st
  run_pass-Steps (draining c known gate_held dur worlds) st =
      drain-Steps g p fl c known gate_held dur worlds st

  -- However many passes run, over the global queue and the queues of workers, in whatever order, they
  -- refine the life of a request, for every request at once and whatever the workers answer, other
  -- goroutines do to the books and the database refuses: a request without a result gets none, one
  -- that waits may start or end, one that runs may end but never waits again, and one that has ended
  -- stays so.
  pub run_passes-Advances :
      (passes : List (Pass p fl)) (st : Dispatcher fl) (request_id : Bytes)
      → Advances
          (phase_of (lookup request_id st.store.results))
          (phase_of (lookup request_id (run_passes passes st).store.results))
  unfolding run_passes
  run_passes-Advances [] st request_id = stays
  run_passes-Advances (pass ∷ passes) st request_id =
      Advances-twice
        (Steps-Advances st.store (run_pass pass st).store request_id (run_pass-Steps pass st))
        (run_passes-Advances passes (run_pass pass st) request_id)
