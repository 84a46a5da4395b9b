-- ===== src/Scheduler/Inflight/Tests.antt =====
-- Runs of the books of internal/scheduler/scheduler.go.
use mass.Prelude.{
  ◌≡◌, refl, true, false, [], ◌∷◌, ℕ, ◌+◌, ◌-◌, ◌==◌, List, Bytes, bytes_eq, codes, arith,
}
use mass.Prelude.Map.{lookup, insert, erase, sum_by}
use mass.Scheduler.Inflight.{
  Float64, Ledger, new_ledger, LedgerOp, op_mark, op_start, op_attach, op_finish, apply,
  start_inflight, finish_inflight, get_memory_reservation, inflight_count_for_worker,
  mark_dispatching, request_cancel_during_dispatch, worker_has_inflight_for_model,
  is_inflight_cancelled, inflight_runtime,
}
use mass.Scheduler.Inflight.Balance.{Runs, here, next, total_held, reservations_follow_jobs}
use mass.Scheduler.Inflight.Cancel.{apply_all, cancel_wins}
use mass.Scheduler.QueueName.{parse_worker_queue_name}

-- Seconds counted in whole ones.
abbrev whole : Float64
whole = record { F = ℕ; zero_f = 0; add_f = ◌+◌; sub_f = ◌-◌; is_drained = λ n. n == 0 }

abbrev queue_a : Bytes
queue_a = codes "worker|a"

abbrev start : LedgerOp whole
start = op_start queue_a (codes "r1") (codes "m") (codes "llama-cpp") 5 1000

abbrev running : Ledger whole
running = apply whole start (apply whole (op_mark (codes "r1")) (new_ledger whole))

abbrev finished : Ledger whole
finished = apply whole (op_finish (codes "r1")) running

-- The books of one job.
booked :
    (get_memory_reservation whole (codes "a") running ≡ 1000)
    × (inflight_count_for_worker whole (codes "a") running ≡ 1)
    × (worker_has_inflight_for_model whole (codes "a") (codes "m") running ≡ true)
    × (inflight_runtime whole (codes "r1") running ≡ codes "llama-cpp")
    × (is_inflight_cancelled whole (codes "r1") running ≡ false)
    × (finished ≡ new_ledger whole)
unfolding apply mark_dispatching start_inflight finish_inflight get_memory_reservation lookup insert
    erase bytes_eq parse_worker_queue_name inflight_count_for_worker worker_has_inflight_for_model
    inflight_runtime is_inflight_cancelled
booked = (refl, refl, refl, refl, refl, refl)

started : Runs whole (new_ledger whole) running
unfolding apply mark_dispatching lookup sum_by parse_worker_queue_name bytes_eq
started = next (next here (op_mark (codes "r1")) tt) start (refl, omega arith)

reservations_follow_jobs_example :
    get_memory_reservation whole (codes "a") running ≡ total_held whole (codes "a") running
reservations_follow_jobs_example = reservations_follow_jobs whole (codes "a") started

abbrev placing : Ledger whole
placing = apply whole (op_mark (codes "r1")) (new_ledger whole)

abbrev others : List (LedgerOp whole)
others =
    op_start queue_a (codes "r2") (codes "m") (codes "llama-cpp") 5 1000
    ∷ op_attach (codes "r2") (codes "j")
    ∷ []

cancel_wins_example :
    ((request_cancel_during_dispatch whole (codes "r1") placing).0 ≡ true)
    × (start_inflight whole queue_a
          (codes "r1")
          (codes "m")
          (codes "llama-cpp")
          5
          1000
          (apply_all whole others (request_cancel_during_dispatch whole (codes "r1") placing).1)
        ≡ (
          false,
          apply_all whole others (request_cancel_during_dispatch whole (codes "r1") placing).1,
        ))
unfolding apply mark_dispatching lookup insert bytes_eq
cancel_wins_example =
    cancel_wins whole (codes "r1") queue_a (codes "m") (codes "llama-cpp") 5 1000 false others
      placing refl (refl, (refl, tt))
