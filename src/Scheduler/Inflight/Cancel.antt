-- ===== src/Scheduler/Inflight/Cancel.antt =====
-- Cancels of internal/scheduler/scheduler.go that come while a job is being placed.
use mass.Prelude.{
  All, ◌≡◌, refl, Bool, true, false, List, [], ◌∷◌, ◌++◌, Option, none, some, Bytes, bytes_eq,
  bytes_eq_iff, Bool-cases, inl, inr, arith, ℕ,
}
use mass.Prelude.Map.{lookup, lookup-insert, lookup-erase}
use mass.Scheduler.Inflight.{
  Float64, Ledger, LedgerOp, op_start, op_mark, op_clear, op_cancel, op_finish, op_mark_cancelled,
  op_attach, apply, value_or, start_inflight, promote, finish_inflight, finish_record,
  attach_worker_job_id, mark_inflight_cancelled, mark_dispatching, clear_dispatching,
  request_cancel_during_dispatch, flag_cancel, change_record,
}

-- The ops that open or close the dispatch window of a request.
abbrev pub is_window_of : (fl : Float64) → Bytes → LedgerOp fl → Bool
is_window_of fl r (op_mark request_id) = bytes_eq request_id r
is_window_of fl r (op_clear request_id) = bytes_eq request_id r
is_window_of fl r _ = false

unfoldable pub apply_all : (fl : Float64) → List (LedgerOp fl) → Ledger fl → Ledger fl
apply_all fl [] l = l
apply_all fl (op ∷ ops) l = apply_all fl ops (apply fl op l)

pub apply_all-append :
    (fl : Float64) (ops more : List (LedgerOp fl)) (l : Ledger fl)
    → apply_all fl (ops ++ more) l ≡ apply_all fl more (apply_all fl ops l)
unfolding apply_all
apply_all-append fl [] more l = refl
apply_all-append fl (op ∷ ops) more l = apply_all-append fl ops more (apply fl op l)

module _ (fl : Float64) where
  abbrev IsFlagged : Bytes → Ledger fl → Type 0
  IsFlagged r l = lookup r l.dispatching_by_request ≡ some true

  finish_record-dispatching :
      (r : Bytes) (o : Option _) (l : Ledger fl)
      → (finish_record fl r o l).dispatching_by_request ≡ l.dispatching_by_request
  unfolding finish_record
  finish_record-dispatching r none l = refl
  finish_record-dispatching r (some rec) l = refl

  change_record-dispatching :
      (r : Bytes) (change : _) (o : Option _) (l : Ledger fl)
      → (change_record fl r change o l).dispatching_by_request ≡ l.dispatching_by_request
  unfolding change_record
  change_record-dispatching r change none l = refl
  change_record-dispatching r change (some rec) l = refl

  flag_cancel_keeps :
      (r s : Bytes) (o : Option Bool) (l : Ledger fl)
      → IsFlagged r l
      → IsFlagged r (flag_cancel fl s o l).1
  unfolding flag_cancel
  flag_cancel_keeps r s none l h = h
  flag_cancel_keeps r s (some _) l h =
      ground (arith, lookup-insert s r true l.dispatching_by_request)

  start_keeps :
      (r queue s model runtime : Bytes) (seconds : Float64.F fl) (reserved : ℕ) (l : Ledger fl)
      → IsFlagged r l
      → IsFlagged r (start_inflight fl queue s model runtime seconds reserved l).1
  unfolding start_inflight promote
  start_keeps r queue s model runtime seconds reserved l h =
      elim (Bool-cases (value_or false (lookup s l.dispatching_by_request))) [
        | inl cancelled ↦ rw (cancelled, start_inflight) h
        | inr free ↦
            rw (free, start_inflight)
              (ground (arith, lookup-erase s r l.dispatching_by_request, bytes_eq_iff s r, h, free))
      ]

  apply_keeps :
      (r : Bytes) (op : LedgerOp fl) (l : Ledger fl)
      → is_window_of fl r op ≡ false
      → IsFlagged r l
      → IsFlagged r (apply fl op l)
  unfolding apply mark_dispatching clear_dispatching request_cancel_during_dispatch finish_inflight
      mark_inflight_cancelled attach_worker_job_id
  apply_keeps r (op_mark s) l other h =
      rw (lookup-insert s r false l.dispatching_by_request) (rw other h)
  apply_keeps r (op_clear s) l other h = rw (lookup-erase s r l.dispatching_by_request) (rw other h)
  apply_keeps r (op_cancel s) l other h = flag_cancel_keeps r s _ l h
  apply_keeps r (op_finish s) l other h =
      rw (finish_record-dispatching s (lookup s l.inflight_by_request) l) h
  apply_keeps r (op_mark_cancelled s) l other h =
      rw (change_record-dispatching s _ (lookup s l.inflight_by_request) l) h
  apply_keeps r (op_attach s job) l other h =
      rw (change_record-dispatching s _ (lookup s l.inflight_by_request) l) h
  apply_keeps r (op_start queue s model runtime seconds reserved) l other h =
      start_keeps r queue s model runtime seconds reserved l h

  apply_all_keeps :
      (r : Bytes) (ops : List (LedgerOp fl)) (l : Ledger fl)
      → All (λ op. is_window_of fl r op ≡ false) ops
      → IsFlagged r l
      → IsFlagged r (apply_all fl ops l)
  unfolding apply_all
  apply_all_keeps r [] l others h = h
  apply_all_keeps r (op ∷ ops) l others h =
      apply_all_keeps r ops (apply fl op l) others.1 (apply_keeps r op l others.0 h)

  flag_cancel-flags :
      (r : Bytes) (b : Bool) (l : Ledger fl)
      → ((flag_cancel fl r (some b) l).0 ≡ true) × IsFlagged r (flag_cancel fl r (some b) l).1
  unfolding flag_cancel
  flag_cancel-flags r b l =
      (refl, ground (arith, lookup-insert r r true l.dispatching_by_request, bytes_eq_iff r r))

  flagged_refuses :
      (r queue model runtime : Bytes) (seconds : Float64.F fl) (reserved : ℕ) (u : Ledger fl)
      → IsFlagged r u
      → start_inflight fl queue r model runtime seconds reserved u ≡ (false, u)
  unfolding start_inflight
  flagged_refuses r queue model runtime seconds reserved u h = rw h refl

  -- A cancel that finds the job in its dispatch window is accepted, and then, whatever other critical
  -- sections run before the window closes, the job is not started: `startInflight` refuses and
  -- leaves everything as it is.
  pub cancel_wins :
      (r queue model runtime : Bytes) (seconds : Float64.F fl) (reserved : ℕ) (b : Bool)
      (ops : List (LedgerOp fl)) (l : Ledger fl)
      → lookup r l.dispatching_by_request ≡ some b
      → All (λ op. is_window_of fl r op ≡ false) ops
      → ((request_cancel_during_dispatch fl r l).0 ≡ true)
        × (start_inflight fl queue r model runtime seconds reserved
              (apply_all fl ops (request_cancel_during_dispatch fl r l).1)
            ≡ (false, apply_all fl ops (request_cancel_during_dispatch fl r l).1))
  unfolding request_cancel_during_dispatch
  cancel_wins r queue model runtime seconds reserved b ops l found others = rw found (
    accepted,
    flagged_refuses r queue model runtime seconds reserved
        (apply_all fl ops (flag_cancel fl r (some b) l).1) (apply_all_keeps r ops _ others flagged),
  )
    where
      accepted : (flag_cancel fl r (some b) l).0 ≡ true
      accepted = (flag_cancel-flags r b l).0

      flagged : IsFlagged r (flag_cancel fl r (some b) l).1
      flagged = (flag_cancel-flags r b l).1
