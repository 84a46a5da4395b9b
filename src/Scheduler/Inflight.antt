-- ===== src/Scheduler/Inflight.antt =====
-- internal/scheduler/scheduler.go: what the scheduler knows of the jobs it is placing and of those
-- that run, all of it under `inflightMu`, so that a method is one function on the record.
pub mod Balance
pub mod Cancel
pub mod Records
mod Tests
use mass.Prelude.{
  ℕ, ◌+◌, ◌≡◌, Bool, true, false, not, ◌&&◌, List, [], ◌∷◌, Option, none, some, Bytes, bytes_eq,
  if◌then◌else◌,
}
use mass.Prelude.Map.{Map, lookup, insert, erase}
use mass.Prelude.Words.{add_64, sub_64, is_positive}
use mass.Queue.Envelope.{is_empty}
use mass.Scheduler.QueueName.{parse_worker_queue_name}

-- float64, of whose arithmetic nothing is used. `is_drained` is `<= inflightFloatEpsilon`.
pub record Float64 : Type 1 where
  pub F : Type 0
  pub zero_f : F
  pub add_f : F → F → F
  pub sub_f : F → F → F
  pub is_drained : F → Bool

pub record InflightRecord (fl : Float64) : Type 0 where
  pub queue_name : Bytes
  pub seconds : Float64.F fl
  pub model_id : Bytes
  pub worker_job_id : Bytes
  pub worker_id : Bytes
  pub cancelled_by_operator : Bool
  pub reserved_bytes : ℕ  -- int64
  pub runtime_name : Bytes

-- The four maps of `Scheduler` that the mutex guards.
pub record Ledger (fl : Float64) : Type 0 where
  pub inflight_seconds : Map (Float64.F fl)
  pub inflight_by_request : Map (InflightRecord fl)
  pub dispatching_by_request : Map Bool
  pub memory_reservations : Map ℕ  -- int64

-- m[k], with the zero value where the key is missing
abbrev pub value_or {ℓ} : {A : Type ℓ} → A → Option A → A
value_or zero none = zero
value_or zero (some v) = v

-- The loops that count or look for records.
unfoldable pub count_if {ℓ} : {V : Type ℓ} → (V → Bool) → Map V → ℕ
count_if test [] = 0
count_if test ((k, v) ∷ m) = if test v then count_if test m + 1 else count_if test m

unfoldable pub has_any {ℓ} : {V : Type ℓ} → (V → Bool) → Map V → Bool
has_any test [] = false
has_any test ((k, v) ∷ m) = if test v then true else has_any test m

module _ (fl : Float64) where
  abbrev pub new_ledger : Ledger fl
  new_ledger = record {
    inflight_seconds = [];
    inflight_by_request = [];
    dispatching_by_request = [];
    memory_reservations = [];
  }

  reserve : Bytes → ℕ → Map ℕ → Map ℕ
  reserve worker_id reserved m =
      if is_positive reserved && not (is_empty worker_id)
      then insert worker_id (add_64 (value_or 0 (lookup worker_id m)) reserved) m
      else m

  abbrev pub new_record : Bytes → Bytes → Bytes → Float64.F fl → ℕ → InflightRecord fl
  new_record queue_name model_id runtime_name seconds reserved = record {
    queue_name = queue_name;
    seconds = seconds;
    model_id = model_id;
    worker_job_id = [];
    worker_id = (parse_worker_queue_name queue_name).0;
    cancelled_by_operator = false;
    reserved_bytes = reserved;
    runtime_name = runtime_name;
  }

  -- The record is written once no cancel is found.
  promote : Bytes → Bytes → Bytes → Bytes → Float64.F fl → ℕ → Ledger fl → Ledger fl
  unfolding reserve
  promote queue_name request_id model_id runtime_name seconds reserved l = record l {
    dispatching_by_request = erase request_id l.dispatching_by_request;
    inflight_seconds =
        insert queue_name
          (Float64.add_f fl (value_or (Float64.zero_f fl) (lookup queue_name l.inflight_seconds))
            seconds)
          l.inflight_seconds;
    memory_reservations =
        reserve (parse_worker_queue_name queue_name).0 reserved l.memory_reservations;
    inflight_by_request =
        insert request_id (new_record queue_name model_id runtime_name seconds reserved)
          l.inflight_by_request;
  }

  unfoldable pub start_inflight :
      Bytes → Bytes → Bytes → Bytes → Float64.F fl → ℕ → Ledger fl → Bool × Ledger fl
  unfolding promote
  start_inflight queue_name request_id model_id runtime_name seconds reserved l =
      if value_or false (lookup request_id l.dispatching_by_request)
      then (false, l)
      else (true, promote queue_name request_id model_id runtime_name seconds reserved l)

  unfoldable pub worker_has_inflight_for_model : Bytes → Bytes → Ledger fl → Bool
  unfolding has_any
  worker_has_inflight_for_model worker_id model_id l =
      has_any
        (λ (rec : InflightRecord fl).
          bytes_eq rec.worker_id worker_id && bytes_eq rec.model_id model_id)
        l.inflight_by_request

  unfoldable pub inflight_count_for_worker : Bytes → Ledger fl → ℕ
  unfolding count_if
  inflight_count_for_worker worker_id l =
      count_if (λ (rec : InflightRecord fl). bytes_eq rec.worker_id worker_id) l.inflight_by_request

  change_record :
      Bytes
      → (InflightRecord fl → InflightRecord fl)
      → Option (InflightRecord fl)
      → Ledger fl
      → Ledger fl
  change_record request_id change none l = l
  change_record request_id change (some rec) l = record l {
    inflight_by_request = insert request_id (change rec) l.inflight_by_request;
  }

  unfoldable pub attach_worker_job_id : Bytes → Bytes → Ledger fl → Ledger fl
  unfolding change_record
  attach_worker_job_id request_id worker_job_id l =
      change_record request_id (λ rec. record rec { worker_job_id = worker_job_id })
        (lookup request_id l.inflight_by_request) l

  -- The worker and its job, and whether the request runs.
  addressed : Option (InflightRecord fl) → Bytes × (Bytes × Bool)
  addressed none = ([], ([], false))
  addressed (some rec) = (rec.worker_id, (rec.worker_job_id, true))

  unfoldable pub mark_inflight_cancelled : Bytes → Ledger fl → (Bytes × (Bytes × Bool)) × Ledger fl
  unfolding change_record addressed
  mark_inflight_cancelled request_id l =
      let rec = lookup request_id l.inflight_by_request in
      (
        addressed rec,
        change_record request_id (λ rec. record rec { cancelled_by_operator = true }) rec l,
      )

  unfoldable pub is_inflight_cancelled : Bytes → Ledger fl → Bool
  is_inflight_cancelled request_id l = elim (lookup request_id l.inflight_by_request) [
    | none ↦ false
    | some rec ↦ rec.cancelled_by_operator
  ]

  unfoldable pub inflight_runtime : Bytes → Ledger fl → Bytes
  inflight_runtime request_id l = elim (lookup request_id l.inflight_by_request) [
    | none ↦ []
    | some rec ↦ rec.runtime_name
  ]

  store_remaining : Bytes → ℕ → Map ℕ → Map ℕ
  store_remaining worker_id remaining m =
      if is_positive remaining then insert worker_id remaining m else erase worker_id m

  release : InflightRecord fl → Map ℕ → Map ℕ
  unfolding store_remaining
  release rec m =
      if is_positive rec.reserved_bytes && not (is_empty rec.worker_id)
      then store_remaining rec.worker_id
          (sub_64 (value_or 0 (lookup rec.worker_id m)) rec.reserved_bytes) m
      else m

  debit : InflightRecord fl → Map (Float64.F fl) → Map (Float64.F fl)
  debit rec m =
      let residual =
        Float64.sub_f fl (value_or (Float64.zero_f fl) (lookup rec.queue_name m)) rec.seconds in
      if Float64.is_drained fl residual
      then erase rec.queue_name m
      else insert rec.queue_name residual m

  finish_record : Bytes → Option (InflightRecord fl) → Ledger fl → Ledger fl
  unfolding release debit
  finish_record request_id none l = l
  finish_record request_id (some rec) l = record l {
    inflight_by_request = erase request_id l.inflight_by_request;
    memory_reservations = release rec l.memory_reservations;
    inflight_seconds = debit rec l.inflight_seconds;
  }

  unfoldable pub finish_inflight : Bytes → Ledger fl → Ledger fl
  unfolding finish_record
  finish_inflight request_id l =
      finish_record request_id (lookup request_id l.inflight_by_request) l

  unfoldable pub mark_dispatching : Bytes → Ledger fl → Ledger fl
  mark_dispatching request_id l = record l {
    dispatching_by_request = insert request_id false l.dispatching_by_request;
  }

  unfoldable pub clear_dispatching : Bytes → Ledger fl → Ledger fl
  clear_dispatching request_id l = record l {
    dispatching_by_request = erase request_id l.dispatching_by_request;
  }

  flag_cancel : Bytes → Option Bool → Ledger fl → Bool × Ledger fl
  flag_cancel request_id none l = (false, l)
  flag_cancel request_id (some _) l =
      (true, record l { dispatching_by_request = insert request_id true l.dispatching_by_request })

  unfoldable pub request_cancel_during_dispatch : Bytes → Ledger fl → Bool × Ledger fl
  unfolding flag_cancel
  request_cancel_during_dispatch request_id l =
      flag_cancel request_id (lookup request_id l.dispatching_by_request) l

  unfoldable pub get_memory_reservation : Bytes → Ledger fl → ℕ
  get_memory_reservation worker_id l = value_or 0 (lookup worker_id l.memory_reservations)

-- One critical section of the scheduler, as its goroutines may interleave them.
pub data LedgerOp (fl : Float64) : Type 0 where
  op_mark op_clear op_cancel op_finish op_mark_cancelled : Bytes → LedgerOp fl
  op_attach : Bytes → Bytes → LedgerOp fl
  op_start : Bytes → Bytes → Bytes → Bytes → Float64.F fl → ℕ → LedgerOp fl

unfoldable pub apply : (fl : Float64) → LedgerOp fl → Ledger fl → Ledger fl
apply fl (op_mark request_id) l = mark_dispatching fl request_id l
apply fl (op_clear request_id) l = clear_dispatching fl request_id l
apply fl (op_cancel request_id) l = (request_cancel_during_dispatch fl request_id l).1
apply fl (op_finish request_id) l = finish_inflight fl request_id l
apply fl (op_mark_cancelled request_id) l = (mark_inflight_cancelled fl request_id l).1
apply fl (op_attach request_id job) l = attach_worker_job_id fl request_id job l
apply fl (op_start queue request_id model runtime seconds reserved) l =
    (start_inflight fl queue request_id model runtime seconds reserved l).1
