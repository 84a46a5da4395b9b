-- ===== src/Scheduler/Inflight/Balance.antt =====
-- The memory reservations of internal/scheduler/scheduler.go against the jobs that hold them.
use mass.Prelude.{
  ℕ, ◌+◌, ◌<◌, ◌≡◌, refl, sym, ◌∙◌, Bool, true, false, not, ◌&&◌, [], ◌∷◌, Option, none, some,
  Bytes, bytes_eq, bytes_eq_iff, if◌then◌else◌, Bool-cases, inl, inr, arith,
}
use mass.Prelude.Map.{
  Map, lookup, erase, IsMap, lookup-insert, lookup-erase, insert-IsMap, erase-IsMap, sum_by,
  sum_by-insert, sum_by-erase, sum_by-replace,
}
use mass.Prelude.Words.{two_63, add_64, sub_64, is_positive}
use mass.Queue.Envelope.{is_empty}
use mass.Scheduler.Inflight.{
  Float64, InflightRecord, Ledger, value_or, new_ledger, new_record, LedgerOp, op_start, op_mark,
  op_clear, op_cancel, op_finish, op_mark_cancelled, op_attach, apply, start_inflight,
  finish_inflight, attach_worker_job_id, mark_inflight_cancelled, mark_dispatching,
  clear_dispatching, request_cancel_during_dispatch, reserve, release, promote, change_record,
  finish_record, store_remaining, get_memory_reservation, flag_cancel, count_if,
  inflight_count_for_worker,
}
use mass.Scheduler.QueueName.{parse_worker_queue_name}

-- A positive reservation of a worker with an ID, and nothing else.
abbrev pub amount : Bytes → ℕ → ℕ
amount worker_id reserved = if is_positive reserved && not (is_empty worker_id) then reserved else 0

-- What a record holds of the memory of worker `w`.
abbrev pub held : (fl : Float64) → Bytes → InflightRecord fl → ℕ
held fl w rec = if bytes_eq rec.worker_id w then amount rec.worker_id rec.reserved_bytes else 0

abbrev pub total_held : (fl : Float64) → Bytes → Ledger fl → ℕ
total_held fl w l = sum_by (held fl w) l.inflight_by_request

module _ (fl : Float64) where
  reserve_lem :
      (w worker_id : Bytes) (reserved : ℕ) (m : Map ℕ)
      → value_or 0 (lookup worker_id m) + amount worker_id reserved < two_63
      → value_or 0 (lookup w (reserve fl worker_id reserved m))
        ≡ value_or 0 (lookup w m) + (if bytes_eq worker_id w then amount worker_id reserved else 0)
  unfolding reserve
  reserve_lem w worker_id reserved m small =
      let v = value_or 0 (lookup worker_id m) in
      ground (arith, bytes_eq_iff worker_id w, lookup-insert worker_id w (add_64 v reserved) m)

  store_remaining_lem :
      (w worker_id : Bytes) (remaining : ℕ) (m : Map ℕ)
      → remaining < two_63
      → value_or 0 (lookup w (store_remaining fl worker_id remaining m))
        ≡ (if bytes_eq worker_id w then remaining else value_or 0 (lookup w m))
  unfolding store_remaining
  store_remaining_lem w worker_id remaining m small =
      ground (arith, lookup-insert worker_id w remaining m, lookup-erase worker_id w m)

  release_lem :
      (w : Bytes) (rec : InflightRecord fl) (rest : ℕ) (m : Map ℕ)
      → value_or 0 (lookup rec.worker_id m) < two_63
      → value_or 0 (lookup rec.worker_id m) ≡ amount rec.worker_id rec.reserved_bytes + rest
      → value_or 0 (lookup w (release fl rec m)) + held fl w rec ≡ value_or 0 (lookup w m)
  unfolding release
  release_lem w rec rest m small enough =
      let v = value_or 0 (lookup rec.worker_id m) in
      ground (
        arith,
        bytes_eq_iff rec.worker_id w,
        store_remaining_lem w rec.worker_id (sub_64 v rec.reserved_bytes) m,
      )

-- Every worker's reservation is what the records of its jobs hold.
pub record IsBalanced (fl : Float64) (l : Ledger fl) : Type 0 where
  pub records : IsMap l.inflight_by_request
  pub balanced : (w : Bytes) → get_memory_reservation fl w l ≡ total_held fl w l
  pub small : (w : Bytes) → total_held fl w l < two_63

-- What a caller of `startInflight` sees to: the request does not run already, and the worker's
-- reservations stay within an int64.
abbrev pub IsFair : (fl : Float64) → LedgerOp fl → Ledger fl → Type 0
IsFair fl (op_start queue request_id model runtime seconds reserved) l =
    (lookup request_id l.inflight_by_request ≡ none)
    × (total_held fl (parse_worker_queue_name queue).0 l + reserved < two_63)
IsFair fl _ l = Unit

module _ (fl : Float64) where
  new_ledger-IsBalanced : IsBalanced fl (new_ledger fl)
  unfolding sum_by lookup get_memory_reservation
  new_ledger-IsBalanced = record { records = tt; balanced = λ w. refl; small = λ w. omega arith }

  promote-IsBalanced :
      (queue request_id model runtime : Bytes) (seconds : Float64.F fl) (reserved : ℕ)
      (l : Ledger fl)
      → IsFair fl (op_start queue request_id model runtime seconds reserved) l
      → IsBalanced fl l
      → IsBalanced fl (promote fl queue request_id model runtime seconds reserved l)
  unfolding promote get_memory_reservation
  promote-IsBalanced queue request_id model runtime seconds reserved l (fresh, fits) b = record {
    records = insert-IsMap request_id added l.inflight_by_request b.records;
    balanced = λ w.
        let more = sum_by-insert (held fl w) request_id added l.inflight_by_request fresh in
        let booked = reserve_lem fl w worker_id reserved l.memory_reservations in
        ground (arith, more, booked, b.balanced w, b.balanced worker_id, b.small w);
    small = λ w.
        let more = sum_by-insert (held fl w) request_id added l.inflight_by_request fresh in
        ground (arith, more, bytes_eq_iff worker_id w, b.small w);
  }
    where
      worker_id : Bytes
      worker_id = (parse_worker_queue_name queue).0

      added : InflightRecord fl
      added = new_record fl queue model runtime seconds reserved

  change_record-IsBalanced :
      (request_id : Bytes) (change : InflightRecord fl → InflightRecord fl)
      (o : Option (InflightRecord fl)) (l : Ledger fl)
      → lookup request_id l.inflight_by_request ≡ o
      → ((w : Bytes) (rec : InflightRecord fl) → held fl w (change rec) ≡ held fl w rec)
      → IsBalanced fl l
      → IsBalanced fl (change_record fl request_id change o l)
  unfolding change_record get_memory_reservation
  change_record-IsBalanced request_id change none l e same b = b
  change_record-IsBalanced request_id change (some rec) l e same b =
      let total = λ (w : Bytes).
        sum_by-replace (held fl w) request_id rec (change rec) l.inflight_by_request e
          (same w rec) in
      record {
        records = insert-IsMap request_id (change rec) l.inflight_by_request b.records;
        balanced = λ w. b.balanced w ∙ sym (total w);
        small = λ w. rw (total w) (b.small w);
      }

  finish_record-IsBalanced :
      (request_id : Bytes) (o : Option (InflightRecord fl)) (l : Ledger fl)
      → lookup request_id l.inflight_by_request ≡ o
      → IsBalanced fl l
      → IsBalanced fl (finish_record fl request_id o l)
  unfolding finish_record get_memory_reservation
  finish_record-IsBalanced request_id none l e b = b
  finish_record-IsBalanced request_id (some rec) l e b =
      let less =
        λ (w : Bytes). sum_by-erase (held fl w) request_id rec l.inflight_by_request b.records e in
      record {
        records = erase-IsMap request_id l.inflight_by_request b.records;
        balanced = λ w.
            let freed =
              release_lem fl w rec
                (sum_by (held fl rec.worker_id) (erase request_id l.inflight_by_request))
                l.memory_reservations in
            ground (
              arith,
              freed,
              less w,
              less rec.worker_id,
              b.balanced w,
              b.balanced rec.worker_id,
              b.small rec.worker_id,
              bytes_eq_iff rec.worker_id rec.worker_id,
            );
        small = λ w. omega (arith, less w, b.small w);
      }

  -- The maps that the balance does not read.
  dispatching-IsBalanced :
      (m : Map Bool) (l : Ledger fl)
      → IsBalanced fl l
      → IsBalanced fl (record l { dispatching_by_request = m })
  unfolding get_memory_reservation
  dispatching-IsBalanced m l b = record {
    records = b.records;
    balanced = b.balanced;
    small = b.small;
  }

  flag_cancel-IsBalanced :
      (request_id : Bytes) (o : Option Bool) (l : Ledger fl)
      → IsBalanced fl l
      → IsBalanced fl (flag_cancel fl request_id o l).1
  unfolding flag_cancel
  flag_cancel-IsBalanced request_id none l b = b
  flag_cancel-IsBalanced request_id (some _) l b = dispatching-IsBalanced _ l b

  start_inflight-IsBalanced :
      (queue r model runtime : Bytes) (seconds : Float64.F fl) (reserved : ℕ) (l : Ledger fl)
      → IsFair fl (op_start queue r model runtime seconds reserved) l
      → IsBalanced fl l
      → IsBalanced fl (start_inflight fl queue r model runtime seconds reserved l).1
  unfolding start_inflight
  start_inflight-IsBalanced queue r model runtime seconds reserved l fair b =
      elim (Bool-cases (value_or false (lookup r l.dispatching_by_request))) [
        | inl cancelled ↦ rw (cancelled, start_inflight) b
        | inr free ↦
            rw (free, start_inflight)
              (promote-IsBalanced queue r model runtime seconds reserved l fair b)
      ]

  apply-IsBalanced :
      (op : LedgerOp fl) (l : Ledger fl)
      → IsFair fl op l
      → IsBalanced fl l
      → IsBalanced fl (apply fl op l)
  unfolding apply mark_dispatching clear_dispatching request_cancel_during_dispatch finish_inflight
      mark_inflight_cancelled attach_worker_job_id
  apply-IsBalanced (op_mark r) l fair b = dispatching-IsBalanced _ l b
  apply-IsBalanced (op_clear r) l fair b = dispatching-IsBalanced _ l b
  apply-IsBalanced (op_cancel r) l fair b =
      flag_cancel-IsBalanced r (lookup r l.dispatching_by_request) l b
  apply-IsBalanced (op_finish r) l fair b =
      finish_record-IsBalanced r (lookup r l.inflight_by_request) l refl b
  apply-IsBalanced (op_mark_cancelled r) l fair b =
      change_record-IsBalanced r (λ rec. record rec { cancelled_by_operator = true })
        (lookup r l.inflight_by_request) l refl (λ w rec. refl) b
  apply-IsBalanced (op_attach r job) l fair b =
      change_record-IsBalanced r (λ rec. record rec { worker_job_id = job })
        (lookup r l.inflight_by_request) l refl (λ w rec. refl) b
  apply-IsBalanced (op_start queue r model runtime seconds reserved) l fair b =
      start_inflight-IsBalanced queue r model runtime seconds reserved l fair b

-- A run of the scheduler's critical sections, in any order.
pub data Runs (fl : Float64) (l : Ledger fl) : Ledger fl → Type 0 where
  here : Runs fl l l
  next :
      {m : Ledger fl}
      → Runs fl l m
      → (op : LedgerOp fl) → IsFair fl op m
      → Runs fl l (apply fl op m)

module _ (fl : Float64) where
  Runs-IsBalanced : {l : Ledger fl} → Runs fl (new_ledger fl) l → IsBalanced fl l
  Runs-IsBalanced here = new_ledger-IsBalanced fl
  Runs-IsBalanced (next {m = m} run op fair) = apply-IsBalanced fl op m fair (Runs-IsBalanced run)

  -- After any run of dispatches, cancels and ends of jobs, the memory reserved on a worker is exactly
  -- what the jobs in flight there reserved, as long as no request is started twice and the sums fit
  -- an int64.
  pub reservations_follow_jobs :
      (w : Bytes) {l : Ledger fl}
      → Runs fl (new_ledger fl) l
      → get_memory_reservation fl w l ≡ total_held fl w l
  reservations_follow_jobs w run = (Runs-IsBalanced run).balanced w

  idle_holds_nothing :
      (w : Bytes) (m : Map (InflightRecord fl))
      → count_if (λ rec. bytes_eq rec.worker_id w) m ≡ 0
      → sum_by (held fl w) m ≡ 0
  unfolding count_if sum_by
  idle_holds_nothing w [] h = refl
  idle_holds_nothing w ((k, rec) ∷ m) h = ground (arith, idle_holds_nothing w m)

  -- A worker without a job in flight has no memory reserved, whatever ran before.
  pub idle_worker_is_free :
      (w : Bytes) {l : Ledger fl}
      → Runs fl (new_ledger fl) l
      → inflight_count_for_worker fl w l ≡ 0
      → get_memory_reservation fl w l ≡ 0
  unfolding inflight_count_for_worker
  idle_worker_is_free w {l} run idle =
      reservations_follow_jobs w run ∙ idle_holds_nothing w l.inflight_by_request idle
