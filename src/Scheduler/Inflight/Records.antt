-- ===== src/Scheduler/Inflight/Records.antt =====
-- The record of one job through the books of internal/scheduler/scheduler.go.
use mass.Prelude.{
  ◌≡◌, refl, ◌∙◌, Bool, true, false, Option, none, some, Bytes, bytes_eq_iff, Bool-cases, inl, inr,
  ℕ, arith,
}
use mass.Prelude.Map.{lookup, lookup-insert, lookup-erase}
use mass.Scheduler.Inflight.{
  Float64, Ledger, InflightRecord, start_inflight, promote, finish_inflight, finish_record,
  attach_worker_job_id, change_record, flag_cancel, request_cancel_during_dispatch,
  mark_inflight_cancelled, is_inflight_cancelled, addressed, value_or, new_record,
}

module _ (fl : Float64) where
  pub start-recorded :
      (queue r model runtime : Bytes) (seconds : Float64.F fl) (reserved : ℕ) (l : Ledger fl)
      → (start_inflight fl queue r model runtime seconds reserved l).0 ≡ true
      → (rec : InflightRecord fl) × (lookup r
            (start_inflight fl queue r model runtime seconds reserved l).1.inflight_by_request
          ≡ some rec)
  unfolding start_inflight promote
  start-recorded queue r model runtime seconds reserved l =
      elim (Bool-cases (value_or false (lookup r l.dispatching_by_request))) [
        | inl flagged ↦ rw (flagged, start_inflight) (λ h. absurd (cc h))
        | inr free ↦
            rw (free, start_inflight)
              (λ h. (
                new_record fl queue model runtime seconds reserved,
                lookup-insert r r (new_record fl queue model runtime seconds reserved)
                      l.inflight_by_request
                    ∙ ground (arith, bytes_eq_iff r r),
              ))
      ]

  pub attach-recorded :
      (r job : Bytes) (rec : InflightRecord fl) (l : Ledger fl)
      → lookup r l.inflight_by_request ≡ some rec
      → lookup r (attach_worker_job_id fl r job l).inflight_by_request
        ≡ some (record rec { worker_job_id = job })
  unfolding attach_worker_job_id
  attach-recorded r job rec l found =
      rw (found, change_record)
        (lookup-insert r r (record rec { worker_job_id = job }) l.inflight_by_request
          ∙ ground (arith, bytes_eq_iff r r))

  finish_record-gone :
      (r : Bytes) (o : Option (InflightRecord fl)) (l : Ledger fl)
      → lookup r l.inflight_by_request ≡ o
      → lookup r (finish_record fl r o l).inflight_by_request ≡ none
  unfolding finish_record
  finish_record-gone r none l e = e
  finish_record-gone r (some rec) l e =
      lookup-erase r r l.inflight_by_request ∙ ground (arith, bytes_eq_iff r r)

  pub finish-gone :
      (r : Bytes) (l : Ledger fl) → lookup r (finish_inflight fl r l).inflight_by_request ≡ none
  unfolding finish_inflight
  finish-gone r l = finish_record-gone r (lookup r l.inflight_by_request) l refl

  -- A cancel that finds a request in its dispatch window flags it; another changes nothing.
  abbrev pub Flags : Bytes → Ledger fl → Bool × Ledger fl → Type 0
  Flags r l (true, u) = lookup r u.dispatching_by_request ≡ some true
  Flags r l (false, u) = (lookup r l.dispatching_by_request ≡ none) × (u ≡ l)

  flag_cancel-Flags :
      (r : Bytes) (o : Option Bool) (l : Ledger fl)
      → lookup r l.dispatching_by_request ≡ o
      → Flags r l (flag_cancel fl r o l)
  unfolding flag_cancel
  flag_cancel-Flags r none l e = (e, refl)
  flag_cancel-Flags r (some b) l e =
      lookup-insert r r true l.dispatching_by_request ∙ ground (arith, bytes_eq_iff r r)

  pub request_cancel-Flags :
      (r : Bytes) (l : Ledger fl) → Flags r l (request_cancel_during_dispatch fl r l)
  unfolding request_cancel_during_dispatch
  request_cancel-Flags r l = flag_cancel-Flags r (lookup r l.dispatching_by_request) l refl

  -- A cancel of a request marks its record, if it runs; another changes nothing.
  abbrev pub Marks : Bytes → Ledger fl → Bool → Ledger fl → Type 0
  Marks r l true u = is_inflight_cancelled fl r u ≡ true
  Marks r l false u = (lookup r l.inflight_by_request ≡ none) × (u ≡ l)

  cancelled_record :
      (r : Bytes) (rec : InflightRecord fl) (l : Ledger fl)
      → lookup r l.inflight_by_request ≡ some rec
      → rec.cancelled_by_operator ≡ true
      → is_inflight_cancelled fl r l ≡ true
  unfolding is_inflight_cancelled
  cancelled_record r rec l found mark = rw (found, is_inflight_cancelled) mark

  marked-Marks :
      (r : Bytes) (o : Option (InflightRecord fl)) (l : Ledger fl)
      → lookup r l.inflight_by_request ≡ o
      → Marks r l
          (((addressed fl o).1).1)
          (change_record fl r (λ rec. record rec { cancelled_by_operator = true }) o l)
  unfolding addressed change_record
  marked-Marks r none l e = (e, refl)
  marked-Marks r (some rec) l e =
      cancelled_record r (record rec { cancelled_by_operator = true })
        (change_record fl r (λ rec. record rec { cancelled_by_operator = true }) (some rec) l)
        (lookup-insert r r (record rec { cancelled_by_operator = true }) l.inflight_by_request
          ∙ ground (arith, bytes_eq_iff r r))
        refl

  pub mark_cancelled-Marks :
      (r : Bytes) (l : Ledger fl)
      → Marks r l ((((mark_inflight_cancelled fl r l).0).1).1) (mark_inflight_cancelled fl r l).1
  unfolding mark_inflight_cancelled
  mark_cancelled-Marks r l = marked-Marks r (lookup r l.inflight_by_request) l refl
