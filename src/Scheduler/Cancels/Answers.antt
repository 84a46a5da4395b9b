-- ===== src/Scheduler/Cancels/Answers.antt =====
-- The answers of `CancelByRequestID` of internal/scheduler/queue_view.go, and what they tell of the
-- stages behind the queues: the dispatch window and the running job.
use mass.Prelude.{
  ◌≡◌, sym, subst, ◌⊎◌, inl, inr, Bool, true, false, Option, none, some, Bytes, Bool-cases,
}
use mathlib.Core.List.{Memᴰ}
use mass.Prelude.Map.{lookup}
use mass.Queue.Database.{Goqite}
use mass.Queue.Envelope.{Proto, is_empty, unmarshal_envelope}
use mass.Queue.Table.{Row}
use mass.Scheduler.Cancels.{
  Reply, ok_reply, row_in_flight, unknown_queue, evict_global_row, no_anchor, not_initialised,
  not_inflight, no_worker_id, worker_gone, not_streamed, send_error, store_error, panics, View,
  Console, names_request, send_cancel, cancel_running_job, after_flag, cancel_dispatched,
}
use mass.Scheduler.Cancels.Effects.{Untouched, Removed, RowReply}
use mass.Scheduler.Inflight.{
  Float64, Ledger, is_inflight_cancelled, mark_inflight_cancelled, request_cancel_during_dispatch,
}
use mass.Scheduler.Inflight.Records.{Flags, Marks, request_cancel-Flags, mark_cancelled-Marks}

-- The job runs, and its record says that it was cancelled; the rows are as they were.
abbrev pub IsMarked : (fl : Float64) → Bytes → View fl → View fl → Type 0
IsMarked fl r v u =
    (is_inflight_cancelled fl r u.ledger ≡ true) × (u.store.db.rows ≡ v.store.db.rows)

-- The job is being placed, and its dispatch will see the cancel; the rows are as they were.
abbrev pub IsFlagged : (fl : Float64) → Bytes → View fl → View fl → Type 0
IsFlagged fl r v u =
    (lookup r u.ledger.dispatching_by_request ≡ some true) × (u.store.db.rows ≡ v.store.db.rows)

-- The job is neither being placed nor running.
abbrev pub IsElsewhere : (fl : Float64) → Bytes → View fl → Type 0
IsElsewhere fl r v =
    (lookup r v.ledger.dispatching_by_request ≡ none)
    × (lookup r v.ledger.inflight_by_request ≡ none)

module _ (g : Goqite) (p : Proto) (fl : Float64) (c : Console fl) where
  -- A queue of the scan, and where the anchors of its rows are: a row of the global queue has none,
  -- those of a worker's rows are in the global queue, if it is there.
  abbrev pub IsScanned : Bytes → Option Bytes → Type 0
  IsScanned queue anchors =
      ((Console.global c ≡ some queue) × (anchors ≡ none))
      ⊎ (Memᴰ queue (Console.workers c) × (anchors ≡ Console.global c))

  -- A visible row that carries the request is gone, a worker's with the anchor that it names.
  abbrev pub IsTaken : Bytes → View fl → View fl → Type 0
  IsTaken r v u =
      (queue id : Bytes) × (anchors : Option Bytes) × IsScanned queue anchors
      × Removed g p fl c queue anchors id v u
      × ((row : Row) × (lookup id v.store.db.rows ≡ some row)
          × (names_request p r (unmarshal_envelope p row.body) ≡ true))

  abbrev pub Answers : Bytes → View fl → Reply × View fl → Type 0
  Answers r v (ok_reply, u) = IsTaken r v u ⊎ (IsFlagged fl r v u ⊎ IsMarked fl r v u)
  Answers r v (not_inflight, u) = Untouched fl v u × IsElsewhere fl r v
  Answers r v (no_worker_id, u) = IsMarked fl r v u
  Answers r v (worker_gone, u) = IsMarked fl r v u
  Answers r v (not_streamed, u) = IsMarked fl r v u
  Answers r v (send_error, u) = IsMarked fl r v u
  Answers r v (row_in_flight, u) = Untouched fl v u
  Answers r v (unknown_queue, u) = Untouched fl v u
  Answers r v (evict_global_row, u) = Untouched fl v u
  Answers r v (no_anchor, u) = Untouched fl v u
  Answers r v (not_initialised, u) = Untouched fl v u
  Answers r v (store_error, u) = Untouched fl v u
  Answers r v (panics, u) = Untouched fl v u

  pub row-Answers :
      (r queue : Bytes) (anchors : Option Bytes) (id : Bytes) (v u : View fl) (e : Reply)
      → IsScanned queue anchors
      → ((row : Row) × (lookup id v.store.db.rows ≡ some row)
          × (names_request p r (unmarshal_envelope p row.body) ≡ true))
      → RowReply g p fl c queue anchors id v (e, u)
      → Answers r v (e, u) × (e ≡ not_inflight → ⊥)
  row-Answers r queue anchors id v u ok_reply scans named h =
      (inl (queue, id, anchors, scans, h, named), λ x. cc x)
  row-Answers r queue anchors id v u row_in_flight scans named h = (h, λ x. cc x)
  row-Answers r queue anchors id v u unknown_queue scans named h = (h, λ x. cc x)
  row-Answers r queue anchors id v u evict_global_row scans named h = (h, λ x. cc x)
  row-Answers r queue anchors id v u no_anchor scans named h = (h, λ x. cc x)
  row-Answers r queue anchors id v u not_initialised scans named h = (h, λ x. cc x)
  row-Answers r queue anchors id v u not_inflight scans named h = absurd h
  row-Answers r queue anchors id v u no_worker_id scans named h = absurd h
  row-Answers r queue anchors id v u worker_gone scans named h = absurd h
  row-Answers r queue anchors id v u not_streamed scans named h = absurd h
  row-Answers r queue anchors id v u send_error scans named h = absurd h
  row-Answers r queue anchors id v u store_error scans named h = (h, λ x. cc x)
  row-Answers r queue anchors id v u panics scans named h = (h, λ x. cc x)

  send_cancel-Answers :
      (r worker_id job_id : Bytes) (runs : Bool) (v u : View fl)
      → Marks fl r v.ledger runs u.ledger
      → u.store.db.rows ≡ v.store.db.rows
      → u.store.results ≡ v.store.results
      → u.buffers ≡ v.buffers
      → lookup r v.ledger.dispatching_by_request ≡ none
      → Answers r v (send_cancel g p fl c worker_id job_id runs u)
  unfolding send_cancel
  send_cancel-Answers r worker_id job_id false v u (absent, books) rows results buffers shut =
      ((rows, results, books, buffers), (shut, absent))
  send_cancel-Answers r worker_id job_id true v u mark rows results buffers shut =
      elim (Bool-cases (is_empty job_id)) [
        | inl unsent ↦ rw (unsent, send_cancel) (inr (inr (mark, rows)))
        | inr known ↦ elim (Bool-cases (is_empty worker_id)) [
          | inl nameless ↦ rw (known, nameless, send_cancel) (mark, rows)
          | inr named ↦ elim (Bool-cases (Console.connected c worker_id)) [
            | inr gone ↦ rw (known, named, gone, send_cancel) (mark, rows)
            | inl there ↦ elim (Bool-cases (Console.streams c worker_id)) [
              | inr other ↦ rw (known, named, there, other, send_cancel) (mark, rows)
              | inl streams ↦ elim (Bool-cases (Console.sends c worker_id)) [
                | inr lost ↦ rw (known, named, there, streams, lost, send_cancel) (mark, rows)
                | inl sent ↦
                    rw (known, named, there, streams, sent, send_cancel) (inr (inr (mark, rows)))
              ]
            ]
          ]
        ]
      ]

  after_flag-Answers :
      (r : Bytes) (o : Bool × Ledger fl) (v w : View fl)
      → Untouched fl v w
      → Flags fl r v.ledger o
      → Answers r v (after_flag g p fl c r o w)
  unfolding after_flag cancel_running_job
  after_flag-Answers r (true, l) v w (rows, results, books, buffers) flag = inr (inl (flag, rows))
  after_flag-Answers r (false, l) v w (rows, results, books, buffers) (shut, same) =
      let marked = mark_inflight_cancelled fl r l in
      send_cancel-Answers r (marked.0).0 ((marked.0).1).0 ((marked.0).1).1 v
        (record w { ledger = marked.1 })
        (subst (λ m. Marks fl r m ((marked.0).1).1 marked.1) same (mark_cancelled-Marks fl r l))
        rows results buffers shut

  pub cancel_dispatched-Answers :
      (r : Bytes) (v w : View fl) → Untouched fl v w → Answers r v (cancel_dispatched g p fl c r w)
  unfolding cancel_dispatched
  cancel_dispatched-Answers r v w h =
      after_flag-Answers r (request_cancel_during_dispatch fl r w.ledger) v w h (
        subst (λ l. Flags fl r v.ledger (request_cancel_during_dispatch fl r l)) (sym (h.2))
          (request_cancel-Flags fl r v.ledger))
