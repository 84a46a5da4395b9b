-- ===== src/Scheduler/Placement/Submitted.antt =====
-- What `Submit` of internal/scheduler/scheduler.go answers, and what it leaves behind.
use mass.Prelude.{
  ◌≡◌, refl, sym, ap, ◌∙◌, Bool, true, false, ◌⊎◌, inl, inr, Option, none, some, Bytes, bytes_eq,
  bytes_eq_iff, Bool-cases, arith,
}
use mass.Prelude.Map.{Map, lookup, insert, lookup-insert, lookup-erase}
use mass.Queue.Database.{Goqite}
use mass.Queue.Envelope.{Proto, Envelope, marshal}
use mass.Queue.Ops.{submit}
use mass.Queue.Ops.Handover.{submit-Sent}
use mass.Queue.Results.{Outcome, did, failed, crashed, lift, create}
use mass.Queue.Results.Creation.{new_result, Creates, create-Creates}
use mass.Queue.Table.{Row, Table}
use mass.Scheduler.Dispatch.{Dispatcher}
use mass.Scheduler.Inflight.{Float64}
use mass.Scheduler.Placement.{
  SubmitRequest, SubmitError, envelope_refused, result_refused, SubmitReply, accepted, rejected,
  panics, Desk, envelope_of, place_on_worker_queue, drop_job, after_placing, after_submit,
  after_create, checked, reject_reason, submit_job,
}
use mass.Scheduler.Placement.Rows.{IsHanded, place_on_worker_queue-IsHanded}
use mass.Scheduler.Placement.Sending.{SentBy, Sent-SentBy}
use mass.Scheduler.Scoring.{Arith, Fleet}
use mass.Scheduler.StreamBuffer.{new_job_buffer}

-- Every row of `t` is in `u` as it was.
abbrev pub Holds : Table → Table → Type 0
Holds t u = (k : Bytes) (row : Row) → lookup k t ≡ some row → lookup k u ≡ some row

module _ (g : Goqite) (p : Proto) (fl : Float64) (a : Arith fl) (fleet : Fleet fl p)
    (c : Desk p) where
  -- What a `Submit` touches of other requests, and of the rows: nothing.
  abbrev pub OnlyAdds : Bytes → Dispatcher fl → Dispatcher fl → Type 0
  OnlyAdds request_id st u =
      ((j : Bytes)
        → bytes_eq request_id j ≡ false
        → (lookup j u.store.results ≡ lookup j st.store.results)
          × (lookup j u.buffers ≡ lookup j st.buffers))
      × Holds st.store.db.rows u.store.db.rows

  -- The job is there: a fresh pending result, an empty buffer and a fresh row that holds its envelope
  -- on the global queue.
  abbrev pub IsAdmitted : Envelope p → Dispatcher fl → Dispatcher fl → Type 0
  IsAdmitted env st u =
      (lookup env.request_id st.store.results ≡ none)
      × (lookup env.request_id u.store.results ≡ some (new_result c.stamp))
      × (lookup env.request_id u.buffers ≡ some (new_job_buffer c.now))
      × ((global : Bytes) × (key : Bytes) × (row : Row) × (c.global ≡ some global)
          × (lookup key st.store.db.rows ≡ none)
          × (lookup key u.store.db.rows ≡ some row)
          × (row.queue ≡ global)
          × (marshal p env ≡ some row.body))

  -- The job was not taken: the rows are as they were, and it has no buffer unless nothing was done.
  abbrev pub IsTurnedAway : Bytes → Dispatcher fl → Dispatcher fl → Type 0
  IsTurnedAway request_id st u =
      (u ≡ st) ⊎ ((u.store.db.rows ≡ st.store.db.rows) × (lookup request_id u.buffers ≡ none))

  abbrev pub Answers : Envelope p → Dispatcher fl → SubmitReply → Dispatcher fl → Type 0
  Answers env st (accepted id) u =
      (id ≡ env.request_id) × IsAdmitted env st u × OnlyAdds env.request_id st u
  Answers env st (rejected e) u = IsTurnedAway env.request_id st u × OnlyAdds env.request_id st u
  Answers env st panics u = OnlyAdds env.request_id st u

  -- The buffer and the result of the request are made.
  abbrev IsPrepared : Bytes → Dispatcher fl → Dispatcher fl → Type 0
  IsPrepared request_id st u =
      (u.buffers ≡ insert request_id (new_job_buffer c.now) st.buffers)
      × (u.store.results ≡ insert request_id (new_result c.stamp) st.store.results)

  others-inserted {ℓ} :
      {V : Type ℓ} (id j : Bytes) (v : V) (m n : Map V)
      → n ≡ insert id v m
      → bytes_eq id j ≡ false
      → lookup j n ≡ lookup j m
  others-inserted id j v m n e other = ap (lookup j) e ∙ lookup-insert id j v m ∙ rw other refl

  found-inserted {ℓ} :
      {V : Type ℓ} (id : Bytes) (v : V) (m n : Map V) → n ≡ insert id v m → lookup id n ≡ some v
  found-inserted id v m n e =
      ap (lookup id) e ∙ lookup-insert id id v m ∙ ground (arith, bytes_eq_iff id id)

  IsPrepared-OnlyAdds :
      (request_id : Bytes) (st u : Dispatcher fl)
      → IsPrepared request_id st u
      → Holds st.store.db.rows u.store.db.rows
      → OnlyAdds request_id st u
  IsPrepared-OnlyAdds request_id st u (buffers, results) holds = (
    λ j other. (
      others-inserted request_id j (new_result c.stamp) st.store.results u.store.results results
          other,
      others-inserted request_id j (new_job_buffer c.now) st.buffers u.buffers buffers other,
    ),
    holds,
  )

  same_rows : (t u : Table) → u ≡ t → Holds t u
  same_rows t u e k row here = ap (lookup k) e ∙ here

  -- The handoff behind a submission keeps the new row and all the older ones.
  Holds-after_handoff :
      (key : Bytes) (st mid u : Dispatcher fl)
      → lookup key st.store.db.rows ≡ none
      → Holds st.store.db.rows mid.store.db.rows
      → IsHanded g p fl a fleet c key mid u
      → Holds st.store.db.rows u.store.db.rows
  Holds-after_handoff key st mid u fresh holds (results, buffers, keeps) k row here =
      let (now, there, queue, body, same) = keeps k row (holds k row here) in
      elim (Bool-cases (bytes_eq key k)) [
        | inl is ↦
            absurd
              (cc (fresh, here, ap (λ j. lookup j st.store.db.rows) ((bytes_eq_iff key k).0 is)))
        | inr other ↦ there ∙ ap some (same other)
      ]

  after_placing-Answers :
      (global key body : Bytes) (env : Envelope p) (row : Row) (st mid : Dispatcher fl)
      (o : Bool × Dispatcher fl)
      → c.global ≡ some global
      → lookup env.request_id st.store.results ≡ none
      → IsPrepared env.request_id st mid
      → lookup key st.store.db.rows ≡ none
      → Holds st.store.db.rows mid.store.db.rows
      → marshal p env ≡ some body
      → lookup key mid.store.db.rows ≡ some row
      → (row.queue ≡ global) × (row.body ≡ body)
      → IsHanded g p fl a fleet c key mid o.1
      → Answers env st
          (after_placing g p fl a fleet c env.request_id o).0
          (after_placing g p fl a fleet c env.request_id o).1
  unfolding after_placing
  after_placing-Answers global key body env row st mid (false, u) is_global new (made, written)
        fresh holds e there shape after_handoff =
      IsPrepared-OnlyAdds env.request_id st u (after_handoff.1 ∙ made, after_handoff.0 ∙ written)
        (Holds-after_handoff key st mid u fresh holds after_handoff)
  after_placing-Answers global key body env row st mid (true, u) is_global new (made, written) fresh
        holds e there shape after_handoff =
      let (now, still, queue, same_body, same) = after_handoff.2 key row there in
      (
        refl,
        (
          new,
          found-inserted env.request_id (new_result c.stamp) st.store.results u.store.results
              (after_handoff.0 ∙ written),
          found-inserted env.request_id (new_job_buffer c.now) st.buffers u.buffers
              (after_handoff.1 ∙ made),
          (
            global,
            key,
            now,
            is_global,
            fresh,
            still,
            queue ∙ shape.0,
            e ∙ ap some (sym (same_body ∙ shape.1)),
          ),
        ),
        IsPrepared-OnlyAdds env.request_id st u (after_handoff.1 ∙ made, after_handoff.0 ∙ written)
            (Holds-after_handoff key st mid u fresh holds after_handoff),
      )

  -- Without a buffer again, and with no row more.
  dropped-Answers :
      (env : Envelope p) (e : SubmitError) (st mid : Dispatcher fl)
      → mid.buffers ≡ insert env.request_id (new_job_buffer c.now) st.buffers
      → ((j : Bytes)
          → bytes_eq env.request_id j ≡ false
          → lookup j mid.store.results ≡ lookup j st.store.results)
      → mid.store.db.rows ≡ st.store.db.rows
      → Answers env st (rejected e) (drop_job g p fl a fleet c env.request_id mid)
  unfolding drop_job
  dropped-Answers env e st mid made results rows = (
    inr (
      rows,
      lookup-erase env.request_id env.request_id mid.buffers
          ∙ ground (arith, bytes_eq_iff env.request_id env.request_id),
    ),
    (
      λ j other. (
        results j other,
        lookup-erase env.request_id j mid.buffers
            ∙ rw other (
                others-inserted env.request_id j (new_job_buffer c.now) st.buffers mid.buffers made
                  other),
      ),
      same_rows st.store.db.rows mid.store.db.rows rows,
    ),
  )

  after_submit-Answers :
      (global : Bytes) (env : Envelope p) (o : Outcome Bytes) (st mid : Dispatcher fl)
      → c.global ≡ some global
      → lookup env.request_id st.store.results ≡ none
      → IsPrepared env.request_id st mid
      → mid.store.db.rows ≡ st.store.db.rows
      → SentBy g p global env (marshal p env) mid.store o
      → Answers env st
          (after_submit g p fl a fleet c global env o mid).0
          (after_submit g p fl a fleet c global env o mid).1
  unfolding after_submit
  after_submit-Answers global env (did key s) st mid is_global new (made, written) rows
        (same, (body, e, fresh, (row, there, queue, is_body), older)) =
      let next : Dispatcher fl = record mid { store = s } in
      let placed : Envelope p = record env { global_msg_id = key } in
      after_placing-Answers global key body env row st next
        (place_on_worker_queue g p fl a fleet c global placed next) is_global new
        (made, same ∙ written) (sym (ap (lookup key) rows) ∙ fresh)
        (λ k r here. older k r (ap (lookup k) rows ∙ here)) e there (queue, is_body)
        (place_on_worker_queue-IsHanded g p fl a fleet c global placed next)
  after_submit-Answers global env (failed s) st mid is_global new (made, written) rows
        (same, kept) =
      dropped-Answers env envelope_refused st (record mid { store = s }) made
        (λ j other.
          others-inserted env.request_id j (new_result c.stamp) st.store.results s.results
            (same ∙ written) other)
        (kept ∙ rows)
  after_submit-Answers global env (crashed s) st mid is_global new (made, written) rows
        (same, kept) =
      IsPrepared-OnlyAdds env.request_id st (record mid { store = s }) (made, same ∙ written)
        (same_rows st.store.db.rows s.db.rows (kept ∙ rows))

  after_create-Answers :
      (global : Bytes) (env : Envelope p) (o : Outcome (Unit {0})) (st mid : Dispatcher fl)
      → c.global ≡ some global
      → mid ≡ record st { buffers = insert env.request_id (new_job_buffer c.now) st.buffers }
      → Creates env.request_id c.stamp st.store o
      → Answers env st
          (after_create g p fl a fleet c global env o mid).0
          (after_create g p fl a fleet c global env o mid).1
  unfolding after_create lift
  after_create-Answers global env (did x s) st mid is_global e (new, written, rows) =
      after_submit-Answers global env (lift (submit g p global env c.now) s) st
        (record mid { store = s }) is_global new (ap (λ (u : Dispatcher fl). u.buffers) e, written)
        rows
        (Sent-SentBy g p global env c.now s (submit g p global env c.now s.db)
          (submit-Sent g p global env c.now s.db))
  after_create-Answers global env (failed s) st mid is_global e (same, rows) =
      dropped-Answers env result_refused st (record mid { store = s })
        (ap (λ (u : Dispatcher fl). u.buffers) e) (λ j other. ap (lookup j) same) rows
  after_create-Answers global env (crashed s) st mid is_global e (same, rows) = (
    λ j other. (
      ap (lookup j) same,
      others-inserted env.request_id j (new_job_buffer c.now) st.buffers mid.buffers
          (ap (λ (u : Dispatcher fl). u.buffers) e) other,
    ),
    same_rows st.store.db.rows s.db.rows rows,
  )

  checked-Answers :
      (req : SubmitRequest p) (request_id : Bytes) (e : Option SubmitError) (global : Option Bytes)
      (st : Dispatcher fl)
      → c.global ≡ global
      → Answers
          (envelope_of p req request_id)
          st
          (checked g p fl a fleet c req request_id e global st).0
          (checked g p fl a fleet c req request_id e global st).1
  unfolding checked envelope_of
  checked-Answers req request_id (some e) global st is =
      (inl refl, ((λ j other. (refl, refl)), λ k row here. here))
  checked-Answers req request_id none none st is =
      (inl refl, ((λ j other. (refl, refl)), λ k row here. here))
  checked-Answers req request_id none (some global) st is =
      after_create-Answers global (envelope_of p req request_id)
        (create request_id c.stamp st.store) st _ is refl
        (create-Creates request_id c.stamp st.store)

  -- A `Submit` that is accepted has admitted the job: the request ID that it names had no result
  -- before and has a pending one now, it has an empty stream, and the job's envelope is in the global
  -- queue, under a fresh key, whether or not it was placed on a worker's queue as well. One that is
  -- rejected has done nothing, or else left the rows as they were and no stream of the request.
  -- Whatever fails, a panic included, no other request's result or stream changes, and no row that was
  -- there before.
  pub submit_job-Answers :
      (req : SubmitRequest p) (request_id : Bytes) (st : Dispatcher fl)
      → Answers
          (envelope_of p req request_id)
          st
          (submit_job g p fl a fleet c req request_id st).0
          (submit_job g p fl a fleet c req request_id st).1
  unfolding submit_job
  submit_job-Answers req request_id st =
      checked-Answers req request_id (reject_reason g p fl a fleet c req) c.global st refl
