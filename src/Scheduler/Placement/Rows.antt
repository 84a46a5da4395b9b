-- ===== src/Scheduler/Placement/Rows.antt =====
-- What a handoff of internal/scheduler/scheduler.go, `LeaseAndSubmit` and the tail beside it, leaves of
-- the rows that were there before.
use mass.Prelude.{
  ℕ, ◌+◌, ◌≡◌, refl, sym, ap, ◌∙◌, false, inl, inr, Option, none, some, Bytes, bytes_eq,
  bytes_eq_iff, Bool-cases,
}
use mass.Prelude.Map.{lookup}
use mass.Queue.Database.{Result, ok, err, panicked, Goqite}
use mass.Queue.Database.Rules.{Atomic}
use mass.Queue.Envelope.{Proto, Envelope}
use mass.Queue.Ops.{lease_to, lease_and_submit}
use mass.Queue.Ops.Handover.{Submitted, lease_and_submit-Atomic}
use mass.Queue.Results.{ResultTable, Outcome, did, failed, crashed, lift, lifted}
use mass.Queue.Table.{Row, Table}
use mass.Scheduler.Dispatch.{Dispatcher}
use mass.Scheduler.Inflight.{Float64}
use mass.Scheduler.Placement.{
  Desk, credit_tail, after_handoff, hand_off, placed_on, place_on_worker_queue,
}
use mass.Scheduler.Scoring.{Arith, Fleet, Target, pick_worker_queue}

-- A row is still there, with its queue and its bytes, and if it is not the anchor, as it was.
abbrev pub IsKept : Bytes → Bytes → Row → Table → Type 0
IsKept anchor k row u =
    (now : Row) × (lookup k u ≡ some now)
    × (now.queue ≡ row.queue)
    × (now.body ≡ row.body)
    × (bytes_eq anchor k ≡ false → now ≡ row)

abbrev pub Keeps : Bytes → Table → Table → Type 0
Keeps anchor t u = (k : Bytes) (row : Row) → lookup k t ≡ some row → IsKept anchor k row u

untouched :
    (anchor : Bytes) (t u : Table) → ((k : Bytes) → lookup k u ≡ lookup k t) → Keeps anchor t u
untouched anchor t u same k row here = (row, same k ∙ here, refl, refl, λ _. refl)

module _ (g : Goqite) (p : Proto) where
  Submitted-Keeps :
      (queue id : Bytes) (dur : ℕ) (dst : Bytes) (env : Envelope p) (now : ℕ) (t : Table)
      (o : Option Bytes) (u : Table)
      → Submitted g p queue id dur dst env now t o u
      → Keeps id t u
  Submitted-Keeps queue id dur dst env now t none u (e, same) k row here =
      untouched id t u same k row here
  Submitted-Keeps queue id dur dst env now t (some key) u (r, body, found, pending, e, fresh, view)
        k row here =
      elim (Bool-cases (bytes_eq key k)) [
        | inl same ↦ absurd (cc (fresh, here, ap (λ j. lookup j t) ((bytes_eq_iff key k).0 same)))
        | inr other ↦ elim (Bool-cases (bytes_eq id k)) [
          | inl anchor ↦
              let is : some r ≡ some row =
                sym found ∙ ap (λ j. lookup j t) ((bytes_eq_iff id k).0 anchor) ∙ here in
              let same_row : r ≡ row = cc is in
              (
                lease_to (now + dur) r,
                view k ∙ rw (other, anchor) refl,
                ap (λ (x : Row). x.queue) same_row,
                ap (λ (x : Row). x.body) same_row,
                λ h. cc (anchor, h),
              )
          | inr apart ↦ (row, view k ∙ rw (other, apart) here, refl, refl, λ _. refl)
        ]
      ]

  abbrev KeptBy {ℓ} : {A : Type ℓ} → Bytes → ResultTable → Table → Outcome A → Type 0
  KeptBy anchor results t (did x s) = (s.results ≡ results) × Keeps anchor t s.db.rows
  KeptBy anchor results t (failed s) = (s.results ≡ results) × Keeps anchor t s.db.rows
  KeptBy anchor results t (crashed s) = (s.results ≡ results) × Keeps anchor t s.db.rows

  Atomic-KeptBy :
      (queue id : Bytes) (dur : ℕ) (dst : Bytes) (env : Envelope p) (now : ℕ) (t : Table)
      (results : ResultTable) (o : Result (Option Bytes))
      → Atomic (Submitted g p queue id dur dst env now t) t o
      → KeptBy id results t (lifted results o)
  unfolding lifted
  Atomic-KeptBy queue id dur dst env now t results (ok key db) h =
      (refl, Submitted-Keeps queue id dur dst env now t key db.rows h)
  Atomic-KeptBy queue id dur dst env now t results (err db) e =
      (refl, untouched id t db.rows (λ k. ap (lookup k) e))
  Atomic-KeptBy queue id dur dst env now t results (panicked db) e =
      (refl, untouched id t db.rows (λ k. ap (lookup k) e))

module _ (g : Goqite) (p : Proto) (fl : Float64) (a : Arith fl) (fleet : Fleet fl p)
    (c : Desk p) where
  -- A handoff changes no result and no buffer, and of the rows only the anchor's lease.
  abbrev pub IsHanded : Bytes → Dispatcher fl → Dispatcher fl → Type 0
  IsHanded anchor st u =
      (u.store.results ≡ st.store.results)
      × (u.buffers ≡ st.buffers)
      × Keeps anchor st.store.db.rows u.store.db.rows

  after_handoff-IsHanded :
      (env : Envelope p) (t : Target fl) (o : Outcome (Option Bytes)) (anchor : Bytes)
      (st : Dispatcher fl)
      → KeptBy g p anchor st.store.results st.store.db.rows o
      → IsHanded anchor st (after_handoff g p fl a fleet c env t o st).1
  unfolding after_handoff credit_tail
  after_handoff-IsHanded env t (did none s) anchor st (same, kept) = (same, refl, kept)
  after_handoff-IsHanded env t (did (some key) s) anchor st (same, kept) = (same, refl, kept)
  after_handoff-IsHanded env t (failed s) anchor st (same, kept) = (same, refl, kept)
  after_handoff-IsHanded env t (crashed s) anchor st (same, kept) = (same, refl, kept)

  pub hand_off-IsHanded :
      (global : Bytes) (env : Envelope p) (t : Target fl) (st : Dispatcher fl)
      → IsHanded env.global_msg_id st (hand_off g p fl a fleet c global env t st).1
  unfolding hand_off lift
  hand_off-IsHanded global env t st =
      let stamped : Envelope p = record env { queued_seconds = Arith.to_bits a t.queued_seconds } in
      after_handoff-IsHanded stamped t
        (lift (lease_and_submit g p global env.global_msg_id c.lease t.name stamped c.now) st.store)
        env.global_msg_id st
        (Atomic-KeptBy g p global env.global_msg_id c.lease t.name stamped c.now st.store.db.rows
          st.store.results
          (lease_and_submit g p global env.global_msg_id c.lease t.name stamped c.now st.store.db)
          (lease_and_submit-Atomic g p global env.global_msg_id c.lease t.name stamped c.now
            st.store.db))

  after_handoff-ledger :
      (env : Envelope p) (t : Target fl) (o : Outcome (Option Bytes)) (st : Dispatcher fl)
      → (after_handoff g p fl a fleet c env t o st).1.ledger ≡ st.ledger
  unfolding after_handoff credit_tail
  after_handoff-ledger env t (did none s) st = refl
  after_handoff-ledger env t (did (some key) s) st = refl
  after_handoff-ledger env t (failed s) st = refl
  after_handoff-ledger env t (crashed s) st = refl

  pub hand_off-ledger :
      (global : Bytes) (env : Envelope p) (t : Target fl) (st : Dispatcher fl)
      → (hand_off g p fl a fleet c global env t st).1.ledger ≡ st.ledger
  unfolding hand_off
  hand_off-ledger global env t st =
      let stamped : Envelope p = record env { queued_seconds = Arith.to_bits a t.queued_seconds } in
      after_handoff-ledger stamped t
        (lift (lease_and_submit g p global env.global_msg_id c.lease t.name stamped c.now) st.store)
        st

  placed_on-IsHanded :
      (global : Bytes) (env : Envelope p) (o : Option (Target fl)) (st : Dispatcher fl)
      → IsHanded env.global_msg_id st (placed_on g p fl a fleet c global env o st).1
  unfolding placed_on
  placed_on-IsHanded global env none st =
      (refl, refl, untouched env.global_msg_id st.store.db.rows st.store.db.rows (λ _. refl))
  placed_on-IsHanded global env (some t) st = hand_off-IsHanded global env t st

  pub place_on_worker_queue-IsHanded :
      (global : Bytes) (env : Envelope p) (st : Dispatcher fl)
      → IsHanded env.global_msg_id st (place_on_worker_queue g p fl a fleet c global env st).1
  unfolding place_on_worker_queue
  place_on_worker_queue-IsHanded global env st =
      placed_on-IsHanded global env (pick_worker_queue fl p a fleet env st.ledger st.tails) st
