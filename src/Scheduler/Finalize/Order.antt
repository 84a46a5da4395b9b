-- ===== src/Scheduler/Finalize/Order.antt =====
-- The order of the last steps of `pumpWorkerChunks` in internal/scheduler/scheduler.go.
use mass.Prelude.{
  ℕ, ◌≡◌, refl, Bool, true, false, ◌⊎◌, inl, inr, List, [], ◌∷◌, Option, none, some, Bytes,
  bytes_eq_iff, arith,
}
use mass.Prelude.Map.{lookup, lookup-insert}
use mass.Queue.Database.{Result, ok, err, panicked, Goqite}
use mass.Queue.Database.Rules.{statement_free}
use mass.Queue.Envelope.{Proto}
use mass.Queue.Results.{
  Stamp, ResultRow, ResultTable, Store, done, error, exec, update, update_row, complete, fail,
  is_terminal, lift, lifted,
}
use mass.Queue.Results.Lifecycle.{after, exec-cases}
use mass.Queue.Sweeper.{has_ended, delete_message}
use mass.Scheduler.Finalize.{
  Job, State, Frames, collect, no_frames, Action, act_finish, act_kick, act_drop_rows, act_fail,
  act_complete, act_publish, ending, pump_plan, perform, delete_both_rows, complete_result,
  fail_result,
}
use mass.Scheduler.Finalize.Stream.{collect-terminal}
use mass.Scheduler.Inflight.{Float64}
use mass.Scheduler.StreamBuffer.{JobChunk}

-- An update of a row that is there, into one that has ended.
ended-update_row :
    (id : Bytes) (change : ResultRow → ResultRow) (t : ResultTable) (o : Option ResultRow)
    → ((r : ResultRow) → is_terminal (change r).status ≡ true)
    → (o ≡ none → has_ended (lookup id t) ≡ true)
    → has_ended (lookup id (update_row id (λ _. true) change o t)) ≡ true
unfolding update_row
ended-update_row id change t none over h = h refl
ended-update_row id change t (some r) over h =
    rw (lookup-insert id id (change r) t) (ground (arith, bytes_eq_iff id id, over r))

update_stays_ended :
    (id : Bytes) (change : ResultRow → ResultRow) (s : Store)
    → ((r : ResultRow) → is_terminal (change r).status ≡ true)
    → has_ended (lookup id s.results) ≡ true
    → has_ended (lookup id (after (update id (λ _. true) change s)).results) ≡ true
unfolding update
update_stays_ended id change s over h =
    exec-cases (λ o. has_ended (lookup id (after o).results) ≡ true) _ s
      (λ db _. ended-update_row id change s.results (lookup id s.results) over (λ _. h)) (λ db _. h)

pub exec_free {ℓ} :
    {A : Type ℓ} (f : ResultTable → A × ResultTable) (s : Store)
    → s.db.faults ≡ []
    → (after (exec f s)).results ≡ (f s.results).1
unfolding exec lift lifted
exec_free f s e = rw (statement_free {A = Unit {0}} (λ t. (tt, t)) s.db e, after) refl

pub lifted_results {ℓ} :
    {A : Type ℓ} (t : ResultTable) (r : Result A) → (after (lifted t r)).results ≡ t
unfolding lifted
lifted_results t (ok a db) = refl
lifted_results t (err db) = refl
lifted_results t (panicked db) = refl

-- With its row there, and no statement failing, a result has ended once it is written.
pub update_ends :
    (id : Bytes) (change : ResultRow → ResultRow) (s : Store) (r : ResultRow)
    → ((r : ResultRow) → is_terminal (change r).status ≡ true)
    → s.db.faults ≡ []
    → lookup id s.results ≡ some r
    → has_ended (lookup id (after (update id (λ _. true) change s)).results) ≡ true
unfolding update
update_ends id change s r over free found =
    rw
      (exec_free {A = Unit {0}} (λ t. (tt, update_row id (λ _. true) change (lookup id t) t)) s
        free)
      (ended-update_row id change s.results (lookup id s.results) over
        (λ gone. absurd (cc (found, gone))))

-- The state of the job's books: the result has ended, or neither is the terminal frame published nor
-- any row dropped.
abbrev pub IsSafe : (fl : Float64) → Job → State fl → State fl → Type 0
IsSafe fl job first st =
    (has_ended (lookup job.request_id st.store.results) ≡ true)
    ⊎ ((st.buf.terminal ≡ false) × (st.store.db.rows ≡ first.store.db.rows))

module _ (g : Goqite) (p : Proto) (fl : Float64) where
  -- A property of every state on the way through some actions.
  abbrev pub Always : (State fl → Type 0) → Job → Stamp → ℕ → List Action → State fl → Type 0
  Always P job stamp now [] st = P st
  Always P job stamp now (a ∷ actions) st =
      P st × Always P job stamp now actions (perform g p fl job stamp now a st)

  pub delete_message_results :
      (queue : Bytes) (global : Option Bytes) (id anchor_id : Bytes) (s : Store)
      → (after (delete_message g p queue global id anchor_id s)).results ≡ s.results
  unfolding delete_message lift
  delete_message_results queue none id anchor_id s = lifted_results s.results _
  delete_message_results queue (some q) id [] s = lifted_results s.results _
  delete_message_results queue (some q) id (c ∷ cs) s = lifted_results s.results _

  perform_stays_ended :
      (job : Job) (stamp : Stamp) (now : ℕ) (a : Action) (st : State fl)
      → has_ended (lookup job.request_id st.store.results) ≡ true
      → has_ended (lookup job.request_id (perform g p fl job stamp now a st).store.results) ≡ true
  unfolding perform delete_both_rows complete_result fail_result complete fail
  perform_stays_ended job stamp now act_finish st h = h
  perform_stays_ended job stamp now act_kick st h = h
  perform_stays_ended job stamp now act_drop_rows st h =
      rw (delete_message_results job.queue job.global job.msg_id job.global_msg_id st.store) h
  perform_stays_ended job stamp now (act_publish c) st h = h
  perform_stays_ended job stamp now (act_fail text) st h =
      update_stays_ended job.request_id
        (λ r. record r { status = error; err_text = some text; completed_at = some stamp }) st.store
        (λ r. refl) h
  perform_stays_ended job stamp now (act_complete body) st h =
      update_stays_ended job.request_id
        (λ r. record r { status = done; body = body; completed_at = some stamp }) st.store
        (λ r. refl) h

  Always-ended :
      (job : Job) (stamp : Stamp) (now : ℕ) (first : State fl) (actions : List Action)
      (st : State fl)
      → has_ended (lookup job.request_id st.store.results) ≡ true
      → Always (IsSafe fl job first) job stamp now actions st
  Always-ended job stamp now first [] st h = inl h
  Always-ended job stamp now first (a ∷ actions) st h =
      (inl h, Always-ended job stamp now first actions _ (perform_stays_ended job stamp now a st h))

  written_ends :
      (job : Job) (stamp : Stamp) (now : ℕ) (first : State fl) (change : ResultRow → ResultRow)
      (a : Action) (rest : List Action) (st : State fl) (r : ResultRow)
      → ((r : ResultRow) → is_terminal (change r).status ≡ true)
      → (perform g p fl job stamp now a st).store
        ≡ after (update job.request_id (λ _. true) change st.store)
      → IsSafe fl job first st
      → st.store.db.faults ≡ []
      → lookup job.request_id st.store.results ≡ some r
      → Always (IsSafe fl job first) job stamp now (a ∷ rest) st
  written_ends job stamp now first change a rest st r over writes safe free found = (
    safe,
    Always-ended job stamp now first rest (perform g p fl job stamp now a st)
        (rw writes (update_ends job.request_id change st.store r over free found)),
  )

  -- Actions that begin with the result, if there are any.
  abbrev starts_with_result : List Action → Bool
  starts_with_result [] = true
  starts_with_result (act_fail text ∷ actions) = true
  starts_with_result (act_complete body ∷ actions) = true
  starts_with_result (_ ∷ actions) = false

  ending_starts :
      (was_cancelled online : Bool) (f : Frames) (o : Option JobChunk)
      → starts_with_result (ending was_cancelled online f o) ≡ true
  unfolding ending
  ending_starts was_cancelled online f (some c) = ground arith
  ending_starts was_cancelled online f none = ground arith

  starting-IsSafe :
      (job : Job) (stamp : Stamp) (now : ℕ) (actions : List Action) (first st : State fl)
      (r : ResultRow)
      → starts_with_result actions ≡ true
      → IsSafe fl job first st
      → st.store.db.faults ≡ []
      → lookup job.request_id st.store.results ≡ some r
      → Always (IsSafe fl job first) job stamp now actions st
  unfolding perform fail_result complete_result fail complete
  starting-IsSafe job stamp now [] first st r starts safe free found = safe
  starting-IsSafe job stamp now (act_fail text ∷ rest) first st r starts safe free found =
      written_ends job stamp now first
        (λ r. record r { status = error; err_text = some text; completed_at = some stamp })
        (act_fail text) rest st r (λ r. refl) refl safe free found
  starting-IsSafe job stamp now (act_complete body ∷ rest) first st r starts safe free found =
      written_ends job stamp now first
        (λ r. record r { status = done; body = body; completed_at = some stamp })
        (act_complete body) rest st r (λ r. refl) refl safe free found
  starting-IsSafe job stamp now (act_finish ∷ rest) first st r starts safe free found = cc starts
  starting-IsSafe job stamp now (act_kick ∷ rest) first st r starts safe free found = cc starts
  starting-IsSafe job stamp now (act_drop_rows ∷ rest) first st r starts safe free found = cc starts
  starting-IsSafe job stamp now (act_publish c ∷ rest) first st r starts safe free found = cc starts

  -- However the stream of a job ends, at every moment of what the pump then does, a crash included,
  -- the result has ended if the terminal frame is published or a row is dropped. (The job's result
  -- row is there, its buffer held no terminal frame before, and no statement fails.)
  pub result_comes_first :
      (job : Job) (stamp : Stamp) (now : ℕ) (chunks : List (JobChunk × ℕ))
      (was_cancelled online : Bool) (st : State fl) (r : ResultRow)
      → st.buf.terminal ≡ false
      → st.store.db.faults ≡ []
      → lookup job.request_id st.store.results ≡ some r
      → Always
          (IsSafe fl job st)
          job
          stamp
          now
          (pump_plan was_cancelled online (collect chunks (no_frames st.buf)))
          (record st { buf = (collect chunks (no_frames st.buf)).buf })
  unfolding pump_plan perform
  result_comes_first job stamp now chunks was_cancelled online st r streaming free found =
      let f = collect chunks (no_frames st.buf) in
      let unpublished = collect-terminal chunks (no_frames st.buf) streaming in
      (
        inr (unpublished, refl),
        (
          inr (unpublished, refl),
          starting-IsSafe job stamp now (ending was_cancelled online f f.terminal_chunk) st _ r
              (ending_starts was_cancelled online f f.terminal_chunk) (inr (unpublished, refl)) free
              found,
        ),
      )
