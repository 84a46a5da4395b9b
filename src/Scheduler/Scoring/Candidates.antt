-- ===== src/Scheduler/Scoring/Candidates.antt =====
-- The candidates of `pickWorkerQueue` in internal/scheduler/scheduler.go.
use mass.Prelude.{
  ◌≡◌, refl, sym, ap, ◌∙◌, Bool, true, false, ◌&&◌, List, [], ◌∷◌, Option, none, some,
  if◌then◌else◌,
}
use mathlib.Core.List.{Memᴰ}
use mathlib.Core.List.Memᴰ.{head, tail}
use mass.Prelude.Map.{Map}
use mass.Queue.Envelope.{Proto, Envelope}
use mass.Scheduler.Devices.{ModelBenchmarkRow}
use mass.Scheduler.Dispatch.{TailState}
use mass.Scheduler.Inflight.{Float64, Ledger}
use mass.Scheduler.QueueName.{worker_queue_name}
use mass.Scheduler.Scoring.{
  Arith, Fleet, Cand, Target, serves, serving, workers_for_runtime, eligible_worker,
  effective_load_throughput, cand_of, candidate, add_cand, candidates_of, score_of,
}
use mass.Scheduler.Scoring.Members.{
  sort_workers-lists, sort_workers-keeps, serving-lists, serving-keeps,
}
use mass.Worker.Status.{StreamWorker}

module _ (fl : Float64) (p : Proto) (a : Arith fl) (fleet : Fleet fl p) where
  -- The worker may take the job: it serves the runtime, its model is measured there, it can reach the
  -- files and has the memory, and it has a queue.
  abbrev pub MayTake : Envelope p → Ledger fl → StreamWorker → ModelBenchmarkRow fl → Type 0
  MayTake env l w row =
      Memᴰ w (Fleet.workers fleet)
      × (serves fl p a fleet env.runtime_name w ≡ true)
      × (Fleet.model_row fleet w env ≡ some row)
      × (eligible_worker fl p a fleet w env row l ≡ true)
      × (Fleet.has_queue fleet (worker_queue_name w.id) ≡ true)

  -- What the job would get there.
  abbrev pub offer :
      Envelope p → Ledger fl → Map (TailState fl) → StreamWorker → ModelBenchmarkRow fl → Target fl
  offer env l tails w row =
      score_of fl p a fleet env l tails (record {
        worker = w;
        row = row;
        load_bytes_sec = effective_load_throughput fl p a fleet w;
      })

  abbrev pub cand_at : StreamWorker → ModelBenchmarkRow fl → Cand fl
  cand_at w row = record {
    worker = w;
    row = row;
    load_bytes_sec = effective_load_throughput fl p a fleet w;
  }

  -- A candidate is a worker with a row that passes the checks, and nothing else.
  cand_of_sound :
      (env : Envelope p) (l : Ledger fl) (w : StreamWorker) (o : Option (ModelBenchmarkRow fl))
      (c : Cand fl)
      → cand_of fl p a fleet w env l o ≡ some c
      → (row : ModelBenchmarkRow fl) × (o ≡ some row)
        × (eligible_worker fl p a fleet w env row l ≡ true)
        × (Fleet.has_queue fleet (worker_queue_name w.id) ≡ true)
        × (c ≡ cand_at w row)
  unfolding cand_of
  cand_of_sound env l w none c e = cc e
  cand_of_sound env l w (some row) c e =
      passed (eligible_worker fl p a fleet w env row l)
        (Fleet.has_queue fleet (worker_queue_name w.id)) refl refl e
    where
      passed :
          (fits opened : Bool)
          → eligible_worker fl p a fleet w env row l ≡ fits
          → Fleet.has_queue fleet (worker_queue_name w.id) ≡ opened
          → (if fits && opened then some (cand_at w row) else none) ≡ some c
          → (r : ModelBenchmarkRow fl) × (some row ≡ some r)
            × (eligible_worker fl p a fleet w env r l ≡ true)
            × (Fleet.has_queue fleet (worker_queue_name w.id) ≡ true)
            × (c ≡ cand_at w r)
      passed true true fit there h = (row, refl, fit, there, cc h)
      passed true false fit there h = cc h
      passed false b fit there h = cc h

  cand_of_complete :
      (env : Envelope p) (l : Ledger fl) (w : StreamWorker) (row : ModelBenchmarkRow fl)
      → eligible_worker fl p a fleet w env row l ≡ true
      → Fleet.has_queue fleet (worker_queue_name w.id) ≡ true
      → cand_of fl p a fleet w env l (some row) ≡ some (cand_at w row)
  unfolding cand_of
  cand_of_complete env l w row fit open_queue = rw (fit, open_queue) refl

  candidates_sound :
      (env : Envelope p) (l : Ledger fl) (ws : List StreamWorker) (c : Cand fl)
      → Memᴰ c (candidates_of fl p a fleet env l ws)
      → (w : StreamWorker) × Memᴰ w ws × (candidate fl p a fleet env l w ≡ some c)
  unfolding candidates_of
  candidates_sound env l [] c m = elim m [ ]
  candidates_sound env l (w ∷ ws) c m =
      found (candidate fl p a fleet env l w) refl (candidates_sound env l ws c) m
    where
      found :
          (o : Option (Cand fl))
          → candidate fl p a fleet env l w ≡ o
          → (Memᴰ c (candidates_of fl p a fleet env l ws)
              → (v : StreamWorker) × Memᴰ v ws × (candidate fl p a fleet env l v ≡ some c))
          → Memᴰ c (add_cand fl p a fleet o (candidates_of fl p a fleet env l ws))
          → (v : StreamWorker) × Memᴰ v (w ∷ ws) × (candidate fl p a fleet env l v ≡ some c)
      found none e deeper n = let (v, there, is) = deeper n in (v, tail there, is)
      found (some d) e deeper (head same) = (w, head refl, e ∙ ap some (sym same))
      found (some d) e deeper (tail n) = let (v, there, is) = deeper n in (v, tail there, is)

  candidates_complete :
      (env : Envelope p) (l : Ledger fl) (ws : List StreamWorker) (w : StreamWorker) (c : Cand fl)
      → Memᴰ w ws
      → candidate fl p a fleet env l w ≡ some c
      → Memᴰ c (candidates_of fl p a fleet env l ws)
  unfolding candidates_of
  candidates_complete env l [] w c m e = elim m [ ]
  candidates_complete env l (v ∷ ws) w c m e =
      kept (candidate fl p a fleet env l v) refl m (λ n. candidates_complete env l ws w c n e)
    where
      kept :
          (o : Option (Cand fl))
          → candidate fl p a fleet env l v ≡ o
          → Memᴰ w (v ∷ ws)
          → (Memᴰ w ws → Memᴰ c (candidates_of fl p a fleet env l ws))
          → Memᴰ c (add_cand fl p a fleet o (candidates_of fl p a fleet env l ws))
      kept none is (head same) deeper = absurd (cc (same, e, is))
      kept none is (tail n) deeper = deeper n
      kept (some d) is (head same) deeper = head (cc (same, e, is))
      kept (some d) is (tail n) deeper = tail (deeper n)

  pub listed-MayTake :
      (env : Envelope p) (l : Ledger fl) (c : Cand fl)
      → Memᴰ c
          (candidates_of fl p a fleet env l (workers_for_runtime fl p a fleet env.runtime_name))
      → (w : StreamWorker) × (row : ModelBenchmarkRow fl) × MayTake env l w row
        × (c ≡ cand_at w row)
  unfolding candidate workers_for_runtime
  listed-MayTake env l c m =
      let (w, there, is) =
        candidates_sound env l (workers_for_runtime fl p a fleet env.runtime_name) c m in
      let (row, measured, fits, opened, e) =
        cand_of_sound env l w (Fleet.model_row fleet w env) c is in
      let (known, does) = serving-lists fl p a fleet env.runtime_name (Fleet.workers fleet) w (
        sort_workers-lists (serving fl p a fleet env.runtime_name (Fleet.workers fleet)) w there) in
      (w, row, (known, does, measured, fits, opened), e)

  pub MayTake-listed :
      (env : Envelope p) (l : Ledger fl) (w : StreamWorker) (row : ModelBenchmarkRow fl)
      → MayTake env l w row
      → Memᴰ
          (cand_at w row)
          (candidates_of fl p a fleet env l (workers_for_runtime fl p a fleet env.runtime_name))
  unfolding candidate workers_for_runtime
  MayTake-listed env l w row (known, does, measured, fits, opened) =
      candidates_complete env l (workers_for_runtime fl p a fleet env.runtime_name) w
        (cand_at w row)
        (sort_workers-keeps (serving fl p a fleet env.runtime_name (Fleet.workers fleet)) w
          (serving-keeps fl p a fleet env.runtime_name (Fleet.workers fleet) w does known))
        (ap (cand_of fl p a fleet w env l) measured ∙ cand_of_complete env l w row fits opened)
