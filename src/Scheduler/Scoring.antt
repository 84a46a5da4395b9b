-- ===== src/Scheduler/Scoring.antt =====
-- internal/scheduler/scheduler.go: which workers may take a job, and `pickWorkerQueue`, which takes
-- the one where the job is expected to complete soonest. int64 stands as a 64-bit pattern.
pub mod Best
pub mod Candidates
pub mod Members
use mass.Prelude.{
  ℕ, ◌≡◌, Bool, true, false, not, ◌&&◌, ◌||◌, List, [], ◌∷◌, Option, none, some, Bytes, bytes_eq,
  if◌then◌else◌,
}
use mass.Prelude.Map.{Map, lookup}
use mass.Prelude.Words.{add_64, is_positive}
use mass.Queue.Envelope.{Proto, Envelope, is_empty}
use mass.Scheduler.Devices.{
  string_lt, predict_device_set, device_set, worker_has_model, residents_blocking_load,
  ModelBenchmarkRow, free_memory_bytes, effective_headroom_pct, planned_pool_size,
  projected_load_bytes, memory_eligible,
}
use mass.Scheduler.Dispatch.{TailState}
use mass.Scheduler.Inflight.{Float64, Ledger, value_or}
use mass.Scheduler.QueueName.{worker_queue_name}
use mass.Worker.Status.{LoadedModelStatus, StreamWorker}

-- What scoring does with float64. Of `<` it needs that nothing is below itself and that it goes on,
-- which holds for NaN too.
pub record Arith (fl : Float64) : Type 0 where
  pub lt_f : Float64.F fl → Float64.F fl → Bool
  pub le_f : Float64.F fl → Float64.F fl → Bool
  pub mul_f : Float64.F fl → Float64.F fl → Float64.F fl
  pub div_f : Float64.F fl → Float64.F fl → Float64.F fl
  pub max_f : Float64.F fl → Float64.F fl → Float64.F fl
  pub giga : Float64.F fl  -- 1e9
  pub of_int : ℕ → Float64.F fl
  pub from_bits : ℕ → Float64.F fl
  pub to_bits : Float64.F fl → ℕ
  pub lt_irrefl : (a : Float64.F fl) → lt_f a a ≡ false
  pub lt_trans : (a b c : Float64.F fl) → lt_f a b ≡ true → lt_f b c ≡ true → lt_f a c ≡ true

-- What the scheduler looks up elsewhere: `workers.All()`, `isWorkerEnabled` and `isDeviceEnabled`,
-- `modelBenchmark`, the `LoadGBs` of `getBenchmark`, the keys of `devQueues`, the settings, and the
-- URL and `SizeBytes` of a file (none for nil). `rounds` is what `latency_slots` takes.
pub record Fleet (fl : Float64) (p : Proto) : Type 0 where
  pub workers : List StreamWorker
  pub worker_enabled : Bytes → Bool
  pub device_enabled : Bytes → Bytes → Bool
  pub model_row : StreamWorker → Envelope p → Option (ModelBenchmarkRow fl)
  pub load_gbs : Bytes → Bytes → Option (Float64.F fl)
  pub has_queue : Bytes → Bool
  pub slots_cap : ℕ
  pub rounds : ModelBenchmarkRow fl → Option ℕ
  pub url_and_size : Proto.ModelFile p → Option (Bytes × ℕ)

pub record Cand (fl : Float64) : Type 0 where
  pub worker : StreamWorker
  pub row : ModelBenchmarkRow fl
  pub load_bytes_sec : Float64.F fl

-- `best`, with its score and the seconds that the job adds to the queue.
pub record Target (fl : Float64) : Type 0 where
  pub name : Bytes
  pub worker : StreamWorker
  pub score : Float64.F fl
  pub queued_seconds : Float64.F fl

-- sort.Slice by ID
unfoldable pub sort_worker_in : StreamWorker → List StreamWorker → List StreamWorker
sort_worker_in w [] = w ∷ []
sort_worker_in w (v ∷ vs) = if string_lt v.id w.id then v ∷ sort_worker_in w vs else w ∷ v ∷ vs

unfoldable pub sort_workers : List StreamWorker → List StreamWorker
unfolding sort_worker_in
sort_workers [] = []
sort_workers (w ∷ ws) = sort_worker_in w (sort_workers ws)

module _ (fl : Float64) (p : Proto) (a : Arith fl) (fleet : Fleet fl p) where
  abbrev pub serves : Bytes → StreamWorker → Bool
  serves runtime_name w =
      w.online && bytes_eq w.runtime_name runtime_name && Fleet.worker_enabled fleet w.id

  unfoldable pub serving : Bytes → List StreamWorker → List StreamWorker
  serving runtime_name [] = []
  serving runtime_name (w ∷ ws) =
      let rest = serving runtime_name ws in if serves runtime_name w then w ∷ rest else rest

  unfoldable pub workers_for_runtime : Bytes → List StreamWorker
  unfolding sort_workers serving
  workers_for_runtime runtime_name = sort_workers (serving runtime_name (Fleet.workers fleet))

  abbrev lacks_url : Option (Bytes × ℕ) → Bool
  lacks_url none = false
  lacks_url (some (url, size)) = is_empty url

  unfoldable pub files_require_loopback : List (Proto.ModelFile p) → Bool
  files_require_loopback [] = false
  files_require_loopback (f ∷ files) =
      if lacks_url (Fleet.url_and_size fleet f) then true else files_require_loopback files

  abbrev added_size : Option (Bytes × ℕ) → ℕ
  added_size none = 0
  added_size (some (url, size)) = if is_positive size then size else 0

  unfoldable pub total_load_bytes : List (Proto.ModelFile p) → ℕ
  total_load_bytes [] = 0
  total_load_bytes (f ∷ files) =
      add_64 (added_size (Fleet.url_and_size fleet f)) (total_load_bytes files)

  unfoldable pub eligible_worker :
      StreamWorker → Envelope p → ModelBenchmarkRow fl → Ledger fl → Bool
  unfolding files_require_loopback
  eligible_worker w env row l =
      if files_require_loopback env.files && not w.loopback
      then false
      else memory_eligible fl (Fleet.device_enabled fleet w.id) w env.model_id row l

  add_gbs : Float64.F fl → Option (Float64.F fl) → Float64.F fl
  add_gbs sum none = sum
  add_gbs sum (some gbs) =
      if Arith.le_f a gbs (Float64.zero_f fl) then sum else Float64.add_f fl sum gbs

  sum_gbs : Bytes → List Bytes → Float64.F fl → Float64.F fl
  unfolding add_gbs
  sum_gbs worker_id [] sum = sum
  sum_gbs worker_id (d ∷ ds) sum =
      sum_gbs worker_id ds (add_gbs sum (Fleet.load_gbs fleet worker_id d))

  unfoldable pub effective_load_throughput : StreamWorker → Float64.F fl
  unfolding sum_gbs
  effective_load_throughput w =
      Arith.mul_f a
        (sum_gbs w.id (device_set (Fleet.device_enabled fleet w.id) w) (Float64.zero_f fl))
        (Arith.giga a)

  cand_of : StreamWorker → Envelope p → Ledger fl → Option (ModelBenchmarkRow fl) → Option (Cand fl)
  unfolding eligible_worker effective_load_throughput
  cand_of w env l none = none
  cand_of w env l (some row) =
      if eligible_worker w env row l && Fleet.has_queue fleet (worker_queue_name w.id)
      then some (record { worker = w; row = row; load_bytes_sec = effective_load_throughput w })
      else none

  unfoldable pub candidate : Envelope p → Ledger fl → StreamWorker → Option (Cand fl)
  unfolding cand_of
  candidate env l w = cand_of w env l (Fleet.model_row fleet w env)

  add_cand : Option (Cand fl) → List (Cand fl) → List (Cand fl)
  add_cand none cs = cs
  add_cand (some c) cs = c ∷ cs

  unfoldable pub candidates_of : Envelope p → Ledger fl → List StreamWorker → List (Cand fl)
  unfolding candidate add_cand
  candidates_of env l [] = []
  candidates_of env l (w ∷ ws) = add_cand (candidate env l w) (candidates_of env l ws)

  tail_of : Option (TailState fl) → TailState fl
  tail_of none = record { seconds = Float64.zero_f fl; model_id = [] }
  tail_of (some t) = t

  unfoldable pub tail_state : Bytes → Map (TailState fl) → TailState fl
  unfolding tail_of
  tail_state queue_name tails = tail_of (lookup queue_name tails)

  abbrev none_left : List LoadedModelStatus → Bool
  none_left [] = true
  none_left (lm ∷ lms) = false

  unfoldable pub is_warm : StreamWorker → Envelope p → TailState fl → Bool
  is_warm w env t =
      if Arith.lt_f a (Float64.zero_f fl) t.seconds
      then bytes_eq t.model_id env.model_id
      else worker_has_model w env.model_id
        && none_left (
            residents_blocking_load w env.model_id
              (predict_device_set (Fleet.device_enabled fleet w.id) w))

  unfoldable pub load_latency_for_cand :
      StreamWorker → Envelope p → TailState fl → ℕ → Float64.F fl → Float64.F fl
  unfolding is_warm
  load_latency_for_cand w env t load_bytes load_bytes_sec =
      if is_empty env.model_id || not (is_positive load_bytes)
      then Float64.zero_f fl
      else if is_warm w env t
      then Float64.zero_f fl
      else if Arith.le_f a load_bytes_sec (Float64.zero_f fl)
      then Float64.zero_f fl
      else Arith.div_f a (Arith.of_int a load_bytes) load_bytes_sec

  pool_of : StreamWorker → Envelope p → ModelBenchmarkRow fl → Ledger fl → ℕ
  pool_of w env row l =
      planned_pool_size fl (free_memory_bytes fl (Fleet.device_enabled fleet w.id) w l)
        (effective_headroom_pct w.vram_headroom_pct env.headroom_pct) (Fleet.rounds fleet row)
        (Fleet.slots_cap fleet) row

  unfoldable pub load_bytes_of : StreamWorker → Envelope p → ModelBenchmarkRow fl → Ledger fl → ℕ
  unfolding pool_of total_load_bytes
  load_bytes_of w env row l =
      let projected = projected_load_bytes fl (pool_of w env row l) row in
      if is_positive projected then projected else total_load_bytes env.files

  unfoldable pub score_of : Envelope p → Ledger fl → Map (TailState fl) → Cand fl → Target fl
  unfolding tail_state load_bytes_of load_latency_for_cand
  score_of env l tails c =
      let name = worker_queue_name c.worker.id in
      let t = tail_state name tails in
      let inflight = value_or (Float64.zero_f fl) (lookup name l.inflight_seconds) in
      let load_lat =
        load_latency_for_cand c.worker env t (load_bytes_of c.worker env c.row l)
          c.load_bytes_sec in
      let task_sec = Arith.div_f a (Arith.from_bits a env.cost) c.row.units_per_sec in
      let queued_sec = Float64.add_f fl task_sec load_lat in
      record {
        name = name;
        worker = c.worker;
        score = Float64.add_f fl (Float64.add_f fl inflight t.seconds) queued_sec;
        queued_seconds = queued_sec;
      }

  better : Option (Target fl) → Target fl → Target fl
  better none t = t
  better (some best) t = if Arith.lt_f a t.score best.score then t else best

  unfoldable pub pick_from :
      Envelope p
      → Ledger fl
      → Map (TailState fl)
      → Option (Target fl)
      → List (Cand fl)
      → Option (Target fl)
  unfolding score_of better
  pick_from env l tails best [] = best
  pick_from env l tails best (c ∷ cs) =
      pick_from env l tails (some (better best (score_of env l tails c))) cs

  unfoldable pub pick_worker_queue :
      Envelope p → Ledger fl → Map (TailState fl) → Option (Target fl)
  unfolding workers_for_runtime candidates_of pick_from
  pick_worker_queue env l tails =
      pick_from env l tails none (candidates_of env l (workers_for_runtime env.runtime_name))
