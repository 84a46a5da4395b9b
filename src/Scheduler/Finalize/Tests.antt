-- ===== src/Scheduler/Finalize/Tests.antt =====
-- Runs of `pumpWorkerChunks` of internal/scheduler/scheduler.go.
use mass.Prelude.{ℕ, ◌+◌, ◌-◌, ◌==◌, refl, true, false, [], ◌∷◌, none, some, bytes_eq, codes}
use mass.Prelude.Map.{lookup}
use mass.Queue.Model.{model_goqite, model_proto}
use mass.Queue.Results.{Stamp, ResultRow, processing}
use mass.Scheduler.Finalize.{Job, State, collect, no_frames, pump_plan}
use mass.Scheduler.Finalize.Order.{Always, IsSafe, result_comes_first}
use mass.Scheduler.Inflight.{Float64, new_ledger}
use mass.Scheduler.StreamBuffer.{JobChunk, chunk, error, new_job_buffer}

-- Seconds counted in whole ones.
abbrev whole : Float64
whole = record { F = ℕ; zero_f = 0; add_f = ◌+◌; sub_f = ◌-◌; is_drained = λ n. n == 0 }

abbrev job : Job
job = record {
  request_id = codes "r1";
  queue = codes "worker|a";
  global = some (codes "global");
  msg_id = codes "2";
  global_msg_id = codes "1";
}

abbrev stamp : Stamp
stamp = record { second = 10; fraction = [] }

abbrev running : ResultRow
running = record {
  status = processing;
  body = [];
  err_text = none;
  created_at = stamp;
  completed_at = none;
}

abbrev state : State whole
state = record {
  store = record {
    db = record { rows = []; notified = false; faults = [] };
    results = (codes "r1", running) ∷ [];
  };
  ledger = new_ledger whole;
  buf = new_job_buffer 5;
  kicks = 0;
}

abbrev token : JobChunk
token = record { kind = chunk; body = codes "hi"; final = []; pct = 0; note = []; err_text = [] }

abbrev failure : JobChunk
failure = record { kind = error; body = []; final = []; pct = 0; note = []; err_text = codes "oom" }

result_comes_first_example :
    Always model_goqite model_proto whole
      (IsSafe whole job state)
      job
      stamp
      7
      (pump_plan false true (collect ((token, 6) ∷ (failure, 7) ∷ []) (no_frames state.buf)))
      (record state { buf = (collect ((token, 6) ∷ (failure, 7) ∷ []) (no_frames state.buf)).buf })
unfolding new_job_buffer lookup bytes_eq
result_comes_first_example =
    result_comes_first model_goqite model_proto whole job stamp 7 ((token, 6) ∷ (failure, 7) ∷ [])
      false true state running refl refl refl
