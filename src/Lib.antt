-- ===== src/Lib.antt =====
-- MASS takes inference jobs from gateways, queues them durably, runs them on a fleet of workers and
-- streams the workers' output back. This library models the part that must not lose or repeat a job.
--
-- The parts and how they meet. A job is submitted as an envelope into the queue `global` of the table
-- `goqite`. The scheduler leases that row as the durability anchor and, in the same transaction, puts
-- the job into the queue `worker|<id>` of the worker that it chose. A drainer of that queue leases the
-- worker's row and hands the job to the worker; the books of jobs in flight keep what it holds there.
-- The worker's frames go through a replay buffer, to which consumers attach and re-attach by sequence
-- number. The pump of the job ends it: the result is stored in `queue_results`, the terminal frame is
-- published, and both rows are deleted. After a crash, a sweep at startup fails what was left behind.
--
-- Which file models what:
-- - Queue/Envelope: internal/queue/queue.go, `Envelope`, `Marshal`, `UnmarshalEnvelope` and their
--   helpers, over buffers and offsets as the code has them. Layout states the wire format as one
--   concatenation, RoundTrip that it is read back.
-- - Queue/Table: the table `goqite` as the SQL of internal/queue/queue.go reads and writes it.
-- - Queue/Database: the database handle. A statement may fail; a transaction (`inTx`) begins, runs
--   its body, and commits or rolls back, on a panic too. Rules are the laws of these outcomes.
-- - Queue/Ops: one function for each method of `*Queue`. Leases, Once (with Spent), Moves,
--   Handover, Placing and Views prove what they do; Health and Shown are about a database that
--   refuses nothing, and what it shows.
-- - Queue/Results: internal/queue/results.go, `ResultStore`; Lifecycle is its state machine,
--   Creation about a new row.
-- - Queue/Sweeper: internal/queue/sweeper.go. Reaped is about one message, Kept about the whole sweep.
-- - Queue/Model: instances of the two third-party interfaces, on which the tests run.
-- - Scheduler/StreamBuffer: internal/scheduler/stream_buffer.go, `jobBuffer`. Log states the buffer
--   against all that was ever appended; Pump is the goroutine `pump` as a transition system beside a
--   producer, with Delivery its invariant and Outcome what a consumer gets.
-- - Scheduler/Inflight: internal/scheduler/scheduler.go, the maps under `inflightMu`; Balance is about
--   the memory reservations, Cancel about cancels in the dispatch window.
-- - Scheduler/Draining: the drain slots of the same file and the goroutines of `drainDeviceQueues`.
-- - Scheduler/Finalize: `pumpWorkerChunks` of the same file, and what it calls. Stream is its loop,
--   Order the order of its last steps, Verdict the result that it records.
-- - Scheduler/Redistribute: `drainWorkerQueue` of the same file, which re-places the jobs of a worker
--   that has gone; Settled (with Rows) is about which jobs may be placed again.
-- - Scheduler/Retry: `retryAfterLoadFailure` of the same file; Attempts is about its budget.
-- - Scheduler/Devices: the same file, `predictDeviceSet`, `residentsBlockingLoad`, `freeMemoryBytes`,
--   `plannedPoolSize` and what goes with them; Memory is about what a load takes.
-- - Scheduler/Dispatch: `drainOneWorkerQueue`, `leaseAndDispatch` and `dispatchEnvelope` of the same
--   file. Calls is about what the worker is asked, Settled (with Endings) about what is left behind,
--   Cancelled about a cancel in the dispatch window. Steps and Passes read a drain pass as steps on
--   the results, and Phases says what a step does to the phase of a request.
-- - Scheduler/Scoring: the same file, `pickWorkerQueue` and what it asks of a worker. Members and
--   Candidates say who is listed, Best that the best is taken.
-- - Scheduler/Placement: the same file, `Submit`, `placeOnWorkerQueue` and `drainGlobal`. Rows is about
--   one handoff, Sending and Submitted about a submission, Kept about a pass over the global queue,
--   Passes about any sequence of passes.
-- - Scheduler/Cancels: internal/scheduler/queue_view.go, the cancels and the return of a row to the
--   global queue. Effects is about one row, ByRequest (with Answers) about the
--   stages that a job may be in.
-- - Scheduler/Sample: a worker, a job and a state on which tests run.
-- - Scheduler/QueueName: `workerQueueName` and `parseWorkerQueueName`.
-- - Worker/JobStreams: internal/worker/stream_worker.go, the channels on which frames come back;
--   Delivery is about their closing.
-- - Worker/Status: what MASS knows of a worker, from the same file and internal/worker/worker.go;
--   Changes and Heartbeats are about `sameLoadedSet` and `ApplyHeartbeat`.
-- - Prelude: lists, maps, machine words and little-endian numbers.
--
-- How it is modelled. Code under one mutex is a function on the record that the mutex guards, and
-- goroutines are steps in any order. Go strings and byte slices are lists of bytes. Floats are their
-- bit patterns in the envelope; the books take float64 as a parameter and use nothing of it, and the
-- choice of a worker uses only that `<` is transitive and nothing is below itself. Unsigned and signed
-- 64-bit integers are numbers below 2^64 with the wrap-around written out. A Go map is an association
-- list. Times are numbers (milliseconds) in the queue, where they are only compared and
-- added, and texts in the results, where the code compares texts. Every loop is structural recursion,
-- so no fuel is needed; only the run of a consumer to its end counts moves, and the count is proved
-- to be enough.
--
-- What is a parameter. maragu.dev/goqite and the generated protobuf code are not part of the
-- repository: `Goqite` and `Proto` are records of their calls with what their documentation says.
-- Queue/Model shows that both can be met.
--
-- What is not modelled: the throughput estimates of a worker's benchmarks, the keep-alive of a lease,
-- work stealing, the re-estimate of a queue, benchmarks, the fleet and its streams, downloads, stores
-- and migrations, configuration, the command line and the web console. Of the queue, `Receive` (only a
-- call of goqite), the two SQL dialects and the constructors. Logs, metrics and change broadcasts are
-- left out everywhere.
pub mod Prelude
pub mod Queue
pub mod Scheduler
pub mod Worker
