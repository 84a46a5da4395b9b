-- ===== src/Queue.antt =====
-- internal/queue: the durable job queue, the results of the jobs, and the startup sweep.
pub mod Envelope
pub mod Table
pub mod Database
pub mod Ops
pub mod Results
pub mod Sweeper
pub mod Model
mod Tests
