-- ===== src/Scheduler.antt =====
-- internal/scheduler: the replay buffers of jobs, and the scheduler's books.
pub mod StreamBuffer
pub mod QueueName
pub mod Inflight
pub mod Cancels
pub mod Scoring
pub mod Placement
pub mod Devices
pub mod Dispatch
pub mod Draining
pub mod Finalize
pub mod Redistribute
pub mod Retry
pub mod Sample
