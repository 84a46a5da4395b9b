-- ===== src/Worker.antt =====
-- internal/worker: the workers that the hub talks to.
pub mod JobStreams
pub mod Status
