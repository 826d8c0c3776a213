-- ===== src/Worker.antt =====
-- worker/: the queue of the jobs.
pub mod Bytes
pub mod Queue
pub mod Dispatch
pub mod RoundTrip
pub mod Request
pub mod Submitted
mod Tests
