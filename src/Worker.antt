-- ===== src/Worker.antt =====
-- The package worker: the background processes that move runs along.
pub mod Submit
pub mod CloudTrail
pub mod Events
pub mod Manager
pub mod Retry
pub mod Status
