-- ===== src/Services/Execution.antt =====
-- services/execution.go: runs are made from definitions and templates, saved, queued and stopped.
pub mod Requests
pub mod Construct
pub mod Enqueue
pub mod ExitReason
pub mod UpdateStatus
pub mod Terminate
