-- ===== src/Services.antt =====
-- The package services: what the API does with the state and the engines.
pub mod Definitions
pub mod Execution
pub mod System
pub mod Workers
pub mod Templates
pub mod Logs
