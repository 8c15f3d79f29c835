-- ===== src/State.antt =====
-- The package state: what is stored of runs, definitions, templates and workers.
pub mod Constants
pub mod Types
pub mod EventTypes
pub mod RunUpdate
pub mod Validity
pub mod TaskTable
pub mod DefinitionTable
pub mod WorkerTable
pub mod Queries
