-- ===== src/Flotilla.antt =====
-- flotilla/endpoints.go: what the HTTP endpoints make of requests.
pub mod Answers
pub mod Lists
pub mod Launches
pub mod Entities
pub mod Reads
pub mod ByName
