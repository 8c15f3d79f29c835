-- ===== src/Clients.antt =====
-- clients/: what the program adds to the libraries that it calls the outside with.
pub mod HttpClient
pub mod S3Logs
pub mod CloudWatchLogs
