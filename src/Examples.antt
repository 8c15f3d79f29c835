-- ===== src/Examples.antt =====
-- The theorems applied to concrete runs, and runs of the definitions on them.
mod Data
mod State
mod Adapter
mod Engine
mod Workers
mod Managers
mod Merges
mod Services
mod Queues
mod Clients
mod Definitions
mod CloudTrails
mod Events
mod Endpoints
mod Templates
