-- ===== src/Schedule.antt =====
-- server/schedule: rooms spread over several backends, with a registry of the backend of each room.
pub mod Storage
pub mod Revproxy
pub mod Scheduler
pub mod Orchestrator
pub mod Routing
pub mod Publishing
pub mod Pipeline
pub mod Running
pub mod Creating
pub mod Expiry
