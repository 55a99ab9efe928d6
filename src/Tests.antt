-- ===== src/Tests.antt =====
-- Runs of the theorems on a room with two clients, a server with it, and a registry.
mod Data
mod Texts
mod Encodings
mod Rooms
mod Relays
mod Messages
mod Managers
mod Updates
mod Servers
mod Requests
mod Scheduling
mod Expiries
mod Clusters
mod Interleaving
