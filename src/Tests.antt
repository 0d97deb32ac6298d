-- ===== src/Tests.antt =====
-- Instances of the theorems at concrete inputs, and runs of the model.
mod Money
mod Routing
mod Streams
mod Gate
mod Wiring
mod Admin
mod Endpoints
mod Scripts
mod Races
mod Migrations
