-- ===== src/Engine.antt =====
-- engine/engine.go, with the payload attributes of monomer.go
pub mod Attributes
pub mod Api
pub mod Payloads
pub mod Handover
pub mod Once
pub mod Accepted
pub mod Labels
