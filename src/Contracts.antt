-- ===== src/Contracts.antt =====
-- contracts/: the data that the parts exchange, and the SLA weight profiles.
pub mod Json
pub mod Models
pub mod Errors
pub mod Uuid
pub mod Weights
pub mod Messages
