-- ===== src/Telemetry.antt =====
-- telemetry/: the snapshots of the nodes, their validation, and protection against replay.
pub mod Redis
pub mod Store
pub mod Validator
pub mod Replay
