-- ===== src/Tests.antt =====
-- Instances of the parameters of the model, and each theorem at a concrete input.
pub mod Instances
pub mod Pickles
pub mod Snapshots
pub mod Stores
pub mod Placement
pub mod Artifacts
pub mod Execution
pub mod Ingress
pub mod Streams
pub mod Clusters
pub mod Wiring
pub mod Bill
pub mod Handover
pub mod Log
pub mod Gate
