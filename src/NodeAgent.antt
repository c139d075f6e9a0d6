-- ===== src/NodeAgent.antt =====
-- node_agent/: a compute node and its worker.
pub mod Node
pub mod Worker
pub mod Server
pub mod Streamer
