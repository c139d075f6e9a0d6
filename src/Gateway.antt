-- ===== src/Gateway.antt =====
-- gateway/: the control plane and the HTTP gateway.
pub mod ControlPlane
pub mod Ingest
pub mod Endpoints
pub mod App
