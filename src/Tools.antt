-- ===== src/Tools.antt =====
-- The command-line tools of tools/.
pub mod Inspect
pub mod Sbom
