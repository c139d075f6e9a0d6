-- ===== src/Cluster.antt =====
-- common/cluster.py: `bootstrap_supply_chain` and `create_simulated_cluster`.
pub mod Bootstrap
pub mod Simulated
