-- ===== src/Decision.antt =====
-- decision_engine/: hard constraints, normalisation, scoring, and the placement decision.
pub mod Filter
pub mod Normalizer
pub mod Scorer
pub mod Names
pub mod Engine
pub mod Loading
