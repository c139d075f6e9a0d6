-- ===== src/Decision/Filter.antt =====
-- decision_engine/filter.py: `ConstraintFilter`.
pub mod Laws
use distributed_ai_networkin.Prelude.Dict
use distributed_ai_networkin.Prelude.Dict.{Dict}
use distributed_ai_networkin.Prelude.Text.{lower}
use distributed_ai_networkin.Prelude.Floats.{Floats, literal, ◌<ᶠ◌, ◌≤ᶠ◌}
use distributed_ai_networkin.Contracts.Models.{
  SlaClass, real_time, interactive, batch, HealthStatus, healthy, degraded, unreachable,
  AssuranceLevel, standard, high_assurance, TaskRequest, NodeTelemetrySnapshot, Reason,
  node_unreachable, stale_telemetry_age, gateway_cross_check_failed, data_residency_mismatch,
  queue_saturated, compute_exhausted, cost_ceiling_exceeded, insufficient_assurance_level,
  compute_utilization,
}
use distributed_ai_networkin.Telemetry.Validator.{
  TelemetryValidator, default_validator, is_stale, cross_validate_rtt,
}
use distributed_ai_networkin.Prelude.{
  ℕ, String, Bool, true, false, ◌&&◌, ◌||◌, not, Option, none, some, List, [], ◌∷◌, ◌++◌, map, ◌==◌,
  leb, if◌then◌else◌, or_default, contains,
}

pub record ConstraintFilter (F : Type 0) : Type 0 where
  pub staleness_threshold_ms : F
  pub max_queue_depth : ℕ
  pub max_compute_pct : F
  pub validator : TelemetryValidator F

abbrev pub is_unreachable : HealthStatus → Bool
is_unreachable healthy = false
is_unreachable degraded = false
is_unreachable unreachable = true

abbrev pub is_high : AssuranceLevel → Bool
is_high standard = false
is_high high_assurance = true

-- The zone that a task requires, in lower case; a residency of none, any or nothing requires none.
unfoldable pub required_zone : Option String → Option String
required_zone none = none
required_zone (some r) =
    if (r == "") || (lower r == "none") || (lower r == "any") || (lower r == "")
    then none
    else some (lower r)

-- `req_residency not in node_zones`
unfoldable pub misses_zone : Option String → List String → Bool
misses_zone none zones = false
misses_zone (some z) zones = not (contains z (map lower zones))

module _ {F : Type 0} ⦃fl : Floats F⦄ where
  -- `__init__`'s defaults
  abbrev pub default_filter : ConstraintFilter F
  default_filter = record {
    staleness_threshold_ms = literal 3000 0;
    max_queue_depth = 50;
    max_compute_pct = literal 98 0;
    validator = default_validator;
  }

  -- COST_CEILINGS_USD
  unfoldable pub cost_ceiling : SlaClass → F
  cost_ceiling real_time = literal 10 0
  cost_ceiling interactive = literal 2 0
  cost_ceiling batch = literal 5 1

  -- the body of the loop, with `none` where it reaches `passed.append`
  unfoldable pub rejection :
      ConstraintFilter F → TaskRequest F → NodeTelemetrySnapshot F → Option (Reason F)
  rejection f task node =
      if is_unreachable node.health
      then some node_unreachable
      else if is_stale node f.staleness_threshold_ms
      then some (stale_telemetry_age node.last_heartbeat_age_ms)
      else if not (cross_validate_rtt f.validator node).0
      then some (gateway_cross_check_failed (cross_validate_rtt f.validator node).1)
      else if misses_zone (required_zone task.data_residency) node.data_residency_zones
      then some
          (data_residency_mismatch (or_default "" task.data_residency) node.data_residency_zones)
      else if leb f.max_queue_depth node.queue_depth
      then some (queue_saturated node.queue_depth f.max_queue_depth)
      else if f.max_compute_pct ≤ᶠ compute_utilization node
      then some (compute_exhausted (compute_utilization node) f.max_compute_pct)
      else if cost_ceiling task.sla_class <ᶠ node.cost_per_1k_inferences_usd
      then some
          (cost_ceiling_exceeded node.cost_per_1k_inferences_usd (cost_ceiling task.sla_class))
      else if is_high task.required_assurance_level && not (is_high node.assurance_level)
      then some (insufficient_assurance_level node.assurance_level)
      else none

  unfoldable pub filter_from :
      ConstraintFilter F
      → TaskRequest F
      → List (NodeTelemetrySnapshot F)
      → List (NodeTelemetrySnapshot F)
      → Dict (Reason F)
      → List (NodeTelemetrySnapshot F) × Dict (Reason F)
  filter_from f task [] passed rejected = (passed, rejected)
  filter_from f task (node ∷ rest) passed rejected = elim (rejection f task node) [
    | none ↦ filter_from f task rest (passed ++ node ∷ []) rejected
    | some reason ↦ filter_from f task rest passed (Dict.put rejected node.node_id reason)
  ]

  unfoldable pub filter_candidates :
      ConstraintFilter F
      → TaskRequest F
      → List (NodeTelemetrySnapshot F)
      → List (NodeTelemetrySnapshot F) × Dict (Reason F)
  filter_candidates f task candidates = filter_from f task candidates [] []
