-- ===== src/Contracts/Models.antt =====
-- contracts/models.py: the schemas of the system's boundaries. `F` is the type of floats.
-- A field's bounds (`ge`, `le`, `min_length`) are the tests `accepts_task` and `accepts_snapshot`.
use distributed_ai_networkin.Prelude.{
  ℕ, String, Bool, ◌&&◌, not, Option, none, some, List, ◌==◌, if◌then◌else◌,
}
use distributed_ai_networkin.Prelude.Dict.{Dict}
use distributed_ai_networkin.Prelude.Floats.{Floats, literal, max_float, ◌≤ᶠ◌}
use distributed_ai_networkin.Contracts.Json.{Fields}

pub data SlaClass : Type 0 where
  real_time interactive batch : SlaClass

pub data WorkloadType : Type 0 where
  inference streaming embedding : WorkloadType

pub data NodeClass : Type 0 where
  edge cloud : NodeClass

pub data HealthStatus : Type 0 where
  healthy degraded unreachable : HealthStatus

pub data AssuranceLevel : Type 0 where
  standard high_assurance : AssuranceLevel

pub data ExecutionStatus : Type 0 where
  success failed rejected : ExecutionStatus

pub record TaskRequest (F : Type 0) : Type 0 where
  pub task_id : String
  pub workload_type : WorkloadType
  pub model_id : String
  pub model_digest : Option String
  pub sla_class : SlaClass
  pub payload_ref : String
  pub max_latency_ms : F
  pub data_residency : Option String
  pub idempotency_key : String
  pub required_assurance_level : AssuranceLevel

pub record NodeTelemetrySnapshot (F : Type 0) : Type 0 where
  pub node_id : String
  pub node_class : NodeClass
  pub timestamp : F
  pub rtt_ms : F
  pub bandwidth_available_mbps : F
  pub cpu_util_pct : F
  pub gpu_util_pct : F
  pub queue_depth : ℕ
  pub cost_per_1k_inferences_usd : F
  pub health : HealthStatus
  pub last_heartbeat_age_ms : F
  pub data_residency_zones : List String
  pub gateway_observed_rtt_ms : Option F
  pub assurance_level : AssuranceLevel

-- The reason that the check of a round trip time gives.
pub data RttReason (F : Type 0) : Type 0 where
  no_gateway_measurement : RttReason F
  invalid_reported_rtt : RttReason F
  divergence_exceeded : F → RttReason F
  validated : RttReason F

-- Why a candidate was left out: the text of the source is the constructor, with the values that it
-- prints. `system` is the entry of the static policy.
pub data Reason (F : Type 0) : Type 0 where
  node_unreachable : Reason F
  stale_telemetry_age : F → Reason F
  gateway_cross_check_failed : RttReason F → Reason F
  data_residency_mismatch : String → List String → Reason F
  queue_saturated : ℕ → ℕ → Reason F
  compute_exhausted : F → F → Reason F
  cost_ceiling_exceeded : F → F → Reason F
  insufficient_assurance_level : AssuranceLevel → Reason F
  system : String → Reason F

pub record PlacementDecision (F : Type 0) : Type 0 where
  pub task_id : String
  pub chosen_node : String
  pub chosen_score : F
  pub runner_up_node : Option String
  pub runner_up_score : Option F
  pub weights_used : Dict F
  pub decision_latency_ms : F
  pub fallback_chain : List String
  pub filtered_out_nodes : Dict (Reason F)
  pub used_fallback_policy : Bool

pub record ExecutionRequest (F : Type 0) : Type 0 where
  pub task_id : String
  pub node_id : String
  pub model_id : String
  pub model_digest : Option String
  pub payload_ref : String
  pub idempotency_key : String
  pub timeout_ms : F

pub record ExecutionResult (F : Type 0) : Type 0 where
  pub task_id : String
  pub node_id : String
  pub node_class : NodeClass
  pub status : ExecutionStatus
  pub execution_time_ms : F
  pub model_digest : Option String
  pub output : Option (Fields F)
  pub error : Option String
  pub cached : Bool
  pub idempotency_key : String

pub record AuditEvent (F : Type 0) : Type 0 where
  pub event_id : String
  pub schema_version : String
  pub task_id : String
  pub model_digest : Option String
  pub timestamp : F
  pub decision : PlacementDecision F
  pub execution : ExecutionResult F
  pub fallback_activated : Bool
  pub attempts : ℕ
  pub gateway_rtt_observed_ms : Option F
  pub is_shadow_mode : Bool
  pub previous_event_hash : String
  pub event_hash : String

pub record ArtifactProvenance (F : Type 0) : Type 0 where
  pub artifact_name : String
  pub digest : String
  pub builder_identity : String
  pub source_repo : String
  pub commit_sha : String
  pub build_timestamp : F
  pub sbom_digest : String
  pub vulnerabilities_summary : Dict ℕ

pub record ApprovedArtifactRecord (F : Type 0) : Type 0 where
  pub model_id : String
  pub digest : String
  pub provenance : ArtifactProvenance F
  pub signature_algorithm : String
  pub signature : String
  pub signing_key_id : String
  pub revoked : Bool

pub record SupplyChainPolicy : Type 0 where
  pub require_immutable_digest : Bool
  pub require_signature : Bool
  pub allowed_builders : List String
  pub max_allowed_critical_vulns : ℕ
  pub max_allowed_high_vulns : ℕ

pub record HardwareAttestation : Type 0 where
  pub evidence_type : String
  pub quote : String
  pub pcr_banks : Dict String
  pub signature : String

pub record HealthCheckResponse (F : Type 0) : Type 0 where
  pub status : String
  pub service_name : String
  pub timestamp : F
  pub version : String
  pub dependencies : Dict String

-- NodeClass("edge"), NodeClass.EDGE.value, and so on: the enums are stored as texts.
unfoldable pub node_class_value : NodeClass → String
node_class_value edge = "edge"
node_class_value cloud = "cloud"

unfoldable pub node_class_of : String → Option NodeClass
node_class_of s = if s == "edge" then some edge else if s == "cloud" then some cloud else none

unfoldable pub status_of : String → Option ExecutionStatus
status_of s =
    if s == "success"
    then some success
    else if s == "failed"
    then some failed
    else if s == "rejected"
    then some rejected
    else none

unfoldable pub health_of : String → Option HealthStatus
health_of s =
    if s == "healthy"
    then some healthy
    else if s == "degraded"
    then some degraded
    else if s == "unreachable"
    then some unreachable
    else none

unfoldable pub health_value : HealthStatus → String
health_value healthy = "healthy"
health_value degraded = "degraded"
health_value unreachable = "unreachable"

unfoldable pub sla_class_of : String → Option SlaClass
sla_class_of s =
    if s == "real_time"
    then some real_time
    else if s == "interactive"
    then some interactive
    else if s == "batch"
    then some batch
    else none

unfoldable pub sla_value : SlaClass → String
sla_value real_time = "real_time"
sla_value interactive = "interactive"
sla_value batch = "batch"

unfoldable pub status_value : ExecutionStatus → String
status_value success = "success"
status_value failed = "failed"
status_value rejected = "rejected"

module _ {F : Type 0} ⦃fl : Floats F⦄ where
  -- the property `compute_utilization`
  unfoldable pub compute_utilization : NodeTelemetrySnapshot F → F
  compute_utilization s = max_float s.cpu_util_pct s.gpu_util_pct

  -- the bounds of the fields of a task
  unfoldable pub accepts_task : TaskRequest F → Bool
  accepts_task t = (literal 1 0 ≤ᶠ t.max_latency_ms) && not (t.idempotency_key == "")

  -- the bounds of the fields of a snapshot
  unfoldable pub accepts_snapshot : NodeTelemetrySnapshot F → Bool
  accepts_snapshot s =
      (literal 0 0 ≤ᶠ s.rtt_ms)
      && (literal 1 3 ≤ᶠ s.bandwidth_available_mbps)
      && (literal 0 0 ≤ᶠ s.cpu_util_pct)
      && (s.cpu_util_pct ≤ᶠ literal 100 0)
      && (literal 0 0 ≤ᶠ s.gpu_util_pct)
      && (s.gpu_util_pct ≤ᶠ literal 100 0)
      && (literal 0 0 ≤ᶠ s.cost_per_1k_inferences_usd)
      && (literal 0 0 ≤ᶠ s.last_heartbeat_age_ms)
