-- ===== src/NodeAgent/Node.antt =====
-- node_agent/node.py: `SimulatedNode`, without its signing keys, which node_agent/grpc_server.py uses.
use distributed_ai_networkin.Contracts.Models.{
  accepts_snapshot, high_assurance, standard, node_unreachable, TaskRequest, AssuranceLevel,
  unreachable, NodeTelemetrySnapshot, HealthStatus, HardwareAttestation, NodeClass,
}
use distributed_ai_networkin.Prelude.{
  ℕ, String, ◌≡◌, Bool, true, not, Option, none, some, List, [], ◌∷◌, arith, if◌then◌else◌,
}
use distributed_ai_networkin.Prelude.Floats.{literal, Floats}
use distributed_ai_networkin.Decision.Filter.{ConstraintFilter, rejection}

pub record SimulatedNode (F : Type 0) : Type 0 where
  pub node_id : String
  pub node_class : NodeClass
  pub base_rtt_ms : F
  pub bandwidth_mbps : F
  pub cost_per_1k_usd : F
  pub data_residency_zones : List String
  pub cpu_util_pct : F
  pub gpu_util_pct : F
  pub queue_depth : ℕ
  pub health : HealthStatus
  pub assurance_level : AssuranceLevel
  pub last_heartbeat_time : F
  pub is_offline : Bool
  pub fail_execution : Bool

module _ {F : Type 0} where
  unfoldable pub heartbeat : F → SimulatedNode F → SimulatedNode F
  heartbeat now n = record n { last_heartbeat_time = now }

  -- `quote` is the constant text that b64encode gives
  unfoldable pub get_attestation_evidence : String → SimulatedNode F → Option HardwareAttestation
  get_attestation_evidence quote n = elim n.assurance_level [
    | standard ↦ none
    | high_assurance ↦ some (record {
      evidence_type = "tpm2_quote";
      quote = quote;
      pcr_banks = ("sha256", "0x123456...") ∷ [];
      signature = "dummy_signature_over_quote";
    })
  ]

module _ {F : Type 0} ⦃fl : Floats F⦄ where
  -- the values that `emit_snapshot` gives to the constructor of a snapshot
  unfoldable pub snapshot_values : F → Option F → SimulatedNode F → NodeTelemetrySnapshot F
  snapshot_values now gateway_observed_rtt_ms n = record {
    node_id = n.node_id;
    node_class = n.node_class;
    timestamp = now;
    rtt_ms = n.base_rtt_ms;
    bandwidth_available_mbps = n.bandwidth_mbps;
    cpu_util_pct = n.cpu_util_pct;
    gpu_util_pct = n.gpu_util_pct;
    queue_depth = n.queue_depth;
    cost_per_1k_inferences_usd = n.cost_per_1k_usd;
    health = if not n.is_offline then n.health else unreachable;
    last_heartbeat_age_ms = fl.mul (fl.sub now n.last_heartbeat_time) (literal 1000 0);
    data_residency_zones = n.data_residency_zones;
    gateway_observed_rtt_ms = gateway_observed_rtt_ms;
    assurance_level = n.assurance_level;
  }

  -- `none` is the ValidationError of a value out of its bounds, such as a negative heartbeat age
  unfoldable pub emit_snapshot : F → Option F → SimulatedNode F → Option (NodeTelemetrySnapshot F)
  emit_snapshot now gateway_observed_rtt_ms n =
      let snapshot = snapshot_values now gateway_observed_rtt_ms n in
      if accepts_snapshot snapshot then some snapshot else none

  -- A node that is offline passes the hard constraints of no task.
  pub offline_rejected :
      (f : ConstraintFilter F) (task : TaskRequest F) (now : F) (rtt : Option F)
      (n : SimulatedNode F)
      → n.is_offline ≡ true
      → rejection f task (snapshot_values now rtt n) ≡ some node_unreachable
  unfolding rejection snapshot_values
  offline_rejected f task now rtt n h = ground arith
