-- ===== src/Tests/Stores.antt =====
-- The store, the leadership of schedulers and the telemetry at concrete inputs.
use distributed_ai_networkin.Prelude.{
  ℕ, ◌≤◌, ◌≡◌, refl, true, false, none, some, List, [], ◌∷◌, arith, eqb, if◌then◌else◌,
}
use distributed_ai_networkin.Telemetry.Replay.Laws.{
  validate_all-replay, validate_all, validate, Message,
}
use distributed_ai_networkin.State.Leases.{is_lease_valid-run}
use distributed_ai_networkin.Scheduler.Leadership.{
  start_all-one_leader, start_all-leader_kept, start_all, Start, count_true,
}
use distributed_ai_networkin.Contracts.Models.{
  standard, healthy, cloud, edge, NodeTelemetrySnapshot,
}
use distributed_ai_networkin.State.Ops.{check_op, grant_op, put_op, run, Op}
use distributed_ai_networkin.Tests.Instances.{signing, micros}
use distributed_ai_networkin.Prelude.Int.{pos}
use distributed_ai_networkin.State.{same_value, Etcd}
use distributed_ai_networkin.Telemetry.Replay.{validate_and_record, ReplayProtectionState}
use distributed_ai_networkin.Telemetry.Store.{TelemetryStore}
use distributed_ai_networkin.Security.Algorithms.{PqcConfig}
use distributed_ai_networkin.Scheduler.{leader_key}
use distributed_ai_networkin.Prelude.Dict
use distributed_ai_networkin.State

abbrev pub leased : Etcd ℕ
leased = record {
  kv = ("a", "1") ∷ [];
  leases = λ id. if eqb id 1 then some 30000000 else none;
  lease_id_counter = 2;
}

abbrev ops : List (Op ℕ)
ops = put_op "k" "v" ∷ grant_op 40000000 30 ∷ check_op 41000000 1 ∷ []

is_lease_valid-run_example :
    (State.is_lease_valid 50000000 1 (run ops (State.is_lease_valid 40000000 1 leased).1)).0 ≡ false
unfolding State.is_lease_valid micros
is_lease_valid-run_example = is_lease_valid-run 40000000 50000000 1 ops leased (omega arith) refl

abbrev pub classical : PqcConfig
classical = record {
  mode = "disabled";
  kem = "ML-KEM-768";
  signature = "ML-DSA-65";
  classical_signature = "Ed25519";
  message_signature_policy = "classical";
  allow_oqs_provider = false;
  require_capability_probe = true;
}

abbrev starts : List (Start ℕ ℕ)
starts =
    record { now = 0; targets = []; scheduler_id = "s1"; key = 1; config = classical; oqs = false }
    ∷ record {
      now = 90000000;
      targets = [];
      scheduler_id = "s2";
      key = 2;
      config = classical;
      oqs = false;
    }
    ∷ []

abbrev led : Etcd ℕ
led = record {
  kv = ("/distributed-ai/scheduler/leader", "s0") ∷ [];
  leases = λ id. none;
  lease_id_counter = 2;
}

start_all-leader_kept_example :
    (count_true (start_all signing starts led).0 ≡ 0)
    × (State.get (start_all signing starts led).1 leader_key ≡ some "s0")
unfolding State.get leader_key Dict.get
start_all-leader_kept_example = start_all-leader_kept signing starts led "s0" refl

start_all-one_leader_example : count_true (start_all signing starts State.empty).0 ≤ 1
start_all-one_leader_example = start_all-one_leader signing starts State.empty

abbrev pub edge_1 : NodeTelemetrySnapshot ℕ
edge_1 = record {
  node_id = "edge-1";
  node_class = edge;
  timestamp = 1000000;
  rtt_ms = 5000000;
  bandwidth_available_mbps = 100000000;
  cpu_util_pct = 20000000;
  gpu_util_pct = 30000000;
  queue_depth = 1;
  cost_per_1k_inferences_usd = 100000;
  health = healthy;
  last_heartbeat_age_ms = 0;
  data_residency_zones = "eu" ∷ [];
  gateway_observed_rtt_ms = none;
  assurance_level = standard;
}

abbrev pub cloud_1 : NodeTelemetrySnapshot ℕ
cloud_1 = record edge_1 { node_id = "cloud-1"; node_class = cloud; rtt_ms = 40000000 }

abbrev telemetry : TelemetryStore ℕ
telemetry = record { snapshots = ("cloud-1", cloud_1) ∷ []; staleness_threshold_ms = 5000000000 }

abbrev replay : ReplayProtectionState ℕ
replay = record { max_clock_skew_seconds = 5000000; highest_sequence = []; seen_nonces = [] }

abbrev first_message : Message ℕ
first_message = record {
  node_id = "edge-1";
  sequence_number = pos 4;
  nonce = "n1";
  timestamp = 1000000;
  expires_at = 9000000;
}

abbrev second_message : Message ℕ
second_message = record first_message { sequence_number = pos 3; nonce = "n2" }

validate_all-replay_example :
    (validate 3000000 second_message
      (validate_all ((2000000, second_message) ∷ []) (validate 2000000 first_message replay).1).1).0
    ≡ false
unfolding validate_and_record Dict.get Dict.put micros
validate_all-replay_example =
    validate_all-replay 2000000 3000000 first_message second_message
      ((2000000, second_message) ∷ []) replay refl refl refl
