-- ===== src/Tests/Ingress.antt =====
-- The control plane at concrete inputs.
use distributed_ai_networkin.Prelude.{
  ℕ, String, ◌≡◌, refl, ◌↔◌, ◌⊎◌, true, false, ◌&&◌, not, Option, none, some, [], ◌∷◌, ◌==◌,
  if◌then◌else◌,
}
use distributed_ai_networkin.Gateway.ControlPlane.Laws.{
  register_node_lem, receive-forged, receive-Stored, Stored,
}
use Prim.Native.String.{◌++◌ as ◌&◌}
use distributed_ai_networkin.Telemetry.Replay.{add_nonce, validate_and_record}
use distributed_ai_networkin.Gateway.ControlPlane.{
  registered, receive, register_node, member_key, TelemetryLibraries, TelemetryService,
}
use distributed_ai_networkin.Prelude.Int.{pos}
use distributed_ai_networkin.Audit.Verify.{same_bytes}
use distributed_ai_networkin.Security.Identity.{authorize_node}
use distributed_ai_networkin.Contracts.Messages.{
  SignedTelemetryEnvelope, NodeRegistrationRequest, TelemetryPayload,
}
use distributed_ai_networkin.State.{Etcd}
use distributed_ai_networkin.Scheduler.{TaskScheduler}
use distributed_ai_networkin.Prelude.Dict
use distributed_ai_networkin.Tests.Instances.{micros}
use distributed_ai_networkin.Tests.Stores.{classical}
use distributed_ai_networkin.State

abbrev members : Etcd ℕ
members = record {
  kv = ("/distributed-ai/members/edge-1/identity", "pem") ∷ [];
  leases = λ id. none;
  lease_id_counter = 1;
}

abbrev pub scheduler : TaskScheduler ℕ
scheduler = record {
  node_targets = [];
  channels = ("edge-2", "old:1") ∷ [];
  scheduler_id = "s1";
  lease_id = 1;
  is_leader = true;
  signing_key = 1;
  pqc_config = classical;
  oqs_available = false;
}

abbrev registration : NodeRegistrationRequest
registration = record {
  node_id = "edge-2";
  node_class = "edge";
  supported_models = "vision-classifier-v3" ∷ [];
  data_residency_zones = [];
  hardware_specs_json = "{}";
  public_signing_key = "pem2";
}

abbrev caller : Option String
caller = some "spiffe://distributed-ai.local/node/edge-2"

register_node_lem_example :
    let (result, (etcd', s')) = register_node caller registration (members, scheduler) in
    let ok = authorize_node caller "edge-2" && not ("pem2" == "") in
    ((result ≡ registered) ↔ (ok ≡ true))
    × (((key : String)
          → State.get etcd' key
            ≡ (if ok && (member_key "edge-2" == key) then some "pem2" else State.get members key))
        × (((node : String)
              → Dict.get s'.node_targets node ≡ (
                  if ok && ("edge-2" == node)
                  then some ("edge-2" & ":50051")
                  else Dict.get scheduler.node_targets node))
            × ((node : String)
                → Dict.get s'.channels node
                  ≡ (if ok && ("edge-2" == node) then none else Dict.get scheduler.channels node))
            × ((ok ≡ true) ⊎ (s' ≡ scheduler))))
register_node_lem_example = register_node_lem caller registration members scheduler

abbrev payload : TelemetryPayload ℕ
payload = record {
  node_class = some "edge";
  timestamp = none;
  rtt_ms = some 5000000;
  bandwidth_available_mbps = some 1000000;
  cpu_util_pct = none;
  gpu_util_pct = none;
  queue_depth = none;
  cost_per_1k_inferences_usd = none;
  health = none;
  data_residency_zones = none;
}

abbrev telemetry_libraries : TelemetryLibraries ℕ
telemetry_libraries = record {
  loads_pem = λ pem. true;
  verify = λ pem signature message. same_bytes signature message;
  load_payload = λ b. some payload;
}

abbrev pub service : TelemetryService ℕ
service = record {
  store = record { snapshots = []; staleness_threshold_ms = 3000000000 };
  replay_state = record {
    max_clock_skew_seconds = 5000000;
    highest_sequence = [];
    seen_nonces = [];
  };
}

abbrev message : SignedTelemetryEnvelope ℕ
message = record {
  node_id = "edge-1";
  timestamp = 1000000;
  expires_at = 9000000;
  sequence_number = pos 3;
  nonce = "n1";
  payload_json = 1 ∷ [];
  signature = 1 ∷ [];
  schema_version = "1.0";
  previous_message_hash = [];
  signature_algorithm = "Ed25519";
  key_id = "node-edge-1-key-1";
  pq_signature_algorithm = "";
  pq_signature = [];
}

receive-Stored_example :
    Stored telemetry_libraries 2000000 message members service
      (receive telemetry_libraries 2000000 message members service).1
receive-Stored_example = receive-Stored telemetry_libraries 2000000 message members service

abbrev forged : SignedTelemetryEnvelope ℕ
forged = record message { signature = []; sequence_number = pos 900; nonce = "x" }

receive-forged_example :
    (receive telemetry_libraries 3000000 message members
      (receive telemetry_libraries 2000000 forged members service).1).1.store
    ≡ service.store
unfolding State.get Dict.get Dict.put member_key same_bytes validate_and_record add_nonce micros
receive-forged_example =
    receive-forged telemetry_libraries 2000000 3000000 forged message members service "pem" refl
      refl refl refl refl refl refl
