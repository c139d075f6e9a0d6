-- ===== src/NodeAgent/Streamer.antt =====
-- node_agent/grpc_client.py: `TelemetryStreamer`. What other threads do to it, and what the network
-- answers, is the order of the events. Numbers are not bounded; the message's field has 63 bits.
pub mod Client
pub mod Stopped
use distributed_ai_networkin.Prelude.{
  ℕ, ◌+◌, String, Bool, ◌&&◌, Option, none, some, List, [], ◌∷◌, ◌++◌, if◌then◌else◌,
}
use distributed_ai_networkin.Prelude.Int.{pos}
use distributed_ai_networkin.Contracts.Models.{
  health_value, node_class_value, NodeTelemetrySnapshot,
}
use distributed_ai_networkin.Prelude.Floats.{literal, Floats}
use distributed_ai_networkin.Security.Algorithms.{dual_required, PqcConfig}
use distributed_ai_networkin.Contracts.Messages.{
  NodeRegistrationRequest, TelemetryPayload, SignedTelemetryEnvelope,
}
use distributed_ai_networkin.SupplyChain.Digest.{codes}
use distributed_ai_networkin.NodeAgent.Node.{emit_snapshot, SimulatedNode}
use distributed_ai_networkin.Interfaces.{Signing, Bytes}
use Prim.Native.String.{◌++◌ as ◌&◌}

-- What the streamer calls.
pub record StreamerLibraries (F K : Type 0) : Type 0 where
  pub signing : Signing K
  pub sha256 : Bytes → Bytes
  -- json.dumps with sorted keys, encoded
  pub dump_payload : TelemetryPayload F → Bytes
  -- str(n).encode
  pub str : ℕ → Bytes
  -- `pq_signer.sign` with the node's key
  pub pq_sign : Bytes → Bytes

pub record TelemetryStreamer (K : Type 0) : Type 0 where
  pub use_tls : Bool
  pub sequence_number : ℕ
  pub previous_hash : Bytes
  pub signing_key : K
  pub pqc_config : PqcConfig
  -- `self.node.pq_signer` is set
  pub has_pq_signer : Bool

-- One turn of the generator: the node as it is then, the clock when the snapshot is made and when it
-- is signed, and the random nonce.
pub record Sample (F : Type 0) : Type 0 where
  pub node : SimulatedNode F
  pub emitted_at : F
  pub signed_at : F
  pub nonce : String

-- `__init__`
unfoldable pub init : {K : Type 0} → Bool → K → PqcConfig → Bool → TelemetryStreamer K
init use_tls key config has_pq_signer = record {
  use_tls = use_tls;
  sequence_number = 0;
  previous_hash = [];
  signing_key = key;
  pqc_config = config;
  has_pq_signer = has_pq_signer;
}

unfoldable pub spiffe_of : String → String
spiffe_of node_id = "spiffe://distributed-ai.local/node/" & node_id

module _ {F : Type 0} where
  unfoldable pub payload_of : NodeTelemetrySnapshot F → TelemetryPayload F
  payload_of snapshot = record {
    node_class = some (node_class_value snapshot.node_class);
    timestamp = some snapshot.timestamp;
    rtt_ms = some snapshot.rtt_ms;
    bandwidth_available_mbps = some snapshot.bandwidth_available_mbps;
    cpu_util_pct = some snapshot.cpu_util_pct;
    gpu_util_pct = some snapshot.gpu_util_pct;
    queue_depth = some snapshot.queue_depth;
    cost_per_1k_inferences_usd = some snapshot.cost_per_1k_inferences_usd;
    health = some (health_value snapshot.health);
    data_residency_zones = some snapshot.data_residency_zones;
  }

module _ {F : Type 0} ⦃fl : Floats F⦄ where
  -- `emit_snapshot` in a turn of the generator
  abbrev pub snapshot_at : Sample F → Option (NodeTelemetrySnapshot F)
  snapshot_at sample = emit_snapshot sample.emitted_at none sample.node

module _ {F K : Type 0} where
  -- the identity of the credentials that the channel is opened with
  abbrev pub channel_identity : TelemetryStreamer K → SimulatedNode F → Option String
  channel_identity s node = if s.use_tls then some (spiffe_of node.node_id) else none

  module _ (lib : StreamerLibraries F K) where
    -- the request of `_stream_loop`
    unfoldable pub registration_request :
        TelemetryStreamer K → SimulatedNode F → NodeRegistrationRequest
    registration_request s node = record {
      node_id = node.node_id;
      node_class = node_class_value node.node_class;
      supported_models = "vision-classifier-v3" ∷ [];
      data_residency_zones = node.data_residency_zones;
      hardware_specs_json = "{}";
      public_signing_key = lib.signing.public_pem s.signing_key;
    }

    -- the digest that chains a message to the one before
    unfoldable pub message_hash : Bytes → Bytes → ℕ → String → Bytes
    message_hash previous payload n nonce = lib.sha256 (
        codes "DISTRIBUTED_AI_TELEMETRY_V1"
        ++ (previous ++ (payload ++ (lib.str n ++ codes nonce))))

    module _ ⦃fl : Floats F⦄ where
      -- `_sign_telemetry`
      unfoldable pub sign_telemetry :
          F
          → String
          → NodeTelemetrySnapshot F
          → SimulatedNode F
          → TelemetryStreamer K
          → SignedTelemetryEnvelope F × TelemetryStreamer K
      sign_telemetry now nonce snapshot node s =
          let n = s.sequence_number + 1 in
          let payload_json = lib.dump_payload (payload_of snapshot) in
          let current_hash = message_hash s.previous_hash payload_json n nonce in
          let pq = dual_required s.pqc_config && s.has_pq_signer in
          (
            record {
              node_id = node.node_id;
              timestamp = now;
              expires_at = fl.add now (literal 10 0);
              sequence_number = pos n;
              nonce = nonce;
              payload_json = payload_json;
              signature = lib.signing.sign s.signing_key payload_json;
              schema_version = "1.0";
              previous_message_hash = current_hash;
              signature_algorithm = "Ed25519";
              key_id = "node-" & (node.node_id & "-key-1");
              pq_signature_algorithm = if pq then s.pqc_config.signature else "";
              pq_signature = if pq then lib.pq_sign payload_json else [];
            },
            record s { sequence_number = n; previous_hash = current_hash },
          )

      -- one turn of `_telemetry_generator`, with the snapshot that the node emits
      unfoldable pub send :
          Sample F
          → NodeTelemetrySnapshot F
          → TelemetryStreamer K
          → SignedTelemetryEnvelope F × TelemetryStreamer K
      send sample snapshot s = sign_telemetry sample.signed_at sample.nonce snapshot sample.node s

      -- the turns of the generator up to the stop, or to a snapshot that raises
      unfoldable pub telemetry_generator :
          List (Sample F)
          → TelemetryStreamer K
          → List (SignedTelemetryEnvelope F) × TelemetryStreamer K
      telemetry_generator [] s = ([], s)
      telemetry_generator (sample ∷ rest) s = elim (snapshot_at sample) [
        | none ↦ ([], s)
        | some snapshot ↦
            let (env, s') = send sample snapshot s in
            let (envs, s'') = telemetry_generator rest s' in (env ∷ envs, s'')
      ]
