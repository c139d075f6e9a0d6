-- ===== src/Gateway/Ingest.antt =====
-- The telemetry streamer of a node (node_agent/grpc_client.py) against the control plane
-- (gateway/grpc_server.py): what the one sends, the other stores.
pub mod Stream
use distributed_ai_networkin.Prelude.{
  String, ◌≡◌, refl, true, false, none, some, List, [], ◌∷◌, ◌==◌,
}
use distributed_ai_networkin.Gateway.ControlPlane.{
  goes_on, member_key, TelemetryService, receive, snapshot_of, TelemetryLibraries,
}
use distributed_ai_networkin.NodeAgent.Streamer.{
  TelemetryStreamer, payload_of, sign_telemetry, send, snapshot_at, StreamerLibraries, Sample,
}
use distributed_ai_networkin.NodeAgent.Node.{emit_snapshot, snapshot_values}
use distributed_ai_networkin.Contracts.Models.{
  accepts_snapshot, unreachable, cloud, degraded, healthy, edge, standard, NodeClass, HealthStatus,
  NodeTelemetrySnapshot, health_value, node_class_value, node_class_of, health_of,
}
use distributed_ai_networkin.Telemetry.Replay.Laws.{validate}
use distributed_ai_networkin.Gateway.ControlPlane.Laws.{message_of}
use distributed_ai_networkin.State.{Etcd}
use distributed_ai_networkin.Contracts.Messages.{TelemetryPayload, SignedTelemetryEnvelope}
use distributed_ai_networkin.Interfaces.{Bytes}
use distributed_ai_networkin.Prelude.Floats.{literal, Floats, ◌<ᶠ◌}
use distributed_ai_networkin.Telemetry.Store.{TelemetryStore}
use distributed_ai_networkin.State
use distributed_ai_networkin.Telemetry.Store

-- The two sides call the same libraries: keys are loaded from the texts that they are given as,
-- signatures verify, and payloads are read back.
pub record SameLibraries {F K : Type 0} (lib : StreamerLibraries F K)
    (gateway : TelemetryLibraries F) : Type 0 where
  pub loads-public_pem : (k : K) → gateway.loads_pem (lib.signing.public_pem k) ≡ true
  pub public_pem-ne-empty : (k : K) → (lib.signing.public_pem k == "") ≡ false
  pub verify-sign :
      (k : K) (m : Bytes)
      → gateway.verify (lib.signing.public_pem k) (lib.signing.sign k m) m ≡ true
  pub load-dump : (p : TelemetryPayload F) → gateway.load_payload (lib.dump_payload p) ≡ some p

-- A turn of the generator, and the time at which the control plane handles its message.
pub record Reception (F : Type 0) : Type 0 where
  pub sample : Sample F
  pub arrives_at : F

class-value : (c : NodeClass) → node_class_of (node_class_value c) ≡ some c
unfolding node_class_of node_class_value
class-value edge = refl
class-value cloud = refl

health-value : (h : HealthStatus) → health_of (health_value h) ≡ some h
unfolding health_of health_value
health-value healthy = refl
health-value degraded = refl
health-value unreachable = refl

module _ {F : Type 0} ⦃fl : Floats F⦄ where
  -- the values of the snapshot in a turn of the generator
  abbrev pub values_at : Sample F → NodeTelemetrySnapshot F
  values_at sample = snapshot_values sample.emitted_at none sample.node

  pub snapshot_at-accepted :
      (sample : Sample F)
      → accepts_snapshot (values_at sample) ≡ true
      → snapshot_at sample ≡ some (values_at sample)
  unfolding emit_snapshot
  snapshot_at-accepted sample h = rw h refl

  -- what the stream keeps of a snapshot
  unfoldable pub received : NodeTelemetrySnapshot F → NodeTelemetrySnapshot F
  received snap = record snap {
    last_heartbeat_age_ms = literal 0 0;
    gateway_observed_rtt_ms = none;
    assurance_level = standard;
  }

  abbrev pub at_times :
      List (Reception F) → List (SignedTelemetryEnvelope F) → List (F × SignedTelemetryEnvelope F)
  at_times [] envs = []
  at_times (r ∷ rs) [] = []
  at_times (r ∷ rs) (env ∷ envs) = (r.arrives_at, env) ∷ at_times rs envs

  -- the snapshots of the turns, recorded one after the other
  unfoldable pub store_all : List (Reception F) → TelemetryStore F → TelemetryStore F
  store_all [] store = store
  store_all (r ∷ rs) store =
      store_all rs (Store.record_snapshot (received (values_at r.sample)) store)

  -- A message of the node that arrives in time, with values within the bounds of a snapshot, both of
  -- the one that the node emits and of the one that the stream keeps.
  pub record IsTimely (node : String) (skew : F) (r : Reception F) : Type 0 where
    pub of_node : r.sample.node.node_id ≡ node
    pub unexpired : (fl.add r.sample.signed_at (literal 10 0) <ᶠ r.arrives_at) ≡ false
    pub within_skew : (fl.add r.arrives_at skew <ᶠ r.sample.signed_at) ≡ false
    pub emitted : accepts_snapshot (values_at r.sample) ≡ true
    pub in_bounds : accepts_snapshot (received (values_at r.sample)) ≡ true

  snapshot_of-payload_of :
      (env : SignedTelemetryEnvelope F) (snap : NodeTelemetrySnapshot F)
      → env.node_id ≡ snap.node_id
      → accepts_snapshot (received snap) ≡ true
      → snapshot_of env (payload_of snap) ≡ some (received snap)
  unfolding snapshot_of payload_of received
  snapshot_of-payload_of env snap mine h =
      rw (class-value snap.node_class) (rw (health-value snap.health) (rw mine (rw h refl)))

module _ {F K : Type 0} ⦃fl : Floats F⦄ (lib : StreamerLibraries F K)
    (gateway : TelemetryLibraries F) (same : SameLibraries lib gateway) where
  -- The rest of the turn, once the message is known to be genuine.
  pub receive-genuine :
      (now : F) (env : SignedTelemetryEnvelope F) (etcd : Etcd F) (sv : TelemetryService F) (k : K)
      (p : TelemetryPayload F) (snap : NodeTelemetrySnapshot F)
      → State.get etcd (member_key env.node_id) ≡ some (lib.signing.public_pem k)
      → (validate now (message_of gateway env) sv.replay_state).0 ≡ true
      → env.payload_json ≡ lib.dump_payload p
      → env.signature ≡ lib.signing.sign k env.payload_json
      → snapshot_of env p ≡ some snap
      → receive gateway now env etcd sv ≡ (
        goes_on,
        record {
          store = Store.record_snapshot snap sv.store;
          replay_state = (validate now (message_of gateway env) sv.replay_state).1;
        },
      )
  unfolding receive
  receive-genuine now env etcd sv k p snap member fresh dumped signed shown =
      let verified : gateway.verify (lib.signing.public_pem k) env.signature env.payload_json
          ≡ true =
        rw signed (same.verify-sign k env.payload_json) in
      let loaded : gateway.load_payload env.payload_json ≡ some p = rw dumped (same.load-dump p) in
      rw member (
        rw (same.public_pem-ne-empty k)
          (rw (same.loads-public_pem k) (rw (fresh) (rw verified (rw loaded (rw shown refl))))))

  pub snapshot_of-send :
      (sample : Sample F) (s : TelemetryStreamer K)
      → accepts_snapshot (received (values_at sample)) ≡ true
      → snapshot_of (send lib sample (values_at sample) s).0 (payload_of (values_at sample))
        ≡ some (received (values_at sample))
  unfolding send sign_telemetry snapshot_values
  snapshot_of-send sample s h =
      snapshot_of-payload_of (send lib sample (values_at sample) s).0 (values_at sample) refl h
