-- ===== src/Gateway/ControlPlane.antt =====
-- gateway/grpc_server.py: `NodeRegistryServicer` and `TelemetryServiceServicer`. The snapshots go to
-- the in-memory store.
pub mod Laws
use distributed_ai_networkin.Prelude.{
  String, Bool, not, Option, none, some, List, [], ◌∷◌, ◌==◌, if◌then◌else◌, or_default,
}
use distributed_ai_networkin.Contracts.Models.{
  standard, health_of, HealthStatus, node_class_of, NodeClass, accepts_snapshot,
  NodeTelemetrySnapshot,
}
use distributed_ai_networkin.Prelude.Floats.{literal, Floats}
use distributed_ai_networkin.Scheduler.{register_worker, TaskScheduler}
use distributed_ai_networkin.Security.Identity.{authorize_node, authenticate_node}
use distributed_ai_networkin.Telemetry.Replay.{validate_and_record, ReplayProtectionState}
use distributed_ai_networkin.Contracts.Messages.{
  TelemetryPayload, SignedTelemetryEnvelope, NodeRegistrationRequest,
}
use distributed_ai_networkin.State.{Etcd}
use distributed_ai_networkin.Telemetry.Store.{TelemetryStore}
use distributed_ai_networkin.Interfaces.{Bytes}
use distributed_ai_networkin.Telemetry.Store
use distributed_ai_networkin.State
use Prim.Native.String.{◌++◌ as ◌&◌}

unfoldable pub member_key : String → String
member_key node_id = "/distributed-ai/members/" & (node_id & "/identity")

pub data Registration : Type 0 where
  invalid_identity : Registration
  missing_key : Registration
  registered : Registration

module _ {F K : Type 0} where
  unfoldable pub register_node :
      Option String
      → NodeRegistrationRequest
      → Etcd F × TaskScheduler K
      → Registration × (Etcd F × TaskScheduler K)
  register_node spiffe_id request (etcd, s) =
      if not (authorize_node spiffe_id request.node_id)
      then (invalid_identity, (etcd, s))
      else if request.public_signing_key == ""
      then (missing_key, (etcd, s))
      else (
        registered,
        (
          State.put (member_key request.node_id) request.public_signing_key etcd,
          register_worker request.node_id (request.node_id & ":50051") s,
        ),
      )

-- What the telemetry servicer calls.
pub record TelemetryLibraries (F : Type 0) : Type 0 where
  -- `load_pem_public_key`: false where it raises
  pub loads_pem : String → Bool
  pub verify : String → Bytes → Bytes → Bool
  -- `json.loads` of a payload; `none` is an exception
  pub load_payload : Bytes → Option (TelemetryPayload F)

-- How the turn for one message ends: the loop goes on, or an exception ends the stream.
pub data Turn : Type 0 where
  goes_on : Turn
  raises : Turn

pub data Ack : Type 0 where
  unauthenticated success error : Ack

pub record TelemetryService (F : Type 0) : Type 0 where
  pub store : TelemetryStore F
  pub replay_state : ReplayProtectionState F

module _ {F : Type 0} ⦃fl : Floats F⦄ where
  abbrev pub snapshot_with :
      SignedTelemetryEnvelope F
      → TelemetryPayload F
      → Option NodeClass
      → Option HealthStatus
      → Option (NodeTelemetrySnapshot F)
  snapshot_with env p (some class) (some health) = some (record {
    node_id = env.node_id;
    node_class = class;
    timestamp = or_default env.timestamp p.timestamp;
    rtt_ms = or_default (literal 0 0) p.rtt_ms;
    bandwidth_available_mbps = or_default (literal 0 0) p.bandwidth_available_mbps;
    cpu_util_pct = or_default (literal 0 0) p.cpu_util_pct;
    gpu_util_pct = or_default (literal 0 0) p.gpu_util_pct;
    queue_depth = or_default 0 p.queue_depth;
    cost_per_1k_inferences_usd = or_default (literal 0 0) p.cost_per_1k_inferences_usd;
    health = health;
    last_heartbeat_age_ms = literal 0 0;
    data_residency_zones = or_default [] p.data_residency_zones;
    gateway_observed_rtt_ms = none;
    assurance_level = standard;
  })
  snapshot_with env p none health = none
  snapshot_with env p (some class) none = none

  abbrev pub checked : Option (NodeTelemetrySnapshot F) → Option (NodeTelemetrySnapshot F)
  checked none = none
  checked (some snap) = if accepts_snapshot snap then some snap else none

  -- the snapshot of a payload; `none` is a ValueError or a ValidationError
  unfoldable pub snapshot_of :
      SignedTelemetryEnvelope F → TelemetryPayload F → Option (NodeTelemetrySnapshot F)
  snapshot_of env p = checked (
      snapshot_with env p (node_class_of (or_default "edge" p.node_class))
        (health_of (or_default "healthy" p.health)))

  module _ (lib : TelemetryLibraries F) where
    abbrev pub store_snapshot :
        Option (NodeTelemetrySnapshot F) → TelemetryService F → Turn × TelemetryService F
    store_snapshot none s = (raises, s)
    store_snapshot (some snap) s =
        (goes_on, record s { store = Store.record_snapshot snap s.store })

    abbrev pub store_payload :
        SignedTelemetryEnvelope F
        → Option (TelemetryPayload F)
        → TelemetryService F
        → Turn × TelemetryService F
    store_payload env none s = (raises, s)
    store_payload env (some p) s = store_snapshot (snapshot_of env p) s

    -- the turn with the key of the sender
    abbrev pub receive_signed :
        F → String → SignedTelemetryEnvelope F → TelemetryService F → Turn × TelemetryService F
    receive_signed now pem env s =
        let (fresh, replay) =
          validate_and_record now env.node_id env.sequence_number env.nonce env.timestamp
            env.expires_at s.replay_state in
        let s' = record s { replay_state = replay } in
        if not fresh
        then (goes_on, s')
        else if not (lib.verify pem env.signature env.payload_json)
        then (goes_on, s')
        else store_payload env (lib.load_payload env.payload_json) s'

    -- the turn with the key that the store holds for the sender, if any
    abbrev pub receive_from :
        F
        → Option String
        → SignedTelemetryEnvelope F
        → TelemetryService F
        → Turn × TelemetryService F
    receive_from now none env s = (goes_on, s)
    receive_from now (some pem) env s =
        if pem == ""
        then (goes_on, s)
        else if not (lib.loads_pem pem)
        then (raises, s)
        else receive_signed now pem env s

    -- one turn of the loop of `StreamTelemetry`
    unfoldable pub receive :
        F → SignedTelemetryEnvelope F → Etcd F → TelemetryService F → Turn × TelemetryService F
    receive now env etcd s = receive_from now (State.get etcd (member_key env.node_id)) env s

    -- the messages of a stream, with the time at which each is handled
    unfoldable pub receive_all :
        List (F × SignedTelemetryEnvelope F)
        → Etcd F
        → TelemetryService F
        → Ack × TelemetryService F
    receive_all [] etcd s = (success, s)
    receive_all ((now, env) ∷ rest) etcd s =
        let (turn, s') = receive now env etcd s in
        elim turn [ goes_on ↦ receive_all rest etcd s' | raises ↦ (error, s') ]

    unfoldable pub stream_telemetry :
        Option String
        → List (F × SignedTelemetryEnvelope F)
        → Etcd F
        → TelemetryService F
        → Ack × TelemetryService F
    stream_telemetry spiffe_id messages etcd s =
        if not (authenticate_node spiffe_id)
        then (unauthenticated, s)
        else receive_all messages etcd s
