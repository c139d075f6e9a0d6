-- ===== src/Gateway/Ingest/Stream.antt =====
-- A node that registers (node_agent/grpc_client.py, gateway/grpc_server.py) and then streams.
use distributed_ai_networkin.Prelude.{
  ◌+◌, String, ◌≡◌, refl, ap, ◌∙◌, subst, true, false, some, List, [], ◌∷◌, map, arith, ◌==◌,
  eq_iff, eq_refl, contains, All, Distinct,
}
use distributed_ai_networkin.Contracts.Models.{accepts_snapshot}
use distributed_ai_networkin.Security.Identity.{authorize_node-named, authorize_node_lem}
use distributed_ai_networkin.Gateway.ControlPlane.{
  registered, raises, goes_on, receive, member_key, stream_telemetry, register_node,
  TelemetryService, receive_all, TelemetryLibraries, Ack,
}
use distributed_ai_networkin.Telemetry.Replay.Fresh.{
  validate-max_clock_skew_seconds, highest-validate, validate-IsFresh, validate-unseen, IsFresh,
}
use distributed_ai_networkin.NodeAgent.Streamer.{
  channel_identity, payload_of, registration_request, sign_telemetry, spiffe_of, TelemetryStreamer,
  Sample, send, telemetry_generator, StreamerLibraries,
}
use distributed_ai_networkin.Scheduler.{TaskScheduler}
use distributed_ai_networkin.NodeAgent.Node.{SimulatedNode}
use distributed_ai_networkin.Telemetry.Replay.Laws.{highest, validate, Message}
use distributed_ai_networkin.Prelude.Int.{pos}
use distributed_ai_networkin.Prelude.Dict.{get-put}
use distributed_ai_networkin.Gateway.ControlPlane.Laws.{message_of}
use distributed_ai_networkin.Telemetry.Replay.{nonces_of, ReplayProtectionState, not_above}
use distributed_ai_networkin.Contracts.Messages.{SignedTelemetryEnvelope}
use distributed_ai_networkin.State.{Etcd}
use distributed_ai_networkin.Gateway.Ingest.{
  snapshot_at-accepted, values_at, SameLibraries, receive-genuine, snapshot_of-send, at_times,
  IsTimely, store_all, received, Reception,
}
use distributed_ai_networkin.Prelude.Floats.{Floats}
use distributed_ai_networkin.State
use distributed_ai_networkin.Telemetry.Store

module _ {F K : Type 0} ⦃fl : Floats F⦄ (lib : StreamerLibraries F K)
    (gateway : TelemetryLibraries F) (same : SameLibraries lib gateway) where
  abbrev pub samples : List (Reception F) → List (Sample F)
  samples = map (λ r. r.sample)

  abbrev pub nonces : List (Reception F) → List String
  nonces = map (λ r. r.sample.nonce)

  -- The streamer of a node in front of a control plane that has not seen its next number nor its next
  -- nonces.
  pub record IsReady (node : String) (sv : TelemetryService F) (s : TelemetryStreamer K)
      (rs : List (Reception F)) : Type 0 where
    pub above : not_above (pos (s.sequence_number + 1)) (highest sv.replay_state node) ≡ false
    pub unseen : All (λ r. contains r.sample.nonce (nonces_of sv.replay_state node) ≡ false) rs
    pub timely : All (IsTimely node sv.replay_state.max_clock_skew_seconds) rs
    pub distinct : Distinct (nonces rs)

  -- the service after a genuine message
  abbrev after : Reception F → TelemetryStreamer K → TelemetryService F → TelemetryService F
  after r s sv = record {
    store = Store.record_snapshot (received (values_at r.sample)) sv.store;
    replay_state =
        (validate r.arrives_at (message_of gateway (send lib r.sample (values_at r.sample) s).0)
          sv.replay_state).1;
  }

  head-IsFresh :
      (node : String) (sv : TelemetryService F) (s : TelemetryStreamer K) (r : Reception F)
      (rs : List (Reception F))
      → IsReady node sv s (r ∷ rs)
      → IsFresh r.arrives_at
          (message_of gateway (send lib r.sample (values_at r.sample) s).0)
          sv.replay_state
  unfolding send sign_telemetry
  head-IsFresh node sv s r rs h = record {
    unexpired = h.timely.0.unexpired;
    within_skew = h.timely.0.within_skew;
    above = rw h.timely.0.of_node h.above;
    unseen = rw h.timely.0.of_node h.unseen.0;
  }

  head-receive :
      (node : String) (etcd : Etcd F) (sv : TelemetryService F) (s : TelemetryStreamer K)
      (r : Reception F) (rs : List (Reception F))
      → IsReady node sv s (r ∷ rs)
      → State.get etcd (member_key node) ≡ some (lib.signing.public_pem s.signing_key)
      → receive gateway r.arrives_at (send lib r.sample (values_at r.sample) s).0 etcd sv
        ≡ (goes_on, after r s sv)
  unfolding send sign_telemetry
  head-receive node etcd sv s r rs h member =
      receive-genuine lib gateway same r.arrives_at (send lib r.sample (values_at r.sample) s).0
        etcd sv s.signing_key (payload_of (values_at r.sample)) (received (values_at r.sample))
        (rw h.timely.0.of_node member)
        (validate-IsFresh r.arrives_at
          (message_of gateway (send lib r.sample (values_at r.sample) s).0) sv.replay_state
          (head-IsFresh node sv s r rs h))
        refl refl (snapshot_of-send lib gateway same r.sample s h.timely.0.in_bounds)

  rest_unseen :
      (now : F) (m : Message F) (t : ReplayProtectionState F) (rs : List (Reception F))
      → contains m.nonce (nonces rs) ≡ false
      → All (λ r. contains r.sample.nonce (nonces_of t m.node_id) ≡ false) rs
      → All (λ r. contains r.sample.nonce (nonces_of (validate now m t).1 m.node_id) ≡ false) rs
  rest_unseen now m t [] h k = tt
  rest_unseen now m t (r ∷ rs) h k =
      let differ : (m.nonce == r.sample.nonce) ≡ false =
        ground (arith, h, eq_iff m.nonce r.sample.nonce, eq_iff r.sample.nonce m.nonce) in
      (
        validate-unseen now m t r.sample.nonce k.0 differ,
        rest_unseen now m t rs (ground (arith, h)) k.1,
      )

  rest-IsReady :
      (node : String) (sv : TelemetryService F) (s : TelemetryStreamer K) (r : Reception F)
      (rs : List (Reception F))
      → IsReady node sv s (r ∷ rs)
      → IsReady node (after r s sv) (send lib r.sample (values_at r.sample) s).1 rs
  unfolding send sign_telemetry
  rest-IsReady node sv s r rs h =
      let m = message_of gateway (send lib r.sample (values_at r.sample) s).0 in
      let fresh = validate-IsFresh r.arrives_at m sv.replay_state (head-IsFresh node sv s r rs h) in
      let t = (after r s sv).replay_state in
      record {
        above =
            subst (λ j. not_above (pos (s.sequence_number + 1 + 1)) (highest t j) ≡ false)
              h.timely.0.of_node
              (rw (highest-validate r.arrives_at m sv.replay_state fresh) (ground arith));
        unseen =
            subst (λ j. All (λ x. contains x.sample.nonce (nonces_of t j) ≡ false) rs)
              h.timely.0.of_node
              (rest_unseen r.arrives_at m sv.replay_state rs h.distinct.0
                (rw h.timely.0.of_node h.unseen.1));
        timely = rw (validate-max_clock_skew_seconds r.arrives_at m sv.replay_state) h.timely.1;
        distinct = h.distinct.1;
      }

  receive_all-goes_on :
      (now : F) (env : SignedTelemetryEnvelope F) (rest : List (F × SignedTelemetryEnvelope F))
      (etcd : Etcd F) (sv sv' : TelemetryService F)
      → receive gateway now env etcd sv ≡ (goes_on, sv')
      → receive_all gateway ((now, env) ∷ rest) etcd sv ≡ receive_all gateway rest etcd sv'
  unfolding receive_all
  receive_all-goes_on now env rest etcd sv sv' e =
      ap
        (λ out. elim out.0 [
          | goes_on ↦ receive_all gateway rest etcd out.1
          | raises ↦ (Ack.error, out.1)
        ])
        e

  generator-turn :
      (sample : Sample F) (rest : List (Sample F)) (s : TelemetryStreamer K)
      → accepts_snapshot (values_at sample) ≡ true
      → telemetry_generator lib (sample ∷ rest) s ≡ (
          let (env, s') = send lib sample (values_at sample) s in
          let (envs, s'') = telemetry_generator lib rest s' in (env ∷ envs, s''))
  unfolding telemetry_generator
  generator-turn sample rest s h = rw (telemetry_generator, snapshot_at-accepted sample h) refl

  receive_all-generator :
      (node : String) (etcd : Etcd F) (sv : TelemetryService F) (s : TelemetryStreamer K)
      (rs : List (Reception F))
      → IsReady node sv s rs
      → State.get etcd (member_key node) ≡ some (lib.signing.public_pem s.signing_key)
      → let (ack, sv') =
          receive_all gateway (at_times rs (telemetry_generator lib (samples rs) s).0) etcd sv in
        (ack ≡ Ack.success) × (sv'.store ≡ store_all rs sv.store)
  unfolding telemetry_generator store_all send sign_telemetry receive_all
  receive_all-generator node etcd sv s [] h member = (refl, refl)
  receive_all-generator node etcd sv s (r ∷ rs) h member =
      let first =
        receive_all-goes_on r.arrives_at (send lib r.sample (values_at r.sample) s).0
          (at_times rs
            (telemetry_generator lib (samples rs) (send lib r.sample (values_at r.sample) s).1).0)
          etcd sv (after r s sv) (head-receive node etcd sv s r rs h member) in
      let (ack, stored) =
        receive_all-generator node etcd (after r s sv) (send lib r.sample (values_at r.sample) s).1
          rs (rest-IsReady node sv s r rs h) member in
      let turn =
        ap (λ o. receive_all gateway (at_times (r ∷ rs) o.0) etcd sv)
          (generator-turn r.sample (samples rs) s h.timely.0.emitted)
        ∙ first in
      (ap (λ o. o.0) turn ∙ ack, ap (λ o. o.1.store) turn ∙ stored)

  registered_member :
      (node key : String) (etcd : Etcd F)
      → State.get (State.put (member_key node) key etcd) (member_key node) ≡ some key
  unfolding State.get State.put
  registered_member node key etcd =
      get-put etcd.kv (member_key node) (member_key node) key ∙ rw (eq_refl (member_key node)) refl

  -- A node that registers over a secure channel and then streams has its registration accepted, its whole stream acknowledged, and every snapshot stored in the order of sending, with its age at zero, no gateway measurement and the standard assurance level; provided that the control plane has seen neither the next number of the stream nor any of its nonces, the nonces differ, the messages are of that node and arrive in time, and the values of each snapshot are within the bounds of the model, where the node emits it and where the control plane rebuilds it.
  pub register-stream_telemetry :
      (node : SimulatedNode F) (etcd : Etcd F) (sched : TaskScheduler K) (sv : TelemetryService F)
      (s : TelemetryStreamer K) (rs : List (Reception F))
      → s.use_tls ≡ true
      → IsReady node.node_id sv s rs
      → let (result, (etcd', sched')) =
          register_node (channel_identity s node) (registration_request lib s node) (etcd, sched) in
        let (ack, sv') =
          stream_telemetry gateway
            (channel_identity s node)
            (at_times rs (telemetry_generator lib (samples rs) s).0)
            etcd'
            sv in
        (result ≡ registered) × (ack ≡ Ack.success) × (sv'.store ≡ store_all rs sv.store)
  unfolding register_node stream_telemetry registration_request spiffe_of
  register-stream_telemetry node etcd sched sv s rs tls h =
      let id = node.node_id in
      let key = lib.signing.public_pem s.signing_key in
      let authorized = authorize_node-named id in
      let (only, authentic, other) = authorize_node_lem (some (spiffe_of id)) id authorized in
      let member = registered_member id key etcd in
      let identity : channel_identity s node ≡ some (spiffe_of id) = rw tls refl in
      let (ack, stored) =
        receive_all-generator id (State.put (member_key id) key etcd) sv s rs h member in
      rw identity (
        rw authorized
          (rw (same.public_pem-ne-empty s.signing_key) (rw authentic (refl, ack, stored))))
