-- ===== src/Gateway/ControlPlane/Laws.antt =====
-- Registration and telemetry at the control plane: whose key is stored, and which snapshots are.
use distributed_ai_networkin.Prelude.{
  String, ◌≡◌, refl, ap, ◌↔◌, ◌⊎◌, inl, inr, true, false, ◌&&◌, not, Option, none, some, [], arith,
  ◌==◌, if◌then◌else◌, Bool-cases,
}
use distributed_ai_networkin.Telemetry.Replay.Laws.{
  validate_all-replay, validate, Message, validate_all,
}
use distributed_ai_networkin.Prelude.Int.{◌≤ℤ◌}
use distributed_ai_networkin.Gateway.ControlPlane.{
  receive_from, store_snapshot, store_payload, receive_signed, TelemetryService, receive,
  member_key, registered, snapshot_of, TelemetryLibraries, register_node,
}
use distributed_ai_networkin.Telemetry.Replay.{validate_and_record}
use distributed_ai_networkin.Prelude.Dict.{get-put, get-remove}
use distributed_ai_networkin.Contracts.Models.{accepts_snapshot, NodeTelemetrySnapshot}
use distributed_ai_networkin.Security.Identity.{authorize_node}
use distributed_ai_networkin.Scheduler.{TaskScheduler, register_worker}
use distributed_ai_networkin.Contracts.Messages.{
  TelemetryPayload, SignedTelemetryEnvelope, NodeRegistrationRequest,
}
use distributed_ai_networkin.State.{Etcd}
use distributed_ai_networkin.Prelude.Floats.{Floats}
use distributed_ai_networkin.Prelude.Dict
use Prim.Native.String.{◌++◌ as ◌&◌}
use distributed_ai_networkin.State
use distributed_ai_networkin.Telemetry.Store

module _ {F K : Type 0} where
  -- A registration succeeds exactly if the caller's identity is that of the node and a key is given.
  -- Then the store holds the key for the node, the scheduler has its target and no channel to it, and
  -- every other key, target and channel reads as before; otherwise no key, target or channel changes,
  -- nor anything else of the scheduler.
  pub register_node_lem :
      (spiffe_id : Option String) (request : NodeRegistrationRequest) (etcd : Etcd F)
      (s : TaskScheduler K)
      → let (result, (etcd', s')) = register_node spiffe_id request (etcd, s) in
        let ok =
          authorize_node spiffe_id request.node_id && not (request.public_signing_key == "") in
        ((result ≡ registered) ↔ (ok ≡ true))
        × (((key : String)
              → State.get etcd' key ≡ (
                  if ok && (member_key request.node_id == key)
                  then some request.public_signing_key
                  else State.get etcd key))
            × (((node : String)
                  → Dict.get s'.node_targets node ≡ (
                      if ok && (request.node_id == node)
                      then some (request.node_id & ":50051")
                      else Dict.get s.node_targets node))
                × ((node : String)
                    → Dict.get s'.channels node ≡ (
                        if ok && (request.node_id == node) then none else Dict.get s.channels node))
                × ((ok ≡ true) ⊎ (s' ≡ s))))
  unfolding register_node State.put State.get register_worker
  register_node_lem spiffe_id request etcd s = (
    (ground arith, ground arith),
    (
      λ key.
          ground
            (arith, get-put etcd.kv (member_key request.node_id) key request.public_signing_key),
      (
        λ node.
            ground
              (arith, get-put s.node_targets request.node_id node (request.node_id & ":50051")),
        λ node. ground (arith, get-remove s.channels request.node_id node),
        ground arith,
      ),
    ),
  )

module _ {F : Type 0} ⦃fl : Floats F⦄ (lib : TelemetryLibraries F) where
  snapshot_of_sound :
      (env : SignedTelemetryEnvelope F) (p : TelemetryPayload F) (snap : NodeTelemetrySnapshot F)
      → snapshot_of env p ≡ some snap
      → (snap.node_id ≡ env.node_id) × (accepts_snapshot snap ≡ true)
  unfolding snapshot_of
  snapshot_of_sound env p snap h = ground arith

  abbrev pub message_of : SignedTelemetryEnvelope F → Message F
  message_of env = record {
    node_id = env.node_id;
    sequence_number = env.sequence_number;
    nonce = env.nonce;
    timestamp = env.timestamp;
    expires_at = env.expires_at;
  }

  -- What a message has to be for its snapshot to be stored: signed under the key that the store
  -- holds for its node, and not a replay.
  pub record Authentic (now : F) (env : SignedTelemetryEnvelope F) (etcd : Etcd F)
      (s : TelemetryService F) : Type 0 where
    pub pem : String
    pub is_member : State.get etcd (member_key env.node_id) ≡ some pem
    pub is_signed : lib.verify pem env.signature env.payload_json ≡ true
    pub is_fresh :
        (validate_and_record now env.node_id env.sequence_number env.nonce env.timestamp
          env.expires_at s.replay_state).0
        ≡ true

  -- The store after a turn: as it was, or with one snapshot more, which is the message's node's and
  -- within the bounds of its fields, of an authentic message.
  abbrev pub Stored :
      F → SignedTelemetryEnvelope F → Etcd F → TelemetryService F → TelemetryService F → Type 0
  Stored now env etcd s s' =
      (s'.store ≡ s.store)
      ⊎ (Authentic now env etcd s
          × ((snap : NodeTelemetrySnapshot F) × ((snap.node_id ≡ env.node_id)
                × ((accepts_snapshot snap ≡ true)
                    × (s'.store ≡ Store.record_snapshot snap s.store)))))

  store_payload-Stored :
      (now : F) (env : SignedTelemetryEnvelope F) (etcd : Etcd F) (s t : TelemetryService F)
      → Authentic now env etcd s
      → t.store ≡ s.store
      → (p : Option (TelemetryPayload F)) → Stored now env etcd s (store_payload lib env p t).1
  store_payload-Stored now env etcd s t a same none = inl same
  store_payload-Stored now env etcd s t a same (some p) = by_snapshot (snapshot_of env p) refl
    where
      by_snapshot :
          (o : Option (NodeTelemetrySnapshot F))
          → snapshot_of env p ≡ o
          → Stored now env etcd s (store_snapshot lib o t).1
      by_snapshot none e = inl same
      by_snapshot (some snap) e =
          let (mine, bounds) = snapshot_of_sound env p snap e in
          inr (a, (snap, (mine, (bounds, ap (Store.record_snapshot snap) same))))

  receive_signed-Stored :
      (now : F) (pem : String) (env : SignedTelemetryEnvelope F) (etcd : Etcd F)
      (s : TelemetryService F)
      → State.get etcd (member_key env.node_id) ≡ some pem
      → Stored now env etcd s (receive_signed lib now pem env s).1
  receive_signed-Stored now pem env etcd s member =
      let (fresh, replay) =
        validate_and_record now env.node_id env.sequence_number env.nonce env.timestamp
          env.expires_at s.replay_state in
      elim (Bool-cases fresh) [
        | inr stale ↦ rw stale (inl refl)
        | inl e ↦ elim (Bool-cases (lib.verify pem env.signature env.payload_json)) [
          | inr forged ↦ rw (e, forged) (inl refl)
          | inl signed ↦
              rw (e, signed)
                (store_payload-Stored now env etcd s (record s { replay_state = replay })
                  (record { pem = pem; is_member = member; is_signed = signed; is_fresh = e }) refl
                  (lib.load_payload env.payload_json))
        ]
      ]

  receive_from-Stored :
      (now : F) (env : SignedTelemetryEnvelope F) (etcd : Etcd F) (s : TelemetryService F)
      (key : Option String)
      → State.get etcd (member_key env.node_id) ≡ key
      → Stored now env etcd s (receive_from lib now key env s).1
  receive_from-Stored now env etcd s none e = inl refl
  receive_from-Stored now env etcd s (some pem) e = elim (Bool-cases (pem == "")) [
    | inl b ↦ rw b (inl refl)
    | inr b ↦ elim (Bool-cases (lib.loads_pem pem)) [
      | inr c ↦ rw (b, c) (inl refl)
      | inl c ↦ rw (b, c) (receive_signed-Stored now pem env etcd s e)
    ]
  ]

  -- A turn changes the snapshots only for an authentic message, and only by that node's snapshot.
  pub receive-Stored :
      (now : F) (env : SignedTelemetryEnvelope F) (etcd : Etcd F) (s : TelemetryService F)
      → Stored now env etcd s (receive lib now env etcd s).1
  unfolding receive
  receive-Stored now env etcd s =
      receive_from-Stored now env etcd s (State.get etcd (member_key env.node_id)) refl

  receive-stale :
      (now : F) (env : SignedTelemetryEnvelope F) (etcd : Etcd F) (s : TelemetryService F)
      → (validate now (message_of env) s.replay_state).0 ≡ false
      → (receive lib now env etcd s).1.store ≡ s.store
  receive-stale now env etcd s stale = elim (receive-Stored now env etcd s) [
    | inl same ↦ same
    | inr (a, stored) ↦ absurd (ground (arith, stale, a.is_fresh))
  ]

  receive-unsigned :
      (now : F) (env : SignedTelemetryEnvelope F) (etcd : Etcd F) (s : TelemetryService F)
      (pem : String)
      → State.get etcd (member_key env.node_id) ≡ some pem
      → (pem == "") ≡ false
      → lib.loads_pem pem ≡ true
      → lib.verify pem env.signature env.payload_json ≡ false
      → (receive lib now env etcd s).1
        ≡ record s { replay_state = (validate now (message_of env) s.replay_state).1 }
  unfolding receive
  receive-unsigned now env etcd s pem member given loads forged = rw member (
      rw given (
        rw loads (elim (Bool-cases (validate now (message_of env) s.replay_state).0) [
          | inl e ↦ rw (e, forged) refl
          | inr e ↦ rw e refl
        ])))

  -- A message with a signature that does not verify still counts as received: when it passes the
  -- replay check, a later message of its node with the same or a lower sequence number changes
  -- nothing but the replay state, whoever signed it.
  pub receive-forged :
      (now later : F) (env env' : SignedTelemetryEnvelope F) (etcd : Etcd F)
      (s : TelemetryService F) (pem : String)
      → State.get etcd (member_key env.node_id) ≡ some pem
      → (pem == "") ≡ false
      → lib.loads_pem pem ≡ true
      → lib.verify pem env.signature env.payload_json ≡ false
      → (validate now (message_of env) s.replay_state).0 ≡ true
      → env'.node_id ≡ env.node_id
      → env'.sequence_number ≤ℤ env.sequence_number
      → (receive lib later env' etcd (receive lib now env etcd s).1).1.store ≡ s.store
  unfolding validate_all
  receive-forged now later env env' etcd s pem member given loads forged fresh same le =
      let after = receive-unsigned now env etcd s pem member given loads forged in
      rw after (
        receive-stale later env' etcd _ (
          validate_all-replay now later (message_of env) (message_of env') [] s.replay_state fresh
            same le))
