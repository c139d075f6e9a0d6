-- ===== src/NodeAgent/Server.antt =====
-- node_agent/grpc_server.py: `ExecutionServiceServicer.ExecuteTask`, what a node does with a signed
-- task envelope.
pub mod Laws
pub mod Accepts
use distributed_ai_networkin.Prelude.{
  String, Bool, false, ◌&&◌, ◌||◌, not, Option, none, some, [], ◌++◌, ◌==◌, if◌then◌else◌, is_empty,
  or_default,
}
use distributed_ai_networkin.NodeAgent.Worker.{
  node_unavailable, verification_failed, done, execute, InferenceWorker, Outcome,
}
use distributed_ai_networkin.Contracts.Models.{
  failed, rejected, node_class_value, status_value, NodeClass, ExecutionRequest, ExecutionStatus,
}
use distributed_ai_networkin.Prelude.Floats.{literal, Floats, ◌<ᶠ◌}
use distributed_ai_networkin.Security.Identity.{authorize_scheduler}
use distributed_ai_networkin.Contracts.Json.{end, field, Fields}
use distributed_ai_networkin.Security.Envelope.{
  decrypt_envelope, master_kek, encrypt_envelope, PayloadCodec, Aead, Fresh,
}
use distributed_ai_networkin.Security.Algorithms.{
  dual_required, validate_signature_algorithm, load, is_valid, PqcConfig, Environment,
}
use distributed_ai_networkin.Scheduler.{identity_key}
use distributed_ai_networkin.Interfaces.{Bytes}
use distributed_ai_networkin.SupplyChain.{Refusal, Libraries}
use distributed_ai_networkin.Contracts.Messages.{
  ResultPayload, TaskPayload, SignedTaskEnvelope, SignedResultEnvelope,
}
use distributed_ai_networkin.State.{Etcd}
use distributed_ai_networkin.State

-- The status that a call is aborted with.
pub data Abort : Type 0 where
  unauthenticated : Abort
  permission_denied : Abort
  deadline_exceeded : Abort
  failed_precondition : Abort
  internal : Abort

pub data Reply (F : Type 0) : Type 0 where
  aborted : Abort → Reply F
  replied : SignedResultEnvelope F → Reply F

-- What a call uses: the readings of the clock and the random bytes, and the libraries.
pub record ServerLibraries (F K : Type 0) : Type 0 where
  pub libraries : Libraries F K
  pub aead : Aead
  pub tasks : PayloadCodec (TaskPayload F)
  pub results : PayloadCodec (ResultPayload F)
  -- `json.dumps` of an output, the text of an exception, the node's second signature
  pub dump_output : Fields F → String
  pub refusal_text : Refusal → String
  pub unavailable_text : String
  pub pq_sign : Bytes → Bytes

pub record Readings (F : Type 0) : Type 0 where
  pub now : F
  pub start : F
  pub finish : F
  pub issue_time : F
  pub fresh : Fresh

-- The node's key, and whether it has a signer for second signatures.
pub record NodeKeys (K : Type 0) : Type 0 where
  pub signing_key : K
  pub has_pq_signer : Bool

module _ {F : Type 0} where
  abbrev pub rejected_payload :
      ExecutionStatus → String → ExecutionRequest F → NodeClass → F → ResultPayload F
  rejected_payload status error request class zero_time = record {
    status = some (status_value status);
    execution_time_ms = some zero_time;
    output_json = some "";
    error = some error;
    cached = some false;
    idempotency_key = some request.idempotency_key;
    node_class = some (node_class_value class);
    model_digest = some (or_default "" request.model_digest);
  }

  -- `exec_req`
  abbrev pub execution_request : SignedTaskEnvelope F → TaskPayload F → ExecutionRequest F
  execution_request envelope payload = record {
    task_id = envelope.task_id;
    node_id = envelope.node_id;
    model_id = payload.model_id;
    model_digest = payload.model_digest;
    payload_ref = payload.payload_ref;
    idempotency_key = payload.idempotency_key;
    timeout_ms = payload.timeout_ms;
  }

module _ {F K : Type 0} ⦃fl : Floats F⦄ (lib : ServerLibraries F K) where
  -- `if result.output`: an empty object is false
  abbrev pub output_text : Option (Fields F) → String
  output_text none = ""
  output_text (some end) = ""
  output_text (some (field k v rest)) = lib.dump_output (field k v rest)

  unfoldable pub result_payload : ExecutionRequest F → NodeClass → Outcome F → ResultPayload F
  result_payload request class (done r) = record {
    status = some (status_value r.status);
    execution_time_ms = some r.execution_time_ms;
    output_json = some (output_text r.output);
    error = some (or_default "" r.error);
    cached = some r.cached;
    idempotency_key = some r.idempotency_key;
    node_class = some (node_class_value r.node_class);
    model_digest = some (or_default "" r.model_digest);
  }
  result_payload request class (verification_failed why) =
      rejected_payload rejected (lib.refusal_text why) request class (literal 0 0)
  result_payload request class node_unavailable =
      rejected_payload failed lib.unavailable_text request class (literal 0 0)

  -- step 1 of the handler: the signature of the envelope under the published key
  unfoldable pub verify_envelope : PqcConfig → Bool → SignedTaskEnvelope F → Etcd F → Bool
  verify_envelope config oqs envelope etcd =
      is_valid (validate_signature_algorithm config oqs envelope.signature_algorithm)
      && (elim (State.get etcd (identity_key envelope.key_id)) [
        | none ↦ false
        | some pem ↦
            not (pem == "")
            && lib.libraries.signing.verify pem envelope.signature
                (envelope.encrypted_payload ++ envelope.encrypted_dek)
      ])
      && (not (dual_required config)
          || (not (is_empty envelope.pq_signature)
              && is_valid
                  (validate_signature_algorithm config oqs envelope.pq_signature_algorithm)))

  -- step 5: the reply, encrypted and signed
  unfoldable pub signed_reply :
      PqcConfig
      → Readings F
      → NodeKeys K
      → String
      → SignedTaskEnvelope F
      → ResultPayload F
      → SignedResultEnvelope F
  signed_reply config t keys node_id envelope payload =
      let (encrypted, wrapped) = encrypt_envelope lib.aead lib.results t.fresh payload master_kek in
      let pq = dual_required config && keys.has_pq_signer in
      record {
        task_id = envelope.task_id;
        node_id = envelope.node_id;
        issue_time = t.issue_time;
        encrypted_result = encrypted;
        encrypted_dek = wrapped;
        signature_algorithm = "Ed25519";
        key_id = node_id;
        schema_version = "1.1";
        signature = lib.libraries.signing.sign keys.signing_key (encrypted ++ wrapped);
        pq_signature_algorithm = if pq then config.signature else "";
        pq_signature = if pq then lib.pq_sign (encrypted ++ wrapped) else [];
      }

  abbrev pub run_task :
      PqcConfig
      → Readings F
      → NodeKeys K
      → SignedTaskEnvelope F
      → Etcd F
      → InferenceWorker F
      → Option (TaskPayload F)
      → Reply F × InferenceWorker F
  run_task config t keys envelope etcd w none = (aborted internal, w)
  run_task config t keys envelope etcd w (some payload) =
      let request = execution_request envelope payload in
      let (outcome, w') = execute lib.libraries t.start t.finish request etcd w in
      (
        replied (
            signed_reply config t keys w.node.node_id envelope
              (result_payload request w.node.node_class outcome)),
        w',
      )

  unfoldable pub execute_task :
      Option String
      → Environment
      → Bool
      → Readings F
      → NodeKeys K
      → SignedTaskEnvelope F
      → Etcd F × InferenceWorker F
      → Reply F × (Etcd F × InferenceWorker F)
  execute_task spiffe_id env oqs t keys envelope (etcd, w) =
      let config = load env in
      let (leased, etcd') = State.is_lease_valid t.now envelope.leader_lease_id etcd in
      let (reply, w') = run_task config t keys envelope etcd' w (
        decrypt_envelope lib.aead lib.tasks envelope.encrypted_payload envelope.encrypted_dek
          master_kek) in
      if not (authorize_scheduler spiffe_id)
      then (aborted unauthenticated, (etcd, w))
      else if not (verify_envelope config oqs envelope etcd)
      then (aborted permission_denied, (etcd, w))
      else if envelope.expires_at <ᶠ t.now
      then (aborted deadline_exceeded, (etcd, w))
      else if not leased
      then (aborted failed_precondition, (etcd', w))
      else (reply, (etcd', w'))
