-- ===== src/Scheduler/Attempt.antt =====
-- scheduler/dispatcher.py: one turn of the loop of `TaskScheduler.dispatch`, for one candidate.
use distributed_ai_networkin.Contracts.Models.{
  status_of, ExecutionStatus, node_class_of, ExecutionResult, NodeClass, TaskRequest,
}
use distributed_ai_networkin.Security.Algorithms.{
  dual_required, validate_signature_algorithm, is_valid,
}
use distributed_ai_networkin.Security.Envelope.{
  master_kek, decrypt_envelope, encrypt_envelope, PayloadCodec, Aead, Fresh,
}
use distributed_ai_networkin.Interfaces.{Bytes, Signing}
use distributed_ai_networkin.Prelude.Floats.{literal, Floats}
use distributed_ai_networkin.Scheduler.{get_stub, TaskScheduler}
use distributed_ai_networkin.State.{Etcd}
use distributed_ai_networkin.Contracts.Messages.{
  SignedTaskEnvelope, TaskPayload, SignedResultEnvelope, ResultPayload,
}
use distributed_ai_networkin.Contracts.Json.{Fields}
use distributed_ai_networkin.Prelude.{
  String, Bool, false, ◌&&◌, ◌||◌, not, Option, none, some, [], ◌++◌, ◌==◌, if◌then◌else◌, is_empty,
  or_default,
}
use Prim.Native.String.{◌++◌ as ◌&◌}
use distributed_ai_networkin.State

-- What a dispatch calls: the clock, the random bytes, the workers over gRPC, and the libraries. The
-- workers share the store, so a call takes it and returns it; `W` is the rest of the world.
pub record DispatchLibraries (F K W : Type 0) : Type 0 where
  pub clock : W → F
  pub fresh : W → Fresh
  pub signing : Signing K
  pub aead : Aead
  pub tasks : PayloadCodec (TaskPayload F)
  pub results : PayloadCodec (ResultPayload F)
  -- `ExecuteTask` at a target with a timeout; `none` is an RpcError
  pub execute_task :
      String
      → F
      → SignedTaskEnvelope F
      → Etcd F × W
      → Option (SignedResultEnvelope F) × (Etcd F × W)
  -- `json.loads(raw).get("digest")`; `none` is an exception
  pub load_digest : String → Option (Option String)
  -- `json.loads` of an output; `none` is an exception
  pub load_output : String → Option (Fields F)
  pub pq_sign : Bytes → Bytes

-- A text that Python takes for true.
abbrev pub given : Option String → Bool
given none = false
given (some s) = not (s == "")

module _ {F K W : Type 0} ⦃fl : Floats F⦄ (lib : DispatchLibraries F K W) where
  -- the digest of the task, or else that of the approved record of its model
  unfoldable pub resolve_digest : TaskRequest F → Etcd F → Option String
  resolve_digest task etcd =
      if given task.model_digest
      then task.model_digest
      else elim (State.get etcd ("/distributed-ai/artifacts/models/" & task.model_id)) [
        | none ↦ task.model_digest
        | some raw ↦
            if raw == ""
            then task.model_digest
            else or_default task.model_digest (lib.load_digest raw)
      ]

  unfoldable pub task_payload : TaskRequest F → Option String → TaskPayload F
  task_payload task digest = record {
    model_id = task.model_id;
    model_digest = digest;
    payload_ref = task.payload_ref;
    idempotency_key = task.idempotency_key;
    timeout_ms = task.max_latency_ms;
  }

  unfoldable pub task_envelope :
      TaskScheduler K → TaskRequest F → String → Option String → W → SignedTaskEnvelope F
  task_envelope s task node digest w =
      let now = lib.clock w in
      let (encrypted, wrapped) =
        encrypt_envelope lib.aead lib.tasks (lib.fresh w) (task_payload task digest) master_kek in
      let pq = dual_required s.pqc_config && s.oqs_available in
      record {
        task_id = task.task_id;
        node_id = node;
        cluster_epoch = 1;
        leader_lease_id = s.lease_id;
        issue_time = now;
        expires_at =
            fl.add (fl.add now (fl.div task.max_latency_ms (literal 1000 0))) (literal 10 0);
        encrypted_payload = encrypted;
        encrypted_dek = wrapped;
        signature_algorithm = "Ed25519";
        key_id = s.scheduler_id;
        schema_version = "1.1";
        signature = lib.signing.sign s.signing_key (encrypted ++ wrapped);
        pq_signature_algorithm = if pq then s.pqc_config.signature else "";
        pq_signature = if pq then lib.pq_sign (encrypted ++ wrapped) else [];
      }

  -- the signatures that the reply names are allowed, and it has a second one if two are required
  unfoldable pub allowed_reply : TaskScheduler K → SignedResultEnvelope F → Bool
  allowed_reply s reply =
      is_valid (validate_signature_algorithm s.pqc_config s.oqs_available reply.signature_algorithm)
      && (not (dual_required s.pqc_config)
          || (not (is_empty reply.pq_signature)
              && is_valid (
                  validate_signature_algorithm s.pqc_config s.oqs_available
                    reply.pq_signature_algorithm)))

  -- `none` is an exception of `json.loads`
  abbrev pub output_of : Option String → Option (Option (Fields F))
  output_of none = some none
  output_of (some raw) =
      if raw == ""
      then some none
      else elim (lib.load_output raw) [ none ↦ none | some output ↦ some (some output) ]

  abbrev pub build_result :
      SignedResultEnvelope F
      → ResultPayload F
      → Option String
      → Option NodeClass
      → Option ExecutionStatus
      → Option (Option (Fields F))
      → Option (ExecutionResult F)
  build_result reply p digest (some class) (some status) (some output) = some (record {
    task_id = reply.task_id;
    node_id = reply.node_id;
    node_class = class;
    status = status;
    execution_time_ms = or_default (literal 0 0) p.execution_time_ms;
    model_digest = if given p.model_digest then p.model_digest else digest;
    output = output;
    error = p.error;
    cached = or_default false p.cached;
    idempotency_key = or_default "" p.idempotency_key;
  })
  build_result reply p digest none status output = none
  build_result reply p digest (some class) none output = none
  build_result reply p digest (some class) (some status) none = none

  -- a payload that says "failed" or "rejected" raises NodeUnavailableError
  abbrev pub refused : ResultPayload F → Bool
  refused p =
      (or_default "success" p.status == "failed") || (or_default "success" p.status == "rejected")

  unfoldable pub read_payload :
      SignedResultEnvelope F → Option String → ResultPayload F → Option (ExecutionResult F)
  read_payload reply digest p =
      if refused p
      then none
      else build_result reply p digest (node_class_of (or_default "edge" p.node_class))
          (status_of (or_default "success" p.status)) (output_of p.output_json)

  -- `none` where the loop goes on to the next candidate
  unfoldable pub read_reply :
      TaskScheduler K → Option String → SignedResultEnvelope F → Option (ExecutionResult F)
  read_reply s digest reply =
      if not (allowed_reply s reply)
      then none
      else elim (decrypt_envelope lib.aead lib.results reply.encrypted_result reply.encrypted_dek
          master_kek) [ none ↦ none | some p ↦ read_payload reply digest p ]

  -- the call and the reply
  abbrev pub call_worker :
      TaskRequest F
      → String
      → Option String
      → TaskScheduler K
      → Etcd F × W
      → Option (ExecutionResult F) × (TaskScheduler K × (Etcd F × W))
  call_worker task node none s world = (none, (s, world))
  call_worker task node (some target) s world =
      let digest = resolve_digest task world.0 in
      let (reply, world') =
        lib.execute_task target (fl.div task.max_latency_ms (literal 1000 0))
          (task_envelope s task node digest world.1) world in
      (elim reply [ none ↦ none | some r ↦ read_reply s digest r ], (s, world'))

  unfoldable pub attempt :
      TaskRequest F
      → String
      → TaskScheduler K × (Etcd F × W)
      → Option (ExecutionResult F) × (TaskScheduler K × (Etcd F × W))
  attempt task node (s, world) =
      let (target, s') = get_stub node s in call_worker task node target s' world
