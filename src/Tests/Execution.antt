-- ===== src/Tests/Execution.antt =====
-- Dispatch and execution at concrete inputs.
use distributed_ai_networkin.Prelude.{
  ℕ, ◌≤◌, String, ◌≡◌, refl, ◌⊎◌, true, false, ◌&&◌, not, Option, none, some, [], ◌∷◌, ◌==◌, ltb,
  if◌then◌else◌, is_some, length,
}
use distributed_ai_networkin.Scheduler.Dispatch.{try_candidates, confirm_leader, dispatch}
use distributed_ai_networkin.Scheduler.Attempt.{
  task_payload, resolve_digest, allowed_reply, read_payload, read_reply, attempt, DispatchLibraries,
}
use distributed_ai_networkin.Scheduler.Dispatch.Laws.{leads}
use distributed_ai_networkin.Scheduler.Dispatch.Returns.{dispatch-completed}
use distributed_ai_networkin.Contracts.Models.{
  status_of, node_class_of, success, edge, PlacementDecision, ExecutionResult,
}
use distributed_ai_networkin.Security.Algorithms.{validate_signature_algorithm, load}
use distributed_ai_networkin.NodeAgent.Server.Laws.{execute_task_lem, is_replied}
use distributed_ai_networkin.Security.Envelope.{master_kek, decrypt_envelope}
use distributed_ai_networkin.Scheduler.{get_stub, TaskScheduler}
use distributed_ai_networkin.NodeAgent.Server.{
  verify_envelope, execute_task, Readings, ServerLibraries, NodeKeys,
}
use distributed_ai_networkin.Security.Identity.{authorize_scheduler}
use distributed_ai_networkin.Scheduler.Chain.{add_missing, candidate_chain}
use distributed_ai_networkin.State.{Etcd}
use distributed_ai_networkin.Contracts.Messages.{
  SignedTaskEnvelope, SignedResultEnvelope, ResultPayload,
}
use distributed_ai_networkin.Prelude.Dict
use distributed_ai_networkin.Tests.Instances.{micros, signing, aead, fresh}
use distributed_ai_networkin.Tests.Placement.{task}
use distributed_ai_networkin.Tests.Artifacts.{digest_1, libraries, registry, environment, worker}
use distributed_ai_networkin.Tests.Stores.{classical}
use distributed_ai_networkin.State

abbrev result : ResultPayload ℕ
result = record {
  status = some "success";
  execution_time_ms = some 5000;
  output_json = some "";
  error = some "";
  cached = some false;
  idempotency_key = some "k1";
  node_class = some "edge";
  model_digest = some digest_1;
}

abbrev reply : SignedResultEnvelope ℕ
reply = record {
  task_id = "t1";
  node_id = "edge-1";
  issue_time = 2000000;
  encrypted_result = [];
  encrypted_dek = [];
  signature_algorithm = "Ed25519";
  key_id = "edge-1";
  schema_version = "1.1";
  signature = [];
  pq_signature_algorithm = "";
  pq_signature = [];
}

-- a world in which the worker at one target replies and all others fail
abbrev pub dispatch_libraries : DispatchLibraries ℕ ℕ ℕ
dispatch_libraries = record {
  clock = λ w. w;
  fresh = λ w. fresh;
  signing = signing;
  aead = aead;
  tasks = record { dumps = λ p. []; loads = λ b. none };
  results = record { dumps = λ p. []; loads = λ b. some result };
  execute_task = λ target timeout envelope world.
      (if target == "edge-1:50051" then some reply else none, world);
  load_digest = λ raw. none;
  load_output = λ raw. none;
  pq_sign = λ m. m;
}

abbrev pub scheduler : TaskScheduler ℕ
scheduler = record {
  node_targets = ("cloud-1", "cloud-1:50051") ∷ ("edge-1", "edge-1:50051") ∷ [];
  channels = [];
  scheduler_id = "s1";
  lease_id = 1;
  is_leader = true;
  signing_key = 1;
  pqc_config = classical;
  oqs_available = false;
}

abbrev pub decision : PlacementDecision ℕ
decision = record {
  task_id = "t1";
  chosen_node = "cloud-1";
  chosen_score = 100000;
  runner_up_node = some "edge-1";
  runner_up_score = some 200000;
  weights_used = [];
  decision_latency_ms = 100;
  fallback_chain = "cloud-1" ∷ "edge-1" ∷ [];
  filtered_out_nodes = [];
  used_fallback_policy = false;
}

abbrev pub world : TaskScheduler ℕ × (Etcd ℕ × ℕ)
world = (scheduler, (registry, 1000000))

abbrev pub completed_result : ExecutionResult ℕ
completed_result = record {
  task_id = "t1";
  node_id = "edge-1";
  node_class = edge;
  status = success;
  execution_time_ms = 5000;
  model_digest = some digest_1;
  output = none;
  error = some "";
  cached = false;
  idempotency_key = "k1";
}

dispatch-completed_example :
    (leads dispatch_libraries task world ≡ true)
    × ((completed_result.status ≡ success)
        × ((1 ≤ 2)
            × ((2 ≤ length (candidate_chain "cloud-1" ("cloud-1" ∷ "edge-1" ∷ [])))
                × (true ≡ ltb 1 2))))
unfolding dispatch confirm_leader State.is_lease_valid candidate_chain add_missing try_candidates
    attempt get_stub Dict.get Dict.put read_reply read_payload allowed_reply decrypt_envelope
    validate_signature_algorithm node_class_of status_of resolve_digest State.get micros
dispatch-completed_example =
    dispatch-completed dispatch_libraries task decision world completed_result true 2 refl

abbrev pub server_libraries : ServerLibraries ℕ ℕ
server_libraries = record {
  libraries = libraries;
  aead = aead;
  tasks = record {
    dumps = λ p. [];
    loads = λ b. some (task_payload dispatch_libraries task (some digest_1));
  };
  results = record { dumps = λ p. []; loads = λ b. some result };
  dump_output = λ o. "{}";
  refusal_text = λ r. "refused";
  unavailable_text = "offline";
  pq_sign = λ m. m;
}

abbrev pub readings : Readings ℕ
readings = record { now = 2000000; start = 0; finish = 5000; issue_time = 2000000; fresh = fresh }

abbrev pub node_keys : NodeKeys ℕ
node_keys = record { signing_key = 2; has_pq_signer = false }

abbrev pub scheduler_identity : Option String
scheduler_identity = some "spiffe://distributed-ai.local/scheduler/master"

abbrev envelope : SignedTaskEnvelope ℕ
envelope = record {
  task_id = "t1";
  node_id = "edge-1";
  cluster_epoch = 1;
  leader_lease_id = 1;
  issue_time = 1000000;
  expires_at = 9000000;
  encrypted_payload = 1 ∷ [];
  encrypted_dek = 2 ∷ [];
  signature_algorithm = "Ed25519";
  key_id = "s1";
  schema_version = "1.1";
  signature = 1 ∷ 2 ∷ [];
  pq_signature_algorithm = "";
  pq_signature = [];
}

execute_task_lem_example :
    let (r, (etcd', w')) =
      execute_task server_libraries scheduler_identity environment false readings node_keys envelope
        (registry, worker) in
    (is_replied r ≡ (
      authorize_scheduler scheduler_identity
      && verify_envelope server_libraries (load environment) false envelope registry
      && not (micros.lt 9000000 2000000)
      && (State.is_lease_valid 2000000 1 registry).0
      && is_some (decrypt_envelope aead server_libraries.tasks (1 ∷ []) (2 ∷ []) master_kek)))
    × ((is_replied r ≡ true) ⊎ (w' ≡ worker))
execute_task_lem_example =
    execute_task_lem server_libraries scheduler_identity environment false readings node_keys
      envelope registry worker
