-- ===== src/Tests/Handover.antt =====
-- Envelopes and credentials between two processes at concrete inputs.
use distributed_ai_networkin.Security.Authority.{CaLibraries, SecretFiles}
use distributed_ai_networkin.Interfaces.{Bytes}
use distributed_ai_networkin.Prelude.{
  ℕ, ◌+◌, String, ◌≡◌, refl, Bool, true, false, Option, none, some, [], ◌∷◌, eqb,
}
use distributed_ai_networkin.Tests.Pickles.{
  payload_codec_laws, numbers, options, strings, pairs, payload_codec, through, Pickle,
}
use distributed_ai_networkin.Tests.Instances.{aead_laws, signing_laws, aead, micros}
use distributed_ai_networkin.NodeAgent.Server.Accepts.{execute_task-task_envelope, SameLibraries}
use distributed_ai_networkin.NodeAgent.Server.{
  result_payload, signed_reply, replied, execute_task, execution_request, ServerLibraries,
}
use distributed_ai_networkin.Tests.Execution.{
  node_keys, scheduler_identity, readings, scheduler, dispatch_libraries, server_libraries,
}
use distributed_ai_networkin.Tests.Artifacts.{environment, libraries, worker, registry, digest_1}
use distributed_ai_networkin.NodeAgent.Worker.{execute}
use distributed_ai_networkin.Scheduler.Attempt.{task_payload, task_envelope, DispatchLibraries}
use distributed_ai_networkin.Tests.Placement.{task}
use distributed_ai_networkin.Scheduler.{identity_key}
use distributed_ai_networkin.Security.Identity.{authorize_scheduler}
use distributed_ai_networkin.Security.Algorithms.{load}
use distributed_ai_networkin.Contracts.Messages.{TaskPayload}
use distributed_ai_networkin.State
use distributed_ai_networkin.Prelude.Dict
use Prim.Native.String.{◌++◌ as ◌&◌}

abbrev TaskRow : Type 0
TaskRow = String × (Option String × (String × (String × ℕ)))

abbrev task_row : TaskPayload ℕ → TaskRow
task_row p = (p.model_id, (p.model_digest, (p.payload_ref, (p.idempotency_key, p.timeout_ms))))

abbrev row_task : TaskRow → TaskPayload ℕ
row_task (model, (digest, (ref, (key, timeout)))) = record {
  model_id = model;
  model_digest = digest;
  payload_ref = ref;
  idempotency_key = key;
  timeout_ms = timeout;
}

abbrev tasks : Pickle (TaskPayload ℕ)
tasks =
    through task_row row_task (λ p. refl)
      (pairs strings (pairs (options strings) (pairs strings (pairs strings numbers))))

abbrev sender : DispatchLibraries ℕ ℕ ℕ
sender = record dispatch_libraries { tasks = payload_codec tasks }

abbrev node_libraries : ServerLibraries ℕ ℕ
node_libraries = record server_libraries {
  libraries = libraries;
  aead = aead;
  tasks = payload_codec tasks;
}

same_libraries : SameLibraries sender node_libraries
same_libraries = record { same_signing = refl; same_aead = refl; same_tasks = refl }

execute_task-task_envelope_example :
    let sent = task_envelope sender scheduler task "edge-1" (some digest_1) 1000000 in
    let etcd' = (State.is_lease_valid 2000000 1 registry).1 in
    let request = execution_request sent (task_payload sender task (some digest_1)) in
    let (outcome, w') =
      execute node_libraries.libraries readings.start readings.finish request etcd' worker in
    execute_task node_libraries scheduler_identity environment false readings node_keys sent
      (registry, worker)
    ≡ (
      replied (
          signed_reply node_libraries
            (load environment)
            readings
            node_keys
            worker.node.node_id
            sent
            (result_payload node_libraries request worker.node.node_class outcome)),
      (etcd', w'),
    )
unfolding load authorize_scheduler State.get Dict.get State.is_lease_valid micros task_envelope
    identity_key
execute_task-task_envelope_example =
    execute_task-task_envelope sender node_libraries signing_laws aead_laws
      (payload_codec_laws tasks) same_libraries scheduler_identity environment false readings
      node_keys scheduler task "edge-1" (some digest_1) 1000000 registry worker refl refl refl refl
      refl refl refl

abbrev began : ℕ
began = 1000000

abbrev no_files : SecretFiles
no_files = record { key_file = none; cert_file = none }

-- a certificate has the number after its key's
abbrev follows : Bytes → Bytes → Bool
follows [] cert = false
follows (k ∷ key) [] = false
follows (k ∷ key) (c ∷ cert) = eqb (k + 1) c

abbrev pub authority : CaLibraries
authority = record {
  loads_key = λ key. true;
  subject_of = λ cert. some "ca";
  accepts_name = λ name. true;
  matches = follows;
}

-- the pair that the first call generates
abbrev generated : Bytes × Bytes
generated = (1 ∷ [], 2 ∷ [])

abbrev master : String
master = "spiffe://distributed-ai.local/gateway/master"

abbrev edge : String
edge = "spiffe://distributed-ai.local/node/edge-1"
