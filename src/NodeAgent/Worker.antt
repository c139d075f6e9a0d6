-- ===== src/NodeAgent/Worker.antt =====
-- node_agent/worker.py: `InferenceWorker`. A call takes the readings of `perf_counter` around the
-- simulated computation; the store is read by the verification and not changed.
pub mod Laws
use distributed_ai_networkin.Prelude.{String, true, false, ◌||◌, none, some, if◌then◌else◌}
use distributed_ai_networkin.SupplyChain.{
  ok, refuse, verify_artifact_for_execution, Result, Refusal, Libraries,
}
use distributed_ai_networkin.Contracts.Json.{texts, arr, end, obj, num, text, field, Fields}
use distributed_ai_networkin.Contracts.Models.{
  node_class_value, success, ApprovedArtifactRecord, ExecutionRequest, ExecutionResult,
}
use distributed_ai_networkin.Prelude.Floats.{literal, Floats}
use distributed_ai_networkin.State.{Etcd}
use distributed_ai_networkin.Prelude.Dict.{Dict}
use distributed_ai_networkin.NodeAgent.Node.{SimulatedNode}
use distributed_ai_networkin.Prelude.Dict

pub record InferenceWorker (F : Type 0) : Type 0 where
  pub node : SimulatedNode F
  pub processed_idempotency_keys : Dict (ExecutionResult F)

-- What a call returns, or the exception that it raises.
pub data Outcome (F : Type 0) : Type 0 where
  done : ExecutionResult F → Outcome F
  node_unavailable : Outcome F
  verification_failed : Refusal → Outcome F

module _ {F : Type 0} ⦃fl : Floats F⦄ where
  -- `output_payload`
  unfoldable pub output_payload : SimulatedNode F → ExecutionRequest F → String → F → Fields F
  output_payload node request digest duration = field "model" (text request.model_id) (
      field "model_digest" (text digest) (
        field "prediction" (text "classified_defect_none") (
          field "confidence" (num (literal 984 3)) (
            field "latency_breakdown"
              (obj (
                field "compute_ms" (num (fl.round duration 2)) (
                  field "queue_ms"
                    (num (fl.round (fl.mul (literal node.queue_depth 0) (literal 25 1)) 2)) end)))
              (field "node_metadata"
                (obj (
                  field "node_id" (text node.node_id) (
                    field "node_class" (text (node_class_value node.node_class)) (
                      field "residency" (arr (texts node.data_residency_zones))
                        (field "model_digest" (text digest) end)))))
                end)))))

  unfoldable pub executed :
      F → F → SimulatedNode F → ExecutionRequest F → String → ExecutionResult F
  executed start finish node request digest =
      let duration = fl.mul (fl.sub finish start) (literal 1000 0) in
      record {
        task_id = request.task_id;
        node_id = node.node_id;
        node_class = node.node_class;
        status = success;
        execution_time_ms = fl.round duration 2;
        model_digest = some digest;
        output = some (output_payload node request digest duration);
        error = none;
        cached = false;
        idempotency_key = request.idempotency_key;
      }

  module _ {K : Type 0} (lib : Libraries F K) where
    abbrev run_model :
        F
        → F
        → ExecutionRequest F
        → InferenceWorker F
        → Result (ApprovedArtifactRecord F)
        → Outcome F × InferenceWorker F
    run_model start finish request w (refuse why) = (verification_failed why, w)
    run_model start finish request w (ok approved) =
        let result = executed start finish w.node request approved.digest in
        (
          done result,
          record w {
            processed_idempotency_keys =
                Dict.put w.processed_idempotency_keys request.idempotency_key result;
          },
        )

    abbrev first_time :
        F → F → ExecutionRequest F → Etcd F → InferenceWorker F → Outcome F × InferenceWorker F
    first_time start finish request etcd w =
        if w.node.is_offline || w.node.fail_execution
        then (node_unavailable, w)
        else run_model start finish request w
            (verify_artifact_for_execution lib request.model_id request.model_digest etcd)

    unfoldable pub execute :
        F → F → ExecutionRequest F → Etcd F → InferenceWorker F → Outcome F × InferenceWorker F
    execute start finish request etcd w =
        elim (Dict.get w.processed_idempotency_keys request.idempotency_key) [
          | some cached_result ↦ (done (record cached_result { cached = true }), w)
          | none ↦ first_time start finish request etcd w
        ]
