-- ===== src/Tests/Gate.antt =====
-- The gateway at a concrete input: no candidates, so that the static policy places the task.
use distributed_ai_networkin.Gateway.App.{
  evaluated, Succeeded, submit_inference_task-response, record_shadow, choose_decision,
  RequestReadings, submit_inference_task, Services, AppState,
}
use distributed_ai_networkin.Scheduler.Dispatch.{
  Dispatched, try_candidates, confirm_leader, dispatch,
}
use distributed_ai_networkin.Prelude.{ℕ, refl, true, false, none, [], ◌∷◌}
use distributed_ai_networkin.Decision.Filter.{filter_from, filter_candidates}
use distributed_ai_networkin.Contracts.Weights.{default_profile, get_sla_weights, weights_to_dict}
use distributed_ai_networkin.Scheduler.Attempt.{
  resolve_digest, allowed_reply, read_payload, read_reply, attempt,
}
use distributed_ai_networkin.Contracts.Models.{
  status_of, node_class_of, node_class_value, status_value, interactive,
}
use distributed_ai_networkin.Security.Algorithms.{validate_signature_algorithm}
use distributed_ai_networkin.Security.Envelope.{decrypt_envelope}
use distributed_ai_networkin.Scheduler.{get_stub}
use distributed_ai_networkin.Scheduler.Chain.{add_missing, candidate_chain}
use distributed_ai_networkin.Audit.Aggregator.{aggregate, ResponsePayload}
use distributed_ai_networkin.Decision.Engine.{
  evaluate_placement, static_chain, get_static_fallback_decision,
}
use distributed_ai_networkin.Prelude.Dict
use distributed_ai_networkin.Tests.Instances.{micros}
use distributed_ai_networkin.Tests.Placement.{task, engine}
use distributed_ai_networkin.Tests.Log.{ledger_libraries, ledger}
use distributed_ai_networkin.Tests.Execution.{dispatch_libraries, world, completed_result}
use distributed_ai_networkin.Telemetry.Store.{TelemetryStore, get_all_snapshots}
use distributed_ai_networkin.State

abbrev app : AppState
app = record { decision_engine_enabled = true; shadow_mode_enabled = false }

abbrev times : RequestReadings ℕ
times = record {
  start = 0;
  finish = 1000;
  audit_time = 2000000;
  event_id = "e1";
  shadow_event_id = "e2";
}

abbrev services : Services ℕ ℕ
services = record {
  engine = record engine {
    static_policy = record { default_fallback_chain = "edge-1" ∷ []; residency_overrides = [] };
  };
  ledger = ledger;
}

abbrev no_snapshots : TelemetryStore ℕ
no_snapshots = record { snapshots = []; staleness_threshold_ms = 3000000000 }

abbrev answered : ResponsePayload ℕ
answered = record {
  task_id = "t1";
  status = "success";
  prediction = none;
  confidence = none;
  executed_node = "edge-1";
  node_class = "edge";
  execution_time_ms = 5000;
  decision_overhead_ms = 1000000;
  model_digest = completed_result.model_digest;
  fallback_activated = false;
  attempts = 1;
  audit_event_id = "e1";
  cached = false;
  chosen_score = 1000000;
  runner_up_node = none;
  runner_up_score = none;
  weights_used = weights_to_dict (get_sla_weights interactive (λ c. none));
  fallback_chain = "edge-1" ∷ [];
}

-- the dispatch of the task
abbrev task_dispatch : Dispatched ℕ
task_dispatch =
    let (shadow, e) =
      evaluated dispatch_libraries ledger_libraries
        (evaluate_placement times.start times.finish task (get_all_snapshots no_snapshots) none
          services.engine)
        services.engine in
    let decision = choose_decision dispatch_libraries ledger_libraries app times task e shadow in
    let (l, etcd) =
      record_shadow dispatch_libraries ledger_libraries app times task shadow
        (services.ledger, world.1.0) in
    (dispatch dispatch_libraries task decision (world.0, (etcd, world.1.1))).0

submit_inference_task-response_example :
    Succeeded dispatch_libraries ledger_libraries task task_dispatch answered
unfolding submit_inference_task choose_decision get_static_fallback_decision static_chain
    record_shadow evaluate_placement filter_candidates filter_from get_all_snapshots aggregate
    status_value node_class_value dispatch confirm_leader State.is_lease_valid candidate_chain
    add_missing try_candidates attempt get_stub Dict.get Dict.put read_reply read_payload
    allowed_reply decrypt_envelope validate_signature_algorithm node_class_of status_of
    resolve_digest State.get micros weights_to_dict get_sla_weights default_profile
submit_inference_task-response_example =
    submit_inference_task-response dispatch_libraries ledger_libraries app times task no_snapshots
      services world answered refl
