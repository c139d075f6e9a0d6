-- ===== src/Audit/Aggregator.antt =====
-- results_aggregator/aggregator.py: `ResultsAggregator`, whose one field is its ledger.
use distributed_ai_networkin.Prelude.{ℕ, String, Bool, false, Option, none, some, List}
use distributed_ai_networkin.Audit.Ledger.{append, get_all, TamperEvidentLedger, LedgerLibraries}
use distributed_ai_networkin.Contracts.Models.{
  node_class_value, status_value, AuditEvent, ExecutionResult, PlacementDecision,
}
use distributed_ai_networkin.State.{Etcd}
use distributed_ai_networkin.Prelude.Dict.{Dict}
use distributed_ai_networkin.Contracts.Json.{Json, Fields}
use distributed_ai_networkin.Contracts.Json

-- The answer to a client.
pub record ResponsePayload (F : Type 0) : Type 0 where
  pub task_id : String
  pub status : String
  pub prediction : Option (Json F)
  pub confidence : Option (Json F)
  pub executed_node : String
  pub node_class : String
  pub execution_time_ms : F
  pub decision_overhead_ms : F
  pub model_digest : Option String
  pub fallback_activated : Bool
  pub attempts : ℕ
  pub audit_event_id : String
  pub cached : Bool
  pub chosen_score : F
  pub runner_up_node : Option String
  pub runner_up_score : Option F
  pub weights_used : Dict F
  pub fallback_chain : List String

module _ {F : Type 0} where
  -- `execution.output.get(k) if execution.output else None`
  abbrev pub output_field : String → Option (Fields F) → Option (Json F)
  output_field k none = none
  output_field k (some fields) = Json.get fields k

  unfoldable pub audit_record :
      String
      → F
      → PlacementDecision F
      → ExecutionResult F
      → Bool
      → ℕ
      → Option F
      → String
      → AuditEvent F
  audit_record event_id now decision execution activated attempts rtt task_id = record {
    event_id = event_id;
    schema_version = "1.0";
    task_id = task_id;
    model_digest = execution.model_digest;
    timestamp = now;
    decision = decision;
    execution = execution;
    fallback_activated = activated;
    attempts = attempts;
    gateway_rtt_observed_ms = rtt;
    is_shadow_mode = false;
    previous_event_hash = "";
    event_hash = "";
  }

module _ {F K : Type 0} where
  -- `aggregate`, with the identifier and the time of the new event
  unfoldable pub aggregate :
      LedgerLibraries F K
      → String
      → F
      → PlacementDecision F
      → ExecutionResult F
      → Bool
      → ℕ
      → Option F
      → String
      → TamperEvidentLedger K × Etcd F
      → ResponsePayload F × (TamperEvidentLedger K × Etcd F)
  aggregate lib event_id now decision execution activated attempts rtt task_id (l, etcd) = (
    record {
      task_id = task_id;
      status = status_value execution.status;
      prediction = output_field "prediction" execution.output;
      confidence = output_field "confidence" execution.output;
      executed_node = execution.node_id;
      node_class = node_class_value execution.node_class;
      execution_time_ms = execution.execution_time_ms;
      decision_overhead_ms = decision.decision_latency_ms;
      model_digest = execution.model_digest;
      fallback_activated = activated;
      attempts = attempts;
      audit_event_id = event_id;
      cached = execution.cached;
      chosen_score = decision.chosen_score;
      runner_up_node = decision.runner_up_node;
      runner_up_score = decision.runner_up_score;
      weights_used = decision.weights_used;
      fallback_chain = decision.fallback_chain;
    },
    append lib (audit_record event_id now decision execution activated attempts rtt task_id) l etcd,
  )

  -- `get_audit_trail`
  abbrev pub get_audit_trail :
      LedgerLibraries F K → Option String → TamperEvidentLedger K → Option (List (AuditEvent F))
  get_audit_trail lib task_id l = get_all lib task_id l
