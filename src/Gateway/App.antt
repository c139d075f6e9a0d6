-- ===== src/Gateway/App.antt =====
-- gateway/app.py: the gateway. A handler takes the state that it uses and returns the new one.
use distributed_ai_networkin.Audit.Aggregator.{
  output_field, aggregate, audit_record, ResponsePayload,
}
use distributed_ai_networkin.Contracts.Models.{
  ExecutionResult, status_value, success, edge, AuditEvent, TaskRequest, PlacementDecision,
}
use distributed_ai_networkin.Prelude.{
  ℕ, ◌≤◌, String, ◌≡◌, refl, sym, ap, Bool, true, false, not, Option, none, some, List, arith, ◌==◌,
  ltb, if◌then◌else◌, or_default,
}
use distributed_ai_networkin.Scheduler.Dispatch.Returns.{dispatch-completed}
use distributed_ai_networkin.Scheduler.Dispatch.{
  not_leader, fallback_exhausted, dispatch, completed, Dispatched,
}
use distributed_ai_networkin.Contracts.Json.{end}
use distributed_ai_networkin.Prelude.Floats.{literal, Floats}
use distributed_ai_networkin.Telemetry.Store.{get_all_snapshots, TelemetryStore}
use distributed_ai_networkin.Decision.Engine.{
  evaluate_placement, get_static_fallback_decision, DecisionEngine,
}
use distributed_ai_networkin.Audit.Ledger.{append, LedgerLibraries, TamperEvidentLedger}
use distributed_ai_networkin.Scheduler.{TaskScheduler}
use distributed_ai_networkin.State.{Etcd}
use distributed_ai_networkin.Scheduler.Attempt.{DispatchLibraries}

-- What a request with a token ends in, before its handler runs.
pub data Access : Type 0 where
  granted not_configured unauthorized : Access

-- `verify_gateway_token`, with GATEWAY_AUTH_TOKEN
unfoldable pub verify_gateway_token : Option String → String → Access
verify_gateway_token none token = not_configured
verify_gateway_token (some expected) token =
    if expected == "" then not_configured else if token == expected then granted else unauthorized

-- app.state
pub record AppState : Type 0 where
  pub decision_engine_enabled : Bool
  pub shadow_mode_enabled : Bool

-- How a task ends for the client: a response, or an HTTP error with its code.
pub data Answer (F : Type 0) : Type 0 where
  response : ResponsePayload F → Answer F
  internal_error : Answer F
  service_unavailable : List String → Answer F
  execution_failure : Answer F
  unauthorized_client : Answer F

pub record Services (F K : Type 0) : Type 0 where
  pub engine : DecisionEngine F
  pub ledger : TamperEvidentLedger K

-- the clock readings and identifiers of one request
pub record RequestReadings (F : Type 0) : Type 0 where
  pub start : F
  pub finish : F
  pub audit_time : F
  pub event_id : String
  pub shadow_event_id : String

module _ {F K W : Type 0} ⦃fl : Floats F⦄ (d : DispatchLibraries F K W)
    (lib : LedgerLibraries F K) where
  abbrev static_decision :
      RequestReadings F → TaskRequest F → String → DecisionEngine F → PlacementDecision F
  static_decision t task reason e = get_static_fallback_decision t.start t.finish task reason e

  -- the event that records what the engine would have done
  abbrev pub shadow_event : RequestReadings F → TaskRequest F → PlacementDecision F → AuditEvent F
  shadow_event t task decision =
      record (audit_record t.shadow_event_id t.audit_time decision
        (record {
          task_id = task.task_id;
          node_id = "none";
          node_class = edge;
          status = success;
          execution_time_ms = literal 0 0;
          model_digest = none;
          output = some end;
          error = some "";
          cached = false;
          idempotency_key = "";
        })
        false 1 none task.task_id) { is_shadow_mode = true; model_digest = none }

  -- the decision that is dispatched, from the evaluation of the engine, which always runs
  unfoldable pub choose_decision :
      AppState
      → RequestReadings F
      → TaskRequest F
      → DecisionEngine F
      → Option (PlacementDecision F)
      → PlacementDecision F
  choose_decision app t task e shadow =
      if app.shadow_mode_enabled
      then static_decision t task "shadow_mode_active" e
      else if not app.decision_engine_enabled
      then static_decision t task "decision_engine_service_offline" e
      else or_default (static_decision t task "decision_engine_error" e) shadow

  -- the shadow event is written to the ledger in shadow mode only
  unfoldable pub record_shadow :
      AppState
      → RequestReadings F
      → TaskRequest F
      → Option (PlacementDecision F)
      → TamperEvidentLedger K × Etcd F
      → TamperEvidentLedger K × Etcd F
  record_shadow app t task none x = x
  record_shadow app t task (some decision) x =
      if app.shadow_mode_enabled then append lib (shadow_event t task decision) x.0 x.1 else x

  abbrev pub evaluated :
      Option (PlacementDecision F × DecisionEngine F)
      → DecisionEngine F
      → Option (PlacementDecision F) × DecisionEngine F
  evaluated none e = (none, e)
  evaluated (some (decision, e')) e = (some decision, e')

  abbrev pub answer :
      RequestReadings F
      → TaskRequest F
      → PlacementDecision F
      → Dispatched F × (TaskScheduler K × (Etcd F × W))
      → TamperEvidentLedger K
      → Answer F × (TamperEvidentLedger K × (TaskScheduler K × (Etcd F × W)))
  answer t task decision (completed r activated attempts, (s, (etcd, w))) l =
      let (payload, (l', etcd')) =
        aggregate lib t.event_id t.audit_time decision r activated attempts (some (literal 50 1))
          task.task_id (l, etcd) in
      (response payload, (l', (s, (etcd', w))))
  answer t task decision (not_leader, x) l = (execution_failure, (l, x))
  answer t task decision (fallback_exhausted chain, x) l = (service_unavailable chain, (l, x))

  -- `submit_inference_task`, once the token is verified
  unfoldable pub submit_inference_task :
      AppState
      → RequestReadings F
      → TaskRequest F
      → TelemetryStore F
      → Services F K
      → TaskScheduler K × (Etcd F × W)
      → Answer F × (Services F K × (TaskScheduler K × (Etcd F × W)))
  submit_inference_task app t task store sv (s, (etcd, w)) =
      let (shadow, engine) =
        evaluated
          (evaluate_placement t.start t.finish task (get_all_snapshots store) none sv.engine)
          sv.engine in
      let decision = choose_decision app t task engine shadow in
      let (l, etcd') = record_shadow app t task shadow (sv.ledger, etcd) in
      let (out, (l', x)) = answer t task decision (dispatch d task decision (s, (etcd', w))) l in
      (out, (record { engine = engine; ledger = l' }, x))

  -- A payload for a task that gives a result of the dispatcher, with its count and flag.
  abbrev pub Reports : ResponsePayload F → TaskRequest F → ExecutionResult F → Bool → ℕ → Type 0
  Reports p task r activated attempts =
      (p.task_id ≡ task.task_id)
      × (p.status ≡ status_value r.status)
      × (p.executed_node ≡ r.node_id)
      × (p.prediction ≡ output_field "prediction" r.output)
      × (p.model_digest ≡ r.model_digest)
      × (p.fallback_activated ≡ activated)
      × (p.attempts ≡ attempts)

  -- The dispatch ended with a successful result in time, which the payload reports.
  abbrev pub Succeeded : TaskRequest F → Dispatched F → ResponsePayload F → Type 0
  Succeeded task out p =
      (r : ExecutionResult F) × (activated : Bool) × (attempts : ℕ) × (out
        ≡ completed r activated attempts)
      × (r.status ≡ success)
      × (1 ≤ attempts)
      × (activated ≡ ltb 1 attempts)
      × Reports p task r activated attempts

  answer-success :
      (t : RequestReadings F) (task : TaskRequest F) (decision : PlacementDecision F)
      (x : TaskScheduler K × (Etcd F × W)) (l : TamperEvidentLedger K)
      (out : Dispatched F × (TaskScheduler K × (Etcd F × W))) (p : ResponsePayload F)
      → out ≡ dispatch d task decision x
      → (answer t task decision out l).0 ≡ response p
      → Succeeded task out.0 p
  unfolding aggregate
  answer-success t task decision x l (completed r activated attempts, y) p same h =
      let (leading, (ok, (low, (high, flag)))) =
        dispatch-completed d task decision x r activated attempts (ap (λ o. o.0) (sym same)) in
      (
        r,
        activated,
        attempts,
        refl,
        ok,
        low,
        flag,
        (
          ground (arith, h),
          ground (arith, h),
          ground (arith, h),
          ground (arith, h),
          ground (arith, h),
          ground (arith, h),
          ground (arith, h),
        ),
      )
  answer-success t task decision x l (not_leader, y) p same h = ground (arith, h)
  answer-success t task decision x l (fallback_exhausted c, y) p same h = ground (arith, h)

  -- A task that is answered with a response was dispatched, by the decision of the engine or of the static policy, and the dispatcher returned a result with the status of success: the response is about that task and gives the node, prediction, model digest and status of that result, the number of attempts, which is at least one, and the fallback flag, which is set exactly if there was more than one.
  pub submit_inference_task-response :
      (app : AppState) (t : RequestReadings F) (task : TaskRequest F) (store : TelemetryStore F)
      (sv : Services F K) (x : TaskScheduler K × (Etcd F × W)) (p : ResponsePayload F)
      → (submit_inference_task app t task store sv x).0 ≡ response p
      → let (shadow, engine) =
          evaluated
            (evaluate_placement t.start t.finish task (get_all_snapshots store) none sv.engine)
            sv.engine in
        let decision = choose_decision app t task engine shadow in
        let (l, etcd') = record_shadow app t task shadow (sv.ledger, x.1.0) in
        Succeeded task (dispatch d task decision (x.0, (etcd', x.1.1))).0 p
  unfolding submit_inference_task
  submit_inference_task-response app t task store sv (s, (etcd, w)) p h =
      let (shadow, engine) =
        evaluated
          (evaluate_placement t.start t.finish task (get_all_snapshots store) none sv.engine)
          sv.engine in
      let decision = choose_decision app t task engine shadow in
      let (l, etcd') = record_shadow app t task shadow (sv.ledger, etcd) in
      answer-success t task decision (s, (etcd', w)) l (dispatch d task decision (s, (etcd', w))) p
        refl h
