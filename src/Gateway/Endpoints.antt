-- ===== src/Gateway/Endpoints.antt =====
-- gateway/app.py: the endpoints beside inference. A handler takes the state that it uses and returns
-- the new one, if it changes it.
use distributed_ai_networkin.Prelude.{
  ℕ, String, ◌≡◌, refl, ◌⊎◌, inr, Bool, true, false, ◌&&◌, Option, none, some, List, [], ◌∷◌, arith,
  ◌==◌, eq_iff, if◌then◌else◌, length,
}
use distributed_ai_networkin.Contracts.Weights.{
  same_class, set_profile, get_sla_weights, weights_to_dict, accepts_weights, Profiles, SlaWeights,
}
use distributed_ai_networkin.Contracts.Models.{
  sla_value, HealthCheckResponse, AuditEvent, accepts_snapshot, NodeTelemetrySnapshot, SlaClass,
}
use distributed_ai_networkin.Decision.Engine.{update_sla_profiles, DecisionEngine}
use distributed_ai_networkin.Gateway.App.{
  unauthorized, not_configured, granted, verify_gateway_token, Access, AppState,
}
use distributed_ai_networkin.Audit.Aggregator.{get_audit_trail}
use distributed_ai_networkin.Telemetry.Store.{get_all_snapshots, TelemetryStore}
use distributed_ai_networkin.Audit.Ledger.{TamperEvidentLedger, LedgerLibraries}
use distributed_ai_networkin.Scheduler.{TaskScheduler}
use distributed_ai_networkin.Prelude.Dict.{Dict}
use distributed_ai_networkin.Prelude.Floats.{Floats}
use distributed_ai_networkin.Telemetry.Store

-- How a request ends: with an answer, without access, or with a body that is not valid.
pub data Reply {ℓ} (A : Type ℓ) : Type ℓ where
  answered : A → Reply A
  denied : Access → Reply A
  invalid_body : Reply A

-- The body of the answer of `update_sla_weights`.
pub record WeightsUpdated (F : Type 0) : Type 0 where
  pub status : String
  pub sla_class : String
  pub weights : Dict F

abbrev pub is_granted : Access → Bool
is_granted granted = true
is_granted not_configured = false
is_granted unauthorized = false

-- `{sla_class: weights}`
abbrev pub only : {F : Type 0} → SlaClass → SlaWeights F → Profiles F
only c w = set_profile c w (λ d. none)

module _ {F : Type 0} where
  -- with `str` of numbers
  unfoldable pub health_check :
      {K : Type 0}
      → (ℕ → String)
      → F
      → AppState
      → TelemetryStore F
      → TaskScheduler K
      → HealthCheckResponse F
  health_check str now app store scheduler =
      let de_status = if app.decision_engine_enabled then "healthy" else "disabled" in
      record {
        status = "healthy";
        service_name = "network-gateway";
        timestamp = now;
        version = "1.0.0";
        dependencies =
            ("decision_engine", de_status)
            ∷ ("telemetry_nodes_count", str (length (get_all_snapshots store)))
            ∷ ("scheduler_workers_count", str (length scheduler.node_targets))
            ∷ [];
      }

  unfoldable pub get_node_telemetry : TelemetryStore F → List (NodeTelemetrySnapshot F)
  get_node_telemetry store = get_all_snapshots store

  -- the dependency on the token comes before the handler
  unfoldable pub get_audit_events :
      {K : Type 0}
      → LedgerLibraries F K
      → Option String
      → String
      → Option String
      → TamperEvidentLedger K
      → Reply (Option (List (AuditEvent F)))
  get_audit_events lib expected token task_id l = elim (verify_gateway_token expected token) [
    | granted ↦ answered (get_audit_trail lib task_id l)
    | not_configured ↦ denied not_configured
    | unauthorized ↦ denied unauthorized
  ]

module _ {F : Type 0} ⦃fl : Floats F⦄ where
  -- the body is validated before the handler
  unfoldable pub record_telemetry :
      NodeTelemetrySnapshot F → TelemetryStore F → Reply (String × String) × TelemetryStore F
  record_telemetry snapshot store =
      if accepts_snapshot snapshot
      then (answered ("recorded", snapshot.node_id), Store.record_snapshot snapshot store)
      else (invalid_body, store)

  -- the handler, once the token is verified
  abbrev pub update_granted :
      SlaClass → SlaWeights F → DecisionEngine F → Reply (WeightsUpdated F) × DecisionEngine F
  update_granted sla_class weights engine =
      if accepts_weights weights
      then (
        answered (record {
          status = "updated";
          sla_class = sla_value sla_class;
          weights = weights_to_dict weights;
        }),
        update_sla_profiles (only sla_class weights) engine,
      )
      else (invalid_body, engine)

  unfoldable pub update_sla_weights :
      Option String
      → String
      → SlaClass
      → SlaWeights F
      → DecisionEngine F
      → Reply (WeightsUpdated F) × DecisionEngine F
  update_sla_weights expected token sla_class weights engine =
      elim (verify_gateway_token expected token) [
        | granted ↦ update_granted sla_class weights engine
        | not_configured ↦ (denied not_configured, engine)
        | unauthorized ↦ (denied unauthorized, engine)
      ]

  -- A change of weights takes effect exactly if the token is granted, which only the configured token is, if it is not empty, and the weights are within their bounds and sum to one: then its class has the new weights from the next placement on and every other class keeps its own; otherwise the engine is unchanged.
  pub update_sla_weights_lem :
      (expected : Option String) (token : String) (c : SlaClass) (w : SlaWeights F)
      (e : DecisionEngine F)
      → let e' = (update_sla_weights expected token c w e).1 in
        let ok = is_granted (verify_gateway_token expected token) && accepts_weights w in
        ((d : SlaClass)
          → get_sla_weights d e'.custom_sla_profiles
            ≡ (if ok && same_class c d then w else get_sla_weights d e.custom_sla_profiles))
        × (((ok ≡ true) × (expected ≡ some token) × ((token == "") ≡ false)) ⊎ (e' ≡ e))
  unfolding update_sla_weights update_sla_profiles get_sla_weights verify_gateway_token
  update_sla_weights_lem none token c w e = (λ d. ground arith, inr refl)
  update_sla_weights_lem (some key) token c w e =
      (λ d. ground arith, ground (arith, eq_iff token key))
