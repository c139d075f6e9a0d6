-- ===== src/Contracts/Errors.antt =====
-- common/errors.py: the exceptions of the platform, each as its message, code and details.
-- A constructor returns the details it builds; the dictionary that a raiser passes keeps its value.
use distributed_ai_networkin.Prelude.{
  String, ◌≡◌, refl, sym, ap, ◌∙◌, false, Option, none, some, List, ◌==◌, if◌then◌else◌,
}
use distributed_ai_networkin.Contracts.Json.{
  texts, get-put, arr, num, end, text, get, put, Fields, field,
}

pub record OrchestrationError (F : Type 0) : Type 0 where
  pub message : String
  pub error_code : String
  pub details : Fields F

-- The subclasses.
pub data ErrorClass : Type 0 where
  security constraint_violation decision_engine_unavailable node_unavailable fallback_exhaustion
        stale_telemetry idempotency_conflict artifact_verification :
      ErrorClass

unfoldable pub error_code_of : ErrorClass → String
error_code_of security = "SECURITY_ERROR"
error_code_of constraint_violation = "CONSTRAINT_VIOLATION"
error_code_of decision_engine_unavailable = "DECISION_ENGINE_UNAVAILABLE"
error_code_of node_unavailable = "NODE_UNAVAILABLE"
error_code_of fallback_exhaustion = "FALLBACK_EXHAUSTED"
error_code_of stale_telemetry = "STALE_TELEMETRY"
error_code_of idempotency_conflict = "IDEMPOTENCY_CONFLICT"
error_code_of artifact_verification = "ARTIFACT_VERIFICATION_FAILED"

module _ {F : Type 0} where
  -- `details or {}`
  abbrev pub given_details : Option (Fields F) → Fields F
  given_details none = end
  given_details (some d) = d

  abbrev pub error : ErrorClass → String → Fields F → OrchestrationError F
  error c message details = record {
    message = message;
    error_code = error_code_of c;
    details = details;
  }

  unfoldable pub security_error : String → Option (Fields F) → OrchestrationError F
  security_error message details = error security message (given_details details)

  unfoldable pub constraint_violation_error : String → Option (Fields F) → OrchestrationError F
  constraint_violation_error message details =
      error constraint_violation message (given_details details)

  unfoldable pub decision_engine_unavailable_error :
      String → Option (Fields F) → OrchestrationError F
  decision_engine_unavailable_error message details =
      error decision_engine_unavailable message (given_details details)

  unfoldable pub node_unavailable_error : String → String → Option (Fields F) → OrchestrationError F
  node_unavailable_error message node_id details =
      error node_unavailable message (put (given_details details) "node_id" (text node_id))

  unfoldable pub fallback_exhaustion_error :
      String → List String → Option (Fields F) → OrchestrationError F
  fallback_exhaustion_error message chain details =
      error fallback_exhaustion message
        (put (given_details details) "fallback_chain" (arr (texts chain)))

  unfoldable pub stale_telemetry_error : String → String → F → OrchestrationError F
  stale_telemetry_error message node_id age_ms =
      error stale_telemetry message
        (field "node_id" (text node_id) (field "age_ms" (num age_ms) end))

  unfoldable pub idempotency_conflict_error : String → String → OrchestrationError F
  idempotency_conflict_error message idempotency_key =
      error idempotency_conflict message (field "idempotency_key" (text idempotency_key) end)

  -- `if digest: d["digest"] = digest`
  abbrev with_digest : Option String → Fields F → Fields F
  with_digest none d = d
  with_digest (some digest) d = if digest == "" then d else put d "digest" (text digest)

  unfoldable pub artifact_verification_error :
      String → String → Option String → Option (Fields F) → OrchestrationError F
  artifact_verification_error message artifact_id digest details =
      error artifact_verification message
        (with_digest digest (put (given_details details) "artifact_id" (text artifact_id)))

  -- An error of verification always names its artifact, names the digest where one is given, and keeps every other detail that its raiser gives.
  pub artifact_verification_error_lem :
      (message artifact_id digest : String) (details : Option (Fields F)) (key : String)
      → (digest == "") ≡ false
      → get (artifact_verification_error message artifact_id (some digest) details).details key ≡ (
          if "digest" == key
          then some (text digest)
          else if "artifact_id" == key
          then some (text artifact_id)
          else get (given_details details) key)
  unfolding artifact_verification_error
  artifact_verification_error_lem message artifact_id digest details key h = rw h (
      get-put (put (given_details details) "artifact_id" (text artifact_id)) "digest" key
        (text digest)
      ∙ rw (get-put (given_details details) "artifact_id" key (text artifact_id)) refl)

class_of : String → ErrorClass
class_of s =
    if s == "SECURITY_ERROR"
    then security
    else if s == "CONSTRAINT_VIOLATION"
    then constraint_violation
    else if s == "DECISION_ENGINE_UNAVAILABLE"
    then decision_engine_unavailable
    else if s == "NODE_UNAVAILABLE"
    then node_unavailable
    else if s == "FALLBACK_EXHAUSTED"
    then fallback_exhaustion
    else if s == "STALE_TELEMETRY"
    then stale_telemetry
    else if s == "IDEMPOTENCY_CONFLICT"
    then idempotency_conflict
    else artifact_verification

class_of-error_code_of : (c : ErrorClass) → class_of (error_code_of c) ≡ c
unfolding class_of error_code_of
class_of-error_code_of security = refl
class_of-error_code_of constraint_violation = refl
class_of-error_code_of decision_engine_unavailable = refl
class_of-error_code_of node_unavailable = refl
class_of-error_code_of fallback_exhaustion = refl
class_of-error_code_of stale_telemetry = refl
class_of-error_code_of idempotency_conflict = refl
class_of-error_code_of artifact_verification = refl

-- The code of an error tells its class.
pub error_code_of-inj : (a b : ErrorClass) → error_code_of a ≡ error_code_of b → a ≡ b
error_code_of-inj a b e = sym (class_of-error_code_of a) ∙ ap class_of e ∙ class_of-error_code_of b
