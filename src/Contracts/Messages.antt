-- ===== src/Contracts/Messages.antt =====
-- contracts/proto/orchestrator.proto: the messages between the scheduler, the nodes and the gateway,
-- and the payloads that they carry in JSON.
use distributed_ai_networkin.Prelude.{ℕ, String, Bool, Option, List}
use distributed_ai_networkin.Prelude.Int.{ℤ}
use distributed_ai_networkin.Interfaces.{Bytes}

-- `payload_dict` of scheduler/dispatcher.py
pub record TaskPayload (F : Type 0) : Type 0 where
  pub model_id : String
  pub model_digest : Option String
  pub payload_ref : String
  pub idempotency_key : String
  pub timeout_ms : F

pub record SignedTaskEnvelope (F : Type 0) : Type 0 where
  pub task_id : String
  pub node_id : String
  pub cluster_epoch : ℕ
  pub leader_lease_id : ℕ
  pub issue_time : F
  pub expires_at : F
  pub encrypted_payload : Bytes
  pub encrypted_dek : Bytes
  pub signature_algorithm : String
  pub key_id : String
  pub schema_version : String
  pub signature : Bytes
  pub pq_signature_algorithm : String
  pub pq_signature : Bytes

-- `result_payload` of node_agent/grpc_server.py, with each key that a reader asks for by `get`
pub record ResultPayload (F : Type 0) : Type 0 where
  pub status : Option String
  pub execution_time_ms : Option F
  pub output_json : Option String
  pub error : Option String
  pub cached : Option Bool
  pub idempotency_key : Option String
  pub node_class : Option String
  pub model_digest : Option String

pub record SignedResultEnvelope (F : Type 0) : Type 0 where
  pub task_id : String
  pub node_id : String
  pub issue_time : F
  pub encrypted_result : Bytes
  pub encrypted_dek : Bytes
  pub signature_algorithm : String
  pub key_id : String
  pub schema_version : String
  pub signature : Bytes
  pub pq_signature_algorithm : String
  pub pq_signature : Bytes

pub record SignedTelemetryEnvelope (F : Type 0) : Type 0 where
  pub node_id : String
  pub timestamp : F
  pub expires_at : F
  pub sequence_number : ℤ
  pub nonce : String
  pub payload_json : Bytes
  pub signature : Bytes
  pub schema_version : String
  pub previous_message_hash : Bytes
  pub signature_algorithm : String
  pub key_id : String
  pub pq_signature_algorithm : String
  pub pq_signature : Bytes

pub record NodeRegistrationRequest : Type 0 where
  pub node_id : String
  pub node_class : String
  pub supported_models : List String
  pub data_residency_zones : List String
  pub hardware_specs_json : String
  pub public_signing_key : String

-- The payload of a telemetry message, with each key that a reader asks for by `get`.
pub record TelemetryPayload (F : Type 0) : Type 0 where
  pub node_class : Option String
  pub timestamp : Option F
  pub rtt_ms : Option F
  pub bandwidth_available_mbps : Option F
  pub cpu_util_pct : Option F
  pub gpu_util_pct : Option F
  pub queue_depth : Option ℕ
  pub cost_per_1k_inferences_usd : Option F
  pub health : Option String
  pub data_residency_zones : Option (List String)
