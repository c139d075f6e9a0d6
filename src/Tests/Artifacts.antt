-- ===== src/Tests/Artifacts.antt =====
-- The supply chain and the nodes at concrete inputs.
use distributed_ai_networkin.Prelude.{
  ℕ, String, ◌≡◌, refl, ◌≢◌, ◌↔◌, true, false, ◌&&◌, ◌||◌, none, some, [], ◌∷◌, ◌==◌, eqb,
  if◌then◌else◌, or_default, length, contains,
}
use distributed_ai_networkin.Audit.Verify.{same_bytes}
use distributed_ai_networkin.Tests.Instances.{micros, signing, hexes}
use distributed_ai_networkin.Security.Algorithms.{
  validate_signature_algorithm_lem, pq_signatures, supported_signatures, valid, load, Environment,
  validate_signature_algorithm,
}
use distributed_ai_networkin.NodeAgent.Worker.Laws.{execute_verified, execute_again}
use distributed_ai_networkin.NodeAgent.Worker.{executed, done, execute, InferenceWorker}
use distributed_ai_networkin.SupplyChain.Lifecycle.{revoke_never_verified}
use distributed_ai_networkin.SupplyChain.Binding.{verify_record_rebound}
use distributed_ai_networkin.SupplyChain.{
  revoke_artifact_digest, policy_key, canonical_provenance_bytes, verify_artifact_signature,
  is_digest_revoked, revocation_key, ci_key, model_key, verify_record, default_policy, ok,
  get_supply_chain_policy, Libraries, verify_artifact_for_execution,
}
use distributed_ai_networkin.SupplyChain.Digest.{
  is_hex, drop_spaces, is_immutable_digest-length, is_space, codes, strip, hex_digits,
  matches_digest, is_immutable_digest,
}
use distributed_ai_networkin.Contracts.Models.{ExecutionRequest, ApprovedArtifactRecord}
use distributed_ai_networkin.Prelude.Text.{lower}
use distributed_ai_networkin.SupplyChain.Laws.{verify-Approved, verify_complete, Approved}
use distributed_ai_networkin.State.{Etcd}
use distributed_ai_networkin.Prelude.Dict
use distributed_ai_networkin.State
use distributed_ai_networkin.Tests.Placement.{node_1}

abbrev pub digest_1 : String
digest_1 = "sha256:0000000000000000000000000000000000000000000000000000000000000000"

abbrev pub digest_2 : String
digest_2 = "sha256:1111111111111111111111111111111111111111111111111111111111111111"

abbrev pub approved : ApprovedArtifactRecord ℕ
approved = record {
  model_id = "m1";
  digest = digest_1;
  provenance = record {
    artifact_name = "m1";
    digest = digest_1;
    builder_identity = "spiffe://distributed-ai.local/ci-builder";
    source_repo = "repo";
    commit_sha = "c0ffee";
    build_timestamp = 1000000;
    sbom_digest = "s";
    vulnerabilities_summary = [];
  };
  signature_algorithm = "Ed25519";
  signature = "c";
  signing_key_id = "ci";
  revoked = false;
}

-- the texts "record" and "policy" stand for one record and for the default policy
abbrev pub libraries : Libraries ℕ ℕ
libraries = record {
  signing = signing;
  hexes = hexes;
  policies = record { encode = λ p. "policy"; decode = λ s. some default_policy };
  records = record {
    encode = λ r. "record";
    decode = λ s. if s == "record" then some approved else none;
  };
  dumps = λ f. [];
  revocation = λ d t why. why;
}

abbrev pub registry : Etcd ℕ
registry = record {
  kv =
      ("/distributed-ai/artifacts/models/m1", "record")
      ∷ ("/distributed-ai/ci/keys/ci", "pem")
      ∷ ("/distributed-ai/scheduler/s1/identity", "pem")
      ∷ [];
  leases = λ id. if eqb id 1 then some 30000000 else none;
  lease_id_counter = 2;
}

verify_m1 : verify_artifact_for_execution libraries "m1" (some digest_1) registry ≡ ok approved
unfolding verify_artifact_for_execution get_supply_chain_policy verify_record State.get Dict.get
    is_immutable_digest matches_digest hex_digits strip codes is_space drop_spaces is_hex model_key
    ci_key revocation_key is_digest_revoked lower verify_artifact_signature
    canonical_provenance_bytes policy_key same_bytes State.put Dict.put
verify_m1 = refl

verify-Approved_example :
    Approved libraries
      (get_supply_chain_policy libraries registry)
      "m1"
      (some digest_1)
      registry
      approved
verify-Approved_example = verify-Approved libraries "m1" (some digest_1) registry approved verify_m1

verify_complete_example :
    verify_artifact_for_execution libraries "m1" (some digest_1) registry ≡ ok approved
verify_complete_example =
    verify_complete libraries "m1" (some digest_1) registry approved
      (verify-Approved libraries "m1" (some digest_1) registry approved verify_m1)

is_immutable_digest-length_example : length (strip (codes digest_1)) ≡ 71
unfolding is_immutable_digest matches_digest hex_digits strip codes is_space drop_spaces is_hex
is_immutable_digest-length_example = is_immutable_digest-length digest_1 refl

revoke_never_verified_example : lower digest_1 ≢ lower digest_2
unfolding verify_artifact_for_execution get_supply_chain_policy verify_record State.get Dict.get
    is_immutable_digest matches_digest hex_digits strip codes is_space drop_spaces is_hex model_key
    ci_key revocation_key is_digest_revoked lower verify_artifact_signature
    canonical_provenance_bytes policy_key same_bytes State.put Dict.put revoke_artifact_digest
revoke_never_verified_example =
    revoke_never_verified libraries 5000000 digest_2 "cve" "m1" (some digest_1) registry approved
      refl

verify_record_rebound_example :
    verify_record libraries default_policy
      (some digest_2)
      registry
      (record approved { digest = digest_2 })
    ≡ ok (record approved { digest = digest_2 })
unfolding verify_artifact_for_execution get_supply_chain_policy verify_record State.get Dict.get
    is_immutable_digest matches_digest hex_digits strip codes is_space drop_spaces is_hex model_key
    ci_key revocation_key is_digest_revoked lower verify_artifact_signature
    canonical_provenance_bytes policy_key same_bytes State.put Dict.put
verify_record_rebound_example =
    verify_record_rebound libraries default_policy (some digest_1) registry approved approved
      digest_2 refl refl

abbrev pub environment : Environment
environment = λ name. none

validate_signature_algorithm_lem_example :
    (validate_signature_algorithm (load environment) true "Ed25519" ≡ valid) ↔ (
      (contains "Ed25519" supported_signatures
        || (contains "Ed25519" pq_signatures
            && (lower (or_default "false" none) == "true")
            && true))
      ≡ true)
validate_signature_algorithm_lem_example =
    validate_signature_algorithm_lem environment true "Ed25519"

abbrev pub request : ExecutionRequest ℕ
request = record {
  task_id = "t1";
  node_id = "edge-1";
  model_id = "m1";
  model_digest = some digest_1;
  payload_ref = "p1";
  idempotency_key = "k1";
  timeout_ms = 500000000;
}

abbrev pub worker : InferenceWorker ℕ
worker = record { node = node_1; processed_idempotency_keys = [] }

execute_verified_example :
    (a : ApprovedArtifactRecord ℕ) × Approved libraries
      (get_supply_chain_policy libraries registry)
      "m1"
      (some digest_1)
      registry
      a
    × (executed 0 5000 node_1 request digest_1 ≡ executed 0 5000 node_1 request a.digest)
    × ((node_1.is_offline || node_1.fail_execution) ≡ false)
    × (Dict.get (execute libraries 0 5000 request registry worker).1.processed_idempotency_keys "k1"
        ≡ some (executed 0 5000 node_1 request digest_1))
unfolding verify_artifact_for_execution get_supply_chain_policy verify_record State.get Dict.get
    is_immutable_digest matches_digest hex_digits strip codes is_space drop_spaces is_hex model_key
    ci_key revocation_key is_digest_revoked lower verify_artifact_signature
    canonical_provenance_bytes policy_key same_bytes State.put Dict.put execute
execute_verified_example =
    execute_verified libraries 0 5000 request registry worker
      (executed 0 5000 node_1 request digest_1) refl refl

execute_again_example :
    execute libraries 7000 8000 request State.empty
      (execute libraries 0 5000 request registry worker).1
    ≡ (
      done (record (executed 0 5000 node_1 request digest_1) { cached = true }),
      (execute libraries 0 5000 request registry worker).1,
    )
unfolding verify_artifact_for_execution get_supply_chain_policy verify_record State.get Dict.get
    is_immutable_digest matches_digest hex_digits strip codes is_space drop_spaces is_hex model_key
    ci_key revocation_key is_digest_revoked lower verify_artifact_signature
    canonical_provenance_bytes policy_key same_bytes State.put Dict.put execute
execute_again_example =
    execute_again libraries 0 5000 7000 8000 request request registry State.empty worker
      (execute libraries 0 5000 request registry worker).1 (executed 0 5000 node_1 request digest_1)
      refl refl refl
