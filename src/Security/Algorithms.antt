-- ===== src/Security/Algorithms.antt =====
-- `PqcConfig` of common/config.py and `CryptoConfig` of common/crypto.py: the allowlists.
use distributed_ai_networkin.Prelude.{
  String, ◌≡◌, refl, subst, ◌↔◌, inl, inr, Bool, true, false, ◌&&◌, ◌||◌, not, Option, List, [],
  ◌∷◌, arith, ◌==◌, eq_iff, if◌then◌else◌, Bool-cases, or_default, contains, All,
}
use distributed_ai_networkin.Prelude.Text.{lower}

-- os.getenv
abbrev pub Environment : Type 0
Environment = String → Option String

abbrev pub getenv : Environment → String → String → String
getenv env key default = or_default default (env key)

pub record PqcConfig : Type 0 where
  pub mode : String
  pub kem : String
  pub signature : String
  pub classical_signature : String
  pub message_signature_policy : String
  pub allow_oqs_provider : Bool
  pub require_capability_probe : Bool

-- PqcConfig.load
unfoldable pub load : Environment → PqcConfig
load env = record {
  mode = getenv env "PQC_MODE" "disabled";
  kem = getenv env "PQC_KEM" "ML-KEM-768";
  signature = getenv env "PQC_SIGNATURE" "ML-DSA-65";
  classical_signature = getenv env "PQC_CLASSICAL_SIGNATURE" "Ed25519";
  message_signature_policy = getenv env "PQC_MESSAGE_SIGNATURE_POLICY" "classical";
  allow_oqs_provider = lower (getenv env "PQC_ALLOW_OQS_PROVIDER" "false") == "true";
  require_capability_probe = lower (getenv env "PQC_REQUIRE_CAPABILITY_PROBE" "true") == "true";
}

abbrev pub dual_required : PqcConfig → Bool
dual_required c = c.message_signature_policy == "dual_required"

abbrev pub supported_signatures : List String
supported_signatures = "Ed25519" ∷ "ECDSA_P256" ∷ []

abbrev pub supported_kem : List String
supported_kem = "X25519" ∷ []

abbrev pub pq_signatures : List String
pq_signatures = "ML-DSA-44" ∷ "ML-DSA-65" ∷ "ML-DSA-87" ∷ []

abbrev pub pq_kem : List String
pq_kem = "ML-KEM-512" ∷ "ML-KEM-768" ∷ "ML-KEM-1024" ∷ []

-- How a validation ends: it returns, or it raises NotImplementedError or SecurityError.
pub data Verdict : Type 0 where
  valid : Verdict
  provider_disabled : Verdict
  provider_missing : Verdict
  unsupported : Verdict

-- the call returns
abbrev pub is_valid : Verdict → Bool
is_valid valid = true
is_valid provider_disabled = false
is_valid provider_missing = false
is_valid unsupported = false

-- the common body of the two class methods
abbrev validate : List String → List String → PqcConfig → Bool → String → Verdict
validate pq classical config oqs_available algorithm =
    if contains algorithm pq
    then (if not config.allow_oqs_provider
        then provider_disabled
        else if not oqs_available
        then provider_missing
        else valid)
    else if not (contains algorithm classical)
    then unsupported
    else valid

unfoldable pub validate_signature_algorithm : PqcConfig → Bool → String → Verdict
validate_signature_algorithm config oqs algorithm =
    validate pq_signatures supported_signatures config oqs algorithm

unfoldable pub validate_kem_algorithm : PqcConfig → Bool → String → Verdict
validate_kem_algorithm config oqs algorithm = validate pq_kem supported_kem config oqs algorithm

validate-valid :
    (pq classical : List String) (config : PqcConfig) (oqs : Bool) (algorithm : String)
    → (contains algorithm classical && contains algorithm pq) ≡ false
    → (validate pq classical config oqs algorithm ≡ valid) ↔ (
        (contains algorithm classical
          || (contains algorithm pq && config.allow_oqs_provider && oqs))
        ≡ true)
validate-valid pq classical config oqs algorithm disjoint = (ground arith, ground arith)

disjoint_from :
    (pq classical : List String) (algorithm : String)
    → All (λ c. contains c pq ≡ false) classical
    → (contains algorithm classical && contains algorithm pq) ≡ false
disjoint_from pq [] algorithm h = refl
disjoint_from pq (c ∷ classical) algorithm h = elim (Bool-cases (c == algorithm)) [
  | inl same ↦ rw same (subst (λ a. contains a pq ≡ false) ((eq_iff c algorithm).0 same) h.0)
  | inr other ↦ rw other (disjoint_from pq classical algorithm h.1)
]

-- With the provider disabled, which it is unless the environment says "true" in some case, exactly
-- the classical algorithms are valid; with the provider enabled and installed, exactly the listed
-- ones of both kinds.
pub validate_signature_algorithm_lem :
    (env : Environment) (oqs : Bool) (algorithm : String)
    → let config = load env in
      let v = validate_signature_algorithm config oqs algorithm in
      (v ≡ valid) ↔ (
        (contains algorithm supported_signatures
          || (contains algorithm pq_signatures
              && (lower (or_default "false" (env "PQC_ALLOW_OQS_PROVIDER")) == "true")
              && oqs))
        ≡ true)
unfolding load validate_signature_algorithm
validate_signature_algorithm_lem env oqs algorithm =
    validate-valid pq_signatures supported_signatures (load env) oqs algorithm
      (disjoint_from pq_signatures supported_signatures algorithm (refl, (refl, tt)))
