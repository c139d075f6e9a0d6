-- ===== src/SupplyChain/Keys.antt =====
-- The keys of common/supply_chain.py never meet: each kind has a prefix of its own.
use distributed_ai_networkin.Prelude.{String, ◌≡◌, refl, false, ◌==◌}
use distributed_ai_networkin.Prelude.Text.{lower}
use distributed_ai_networkin.Prelude.Text.Keys.{prefixes_differ}
use distributed_ai_networkin.SupplyChain.{model_key, ci_key, revocation_key, policy_key}

pub model_key-ne-ci_key : (m k : String) → (model_key m == ci_key k) ≡ false
unfolding model_key ci_key
model_key-ne-ci_key m k =
    prefixes_differ "/distributed-ai/a" "rtifacts/models/" "/distributed-ai/c" "i/keys/" m k refl
      refl

pub model_key-ne-revocation_key : (m d : String) → (model_key m == revocation_key d) ≡ false
unfolding model_key revocation_key
model_key-ne-revocation_key m d =
    prefixes_differ "/distributed-ai/a" "rtifacts/models/" "/distributed-ai/r"
      "evocations/artifacts/" m (lower d) refl refl

pub model_key-ne-policy_key : (m : String) → (model_key m == policy_key) ≡ false
unfolding model_key policy_key
model_key-ne-policy_key m =
    prefixes_differ "/distributed-ai/a" "rtifacts/models/" "/distributed-ai/p"
      "olicies/supply-chain" m "" refl refl

pub ci_key-ne-revocation_key : (k d : String) → (ci_key k == revocation_key d) ≡ false
unfolding ci_key revocation_key
ci_key-ne-revocation_key k d =
    prefixes_differ "/distributed-ai/c" "i/keys/" "/distributed-ai/r" "evocations/artifacts/" k
      (lower d) refl refl

pub ci_key-ne-policy_key : (k : String) → (ci_key k == policy_key) ≡ false
unfolding ci_key policy_key
ci_key-ne-policy_key k =
    prefixes_differ "/distributed-ai/c" "i/keys/" "/distributed-ai/p" "olicies/supply-chain" k ""
      refl refl

pub policy_key-ne-revocation_key : (d : String) → (policy_key == revocation_key d) ≡ false
unfolding policy_key revocation_key
policy_key-ne-revocation_key d =
    prefixes_differ "/distributed-ai/p" "olicies/supply-chain" "/distributed-ai/r"
      "evocations/artifacts/" "" (lower d) refl refl
