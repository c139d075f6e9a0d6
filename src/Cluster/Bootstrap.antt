-- ===== src/Cluster/Bootstrap.antt =====
-- `bootstrap_supply_chain` of common/cluster.py.
pub mod Stores
pub mod Verified
use distributed_ai_networkin.SupplyChain.{
  set_supply_chain_policy, register_approved_model, Libraries,
}
use distributed_ai_networkin.SupplyChain.Provenance.{create_provenance}
use distributed_ai_networkin.Contracts.Models.{
  ApprovedArtifactRecord, SupplyChainPolicy, ArtifactProvenance,
}
use distributed_ai_networkin.State.{Etcd}
use distributed_ai_networkin.Prelude.{String, true, Option, none, some, List, [], ◌∷◌}

-- the two models, in the order of the loop
abbrev pub bootstrapped_models : List String
bootstrapped_models = "vision-classifier-v3" ∷ "v3" ∷ []

abbrev pub vision_digest : String
vision_digest = "sha256:4a3b84175317b6a1e3b5e40854378f56193d56a31c5040f7d5440798e4f55e09"

abbrev pub signer_id : String
signer_id = "ci-release-signer-1"

abbrev pub cluster_policy : SupplyChainPolicy
cluster_policy = record {
  require_immutable_digest = true;
  require_signature = true;
  allowed_builders = "spiffe://distributed-ai.local/ci-builder" ∷ [];
  max_allowed_critical_vulns = 0;
  max_allowed_high_vulns = 0;
}

module _ {F : Type 0} where
  -- the provenance of a model, made at a time; `none` is an ArtifactVerificationError
  unfoldable pub model_provenance : F → String → Option (ArtifactProvenance F)
  model_provenance now model_name =
      create_provenance now model_name vision_digest "spiffe://distributed-ai.local/ci-builder"
        "a1b2c3d4e5f67890123456789abcdef012345678"
        "sha256:ba7816bf8f01cfea414140de5dae2223b00361a396177a9cb410ff61f20015ad"
        (("CRITICAL", 0) ∷ ("HIGH", 0) ∷ ("MEDIUM", 0) ∷ ("LOW", 0) ∷ [])
        "https://github.com/distributed-ai/orchestration"

module _ {F K : Type 0} (lib : Libraries F K) where
  abbrev pub registered : Option (ApprovedArtifactRecord F) × Etcd F → Option (Etcd F)
  registered (none, etcd) = none
  registered (some r, etcd) = some etcd

  abbrev pub register_with : K → String → Option (ArtifactProvenance F) → Etcd F → Option (Etcd F)
  register_with key model_name none etcd = none
  register_with key model_name (some p) etcd =
      registered (register_approved_model lib model_name vision_digest p key signer_id etcd)

  -- the loop, with the time of each turn
  unfoldable pub register_models : K → List (F × String) → Etcd F → Option (Etcd F)
  register_models key [] etcd = some etcd
  register_models key ((now, model_name) ∷ rest) etcd =
      elim (register_with key model_name (model_provenance now model_name) etcd) [
        | none ↦ none
        | some etcd' ↦ register_models key rest etcd'
      ]

  -- with the generated key and the times of the two turns; `none` where it raises
  unfoldable pub bootstrap_supply_chain : K → F → F → Etcd F → Option (Etcd F)
  bootstrap_supply_chain key first second etcd =
      register_models key ((first, "vision-classifier-v3") ∷ (second, "v3") ∷ [])
        (set_supply_chain_policy lib cluster_policy etcd)
