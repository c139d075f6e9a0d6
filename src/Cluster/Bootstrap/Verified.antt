-- ===== src/Cluster/Bootstrap/Verified.antt =====
-- The models of a bootstrapped cluster pass the verification before execution.
use distributed_ai_networkin.SupplyChain.Laws.{Approved, verify_complete}
use distributed_ai_networkin.Cluster.Bootstrap.Stores.{
  vision-is_immutable, kept, provenance-Permits, get-store_with, policy-store_with, provenance_of,
  record_of, register_models-store, store_with,
}
use distributed_ai_networkin.Cluster.Bootstrap.{
  signer_id, bootstrapped_models, vision_digest, cluster_policy, register_models,
  bootstrap_supply_chain,
}
use distributed_ai_networkin.SupplyChain.Lifecycle.{
  registered_Approved, Permits, get-put-etcd, LibraryLaws,
}
use distributed_ai_networkin.Prelude.{◌≡◌, refl, sym, ◌∙◌, subst, none, some, [], ◌∷◌, eq_refl, All}
use distributed_ai_networkin.SupplyChain.Keys.{
  ci_key-ne-revocation_key, model_key-ne-revocation_key, policy_key-ne-revocation_key,
}
use distributed_ai_networkin.SupplyChain.{
  ok, verify_artifact_for_execution, policy_key, revocation_key, get_supply_chain_policy,
  set_supply_chain_policy, Libraries,
}
use distributed_ai_networkin.Contracts.Models.{ApprovedArtifactRecord}
use distributed_ai_networkin.State.{Etcd}
use distributed_ai_networkin.Interfaces.{CodecLaws}
use distributed_ai_networkin.State

module _ {F K : Type 0} (lib : Libraries F K) (laws : LibraryLaws lib)
    (policies : CodecLaws lib.policies) where
  policy-set :
      (etcd : Etcd F)
      → get_supply_chain_policy lib (set_supply_chain_policy lib cluster_policy etcd)
        ≡ cluster_policy
  unfolding get_supply_chain_policy set_supply_chain_policy
  policy-set etcd =
      let stored =
        get-put-etcd lib policy_key policy_key (lib.policies.encode cluster_policy) etcd in
      rw (stored, eq_refl policy_key)
        (rw (policies.encode-ne-empty cluster_policy, policies.decode-encode cluster_policy) refl)

  clear-set :
      (etcd : Etcd F)
      → State.get etcd (revocation_key vision_digest) ≡ none
      → State.get (set_supply_chain_policy lib cluster_policy etcd) (revocation_key vision_digest)
        ≡ none
  unfolding set_supply_chain_policy
  clear-set etcd h =
      get-put-etcd lib policy_key (revocation_key vision_digest)
        (lib.policies.encode cluster_policy) etcd
      ∙ rw (policy_key-ne-revocation_key vision_digest) h

  abbrev pub bootstrapped_store : K → F → F → Etcd F → Etcd F
  bootstrapped_store key first second etcd = store_with lib laws key second "v3" (
      store_with lib laws key first "vision-classifier-v3"
        (set_supply_chain_policy lib cluster_policy etcd))

  pub bootstrap_supply_chain-store :
      (key : K) (first second : F) (etcd : Etcd F)
      → bootstrap_supply_chain lib key first second etcd
        ≡ some (bootstrapped_store key first second etcd)
  unfolding bootstrap_supply_chain register_models
  bootstrap_supply_chain-store key first second etcd =
      let s0 = set_supply_chain_policy lib cluster_policy etcd in
      register_models-store lib laws key first "vision-classifier-v3" ((second, "v3") ∷ []) s0
      ∙ register_models-store lib laws key second "v3" []
          (store_with lib laws key first "vision-classifier-v3" s0)

  pub bootstrapped_verified :
      (key : K) (first second : F) (etcd : Etcd F)
      → State.get etcd (revocation_key vision_digest) ≡ none
      → let s2 = bootstrapped_store key first second etcd in
        (verify_artifact_for_execution lib "vision-classifier-v3" (some vision_digest) s2
          ≡ ok (record_of lib laws key first "vision-classifier-v3"))
        × (verify_artifact_for_execution lib "v3" (some vision_digest) s2
            ≡ ok (record_of lib laws key second "v3"))
  bootstrapped_verified key first second etcd clear =
      let s0 = set_supply_chain_policy lib cluster_policy etcd in
      let s1 = store_with lib laws key first "vision-classifier-v3" s0 in
      let s2 = store_with lib laws key second "v3" s1 in
      let p1 = provenance_of first "vision-classifier-v3" in
      let p2 = provenance_of second "v3" in
      let policy0 = policy-set etcd in
      let policy1 = policy-store_with lib laws key first "vision-classifier-v3" s0 in
      let policy2 = policy-store_with lib laws key second "v3" s1 in
      let clear0 = clear-set etcd clear in
      let clear1 =
        get-store_with lib laws key first "vision-classifier-v3" (revocation_key vision_digest) s0
        ∙ rw (model_key-ne-revocation_key, ci_key-ne-revocation_key) clear0 in
      let permits0 =
        subst (λ q. Permits q p1) (sym policy0) (provenance-Permits first "vision-classifier-v3") in
      let permits1 =
        subst (λ q. Permits q p2) (sym (policy1 ∙ policy0)) (provenance-Permits second "v3") in
      let a1 = kept lib laws (get_supply_chain_policy lib s0) key first second s0 (
        registered_Approved lib laws "vision-classifier-v3" vision_digest p1 key signer_id s0
          vision-is_immutable permits0 clear0) in
      let a2 =
        registered_Approved lib laws "v3" vision_digest p2 key signer_id s1 vision-is_immutable
          permits1 clear1 in
      let r1 = record_of lib laws key first "vision-classifier-v3" in
      let r2 = record_of lib laws key second "v3" in
      let v1 = verify_complete lib "vision-classifier-v3" (some vision_digest) s2 r1 (
        subst (λ q. Approved lib q "vision-classifier-v3" (some vision_digest) s2 r1)
          (sym (policy2 ∙ policy1)) a1) in
      let v2 =
        verify_complete lib "v3" (some vision_digest) s2 r2
          (subst (λ q. Approved lib q "v3" (some vision_digest) s2 r2) (sym policy2) a2) in
      (v1, v2)

  -- A cluster that is bootstrapped on a store without a revocation of the vision model's digest raises no error, and both models, requested by that digest, are then verified for execution, whatever the store held before and at whatever times it is done.
  pub bootstrap_supply_chain-verified :
      (key : K) (first second : F) (etcd : Etcd F)
      → State.get etcd (revocation_key vision_digest) ≡ none
      → (etcd' : Etcd F) × ((bootstrap_supply_chain lib key first second etcd ≡ some etcd')
          × All
              (λ name.
                (r : ApprovedArtifactRecord F) × (verify_artifact_for_execution lib name
                    (some vision_digest)
                    etcd'
                  ≡ ok r))
              bootstrapped_models)
  bootstrap_supply_chain-verified key first second etcd clear =
      let (v1, v2) = bootstrapped_verified key first second etcd clear in
      (
        bootstrapped_store key first second etcd,
        (bootstrap_supply_chain-store key first second etcd, ((_, v1), ((_, v2), tt))),
      )
