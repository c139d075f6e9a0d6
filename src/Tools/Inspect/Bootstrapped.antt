-- ===== src/Tools/Inspect/Bootstrapped.antt =====
-- The exit status of tools/verify_supply_chain.py for the models that it bootstraps.
use distributed_ai_networkin.Prelude.{
  String, ◌≡◌, refl, sym, ap, ◌∙◌, subst, ◌↔◌, none, some, arith, eq_iff, eq_refl, if◌then◌else◌,
  All,
}
use distributed_ai_networkin.SupplyChain.Lifecycle.{get-put-etcd, same_revocation, LibraryLaws}
use distributed_ai_networkin.Tools.Inspect.{
  passes_ok, exit_of, passes, target_digest, inspect_and_verify_model, main, RecordFields,
}
use distributed_ai_networkin.Cluster.Bootstrap.Verified.{
  bootstrapped_verified, bootstrap_supply_chain-store, bootstrapped_store,
}
use distributed_ai_networkin.Cluster.Bootstrap.Stores.{
  vision-is_immutable, record_of, get-store_with, store_with, signer_is_no_model, models_differ,
}
use distributed_ai_networkin.Cluster.Bootstrap.{bootstrapped_models, cluster_policy, vision_digest}
use distributed_ai_networkin.SupplyChain.Keys.{
  policy_key-ne-revocation_key, ci_key-ne-revocation_key, model_key-ne-revocation_key,
}
use distributed_ai_networkin.SupplyChain.{
  policy_key, ok, revocation_key, model_key, verify_artifact_for_execution, set_supply_chain_policy,
  Libraries,
}
use distributed_ai_networkin.SupplyChain.Laws.{verify-Approved}
use distributed_ai_networkin.State.{Etcd}
use distributed_ai_networkin.Contracts.Models.{ApprovedArtifactRecord}
use distributed_ai_networkin.Interfaces.{CodecLaws}
use distributed_ai_networkin.Prelude.Text.{lower}
use distributed_ai_networkin.State

-- The digest of a dumped record is read back.
abbrev ReadsDigest : {F K : Type 0} → Libraries F K → RecordFields → Type 0
ReadsDigest lib fields =
    (r : ApprovedArtifactRecord _)
    → fields.digest_field (lib.records.encode r) ≡ some (some r.digest)

lower-vision_digest : lower vision_digest ≡ vision_digest
unfolding lower
lower-vision_digest = refl

module _ {F K : Type 0} (lib : Libraries F K) (laws : LibraryLaws lib)
    (policies : CodecLaws lib.policies) (fields : RecordFields)
    (reads : ReadsDigest lib fields) where
  -- a revocation is as it was before the bootstrap
  revocation-bootstrapped :
      (key : K) (first second : F) (etcd : Etcd F)
      → State.get
          (bootstrapped_store lib laws policies key first second etcd)
          (revocation_key vision_digest)
        ≡ State.get etcd (revocation_key vision_digest)
  unfolding set_supply_chain_policy
  revocation-bootstrapped key first second etcd =
      let s0 = set_supply_chain_policy lib cluster_policy etcd in
      let s1 = store_with lib laws key first "vision-classifier-v3" s0 in
      get-store_with lib laws key second "v3" (revocation_key vision_digest) s1
      ∙ rw (model_key-ne-revocation_key, ci_key-ne-revocation_key)
          (get-store_with lib laws key first "vision-classifier-v3" (revocation_key vision_digest)
              s0
            ∙ rw (model_key-ne-revocation_key, ci_key-ne-revocation_key)
                (get-put-etcd lib policy_key (revocation_key vision_digest)
                    (lib.policies.encode cluster_policy) etcd
                  ∙ rw (policy_key-ne-revocation_key vision_digest) refl))

  -- what is verified for the digest is not revoked
  verified-clear :
      (model_id : String) (etcd : Etcd F) (r : ApprovedArtifactRecord F)
      → verify_artifact_for_execution lib model_id (some vision_digest) etcd ≡ ok r
      → State.get etcd (revocation_key vision_digest) ≡ none
  verified-clear model_id etcd r h =
      let a = verify-Approved lib model_id (some vision_digest) etcd r h in
      let same : lower r.digest ≡ lower vision_digest =
        ground (arith, a.agrees, eq_iff (lower r.digest) (lower vision_digest)) in
      subst (λ k. State.get etcd k ≡ none) (same_revocation lib r.digest vision_digest same)
        a.not_revoked

  main_for :
      (key : K) (first second : F) (etcd : Etcd F) (model_id : String)
      (r : ApprovedArtifactRecord F)
      → let s2 = bootstrapped_store lib laws policies key first second etcd in
        State.get s2 (model_key model_id) ≡ some (lib.records.encode r)
        → r.digest ≡ vision_digest
        → (State.get etcd (revocation_key vision_digest) ≡ none
            → verify_artifact_for_execution lib model_id (some vision_digest) s2 ≡ ok r)
        → (main lib fields key first second model_id none etcd ≡ 0)
          ↔ (State.get etcd (revocation_key vision_digest) ≡ none)
  unfolding main inspect_and_verify_model
  main_for key first second etcd model_id r stored mine verified =
      let s2 = bootstrapped_store lib laws policies key first second etcd in
      let target : target_digest lib fields model_id none s2 ≡ some vision_digest =
        rw stored (rw (laws.records.encode-ne-empty r) (rw (reads r) (ap some mine))) in
      let v = verify_artifact_for_execution lib model_id (some vision_digest) s2 in
      let ran = bootstrap_supply_chain-store lib laws policies key first second etcd in
      let shown : inspect_and_verify_model lib fields model_id none s2 ≡ passes lib fields v =
        rw target (rw vision-is_immutable refl) in
      let exit : main lib fields key first second model_id none etcd
          ≡ (if passes lib fields v then 0 else 1) =
        ap (exit_of lib fields model_id none) ran ∙ ap (λ b. if b then 0 else 1) shown in
      (
        λ zero_status.
            let (r', e) = passes_ok lib fields v (ground (arith, exit, zero_status)) in
            sym (revocation-bootstrapped key first second etcd) ∙ verified-clear model_id s2 r' e,
        λ clear. exit ∙ rw (verified clear) refl,
      )

  -- For each of the two models, and without a digest given, the tool exits with 0 exactly if the digest of the vision model was not revoked when it started: it then finds the digest in the record that the bootstrap has stored, and the record passes the verification.
  pub main-bootstrapped :
      (key : K) (first second : F) (etcd : Etcd F)
      → All
          (λ name.
            (main lib fields key first second name none etcd ≡ 0)
            ↔ (State.get etcd (revocation_key vision_digest) ≡ none))
          bootstrapped_models
  main-bootstrapped key first second etcd =
      let s1 =
        store_with lib laws key first "vision-classifier-v3"
          (set_supply_chain_policy lib cluster_policy etcd) in
      (
        main_for key first second etcd "vision-classifier-v3"
            (record_of lib laws key first "vision-classifier-v3")
            (get-store_with lib laws key second "v3" (model_key "vision-classifier-v3") s1
              ∙ rw (models_differ, signer_is_no_model)
                  (get-store_with lib laws key first "vision-classifier-v3"
                      (model_key "vision-classifier-v3")
                      (set_supply_chain_policy lib cluster_policy etcd)
                    ∙ rw (eq_refl (model_key "vision-classifier-v3")) refl))
            lower-vision_digest
            (λ clear. (bootstrapped_verified lib laws policies key first second etcd clear).0),
        (
          main_for key first second etcd "v3" (record_of lib laws key second "v3")
              (get-store_with lib laws key second "v3" (model_key "v3") s1
                ∙ rw (eq_refl (model_key "v3")) refl)
              lower-vision_digest
              (λ clear. (bootstrapped_verified lib laws policies key first second etcd clear).1),
          tt,
        ),
      )
