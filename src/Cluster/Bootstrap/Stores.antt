-- ===== src/Cluster/Bootstrap/Stores.antt =====
-- What the store holds after each turn of the bootstrap of common/cluster.py.
use distributed_ai_networkin.Prelude.{
  String, ◌≡◌, refl, sym, ap, ◌∙◌, true, false, Option, none, some, List, [], ◌∷◌, arith, ◌==◌,
  eq_refl, if◌then◌else◌,
}
use distributed_ai_networkin.SupplyChain.Laws.{Approved}
use distributed_ai_networkin.SupplyChain.Lifecycle.{
  get-put-etcd, policy-put, approved_record, registered_store, LibraryLaws, Permits,
}
use distributed_ai_networkin.SupplyChain.Keys.{
  model_key-ne-ci_key, ci_key-ne-policy_key, model_key-ne-policy_key, ci_key-ne-revocation_key,
  model_key-ne-revocation_key,
}
use distributed_ai_networkin.Cluster.Bootstrap.{
  register_models, register_with, signer_id, vision_digest, cluster_policy, model_provenance,
}
use distributed_ai_networkin.SupplyChain.{
  register_approved_model, get_supply_chain_policy, ci_key, revocation_key, model_key, Libraries,
}
use distributed_ai_networkin.SupplyChain.Provenance.{create_provenance}
use distributed_ai_networkin.SupplyChain.Digest.{
  matches_digest, hex_digits, is_hex, strip, drop_spaces, is_space, codes, is_immutable_digest,
}
use distributed_ai_networkin.Contracts.Models.{
  ApprovedArtifactRecord, SupplyChainPolicy, ArtifactProvenance,
}
use distributed_ai_networkin.State.{Etcd}
use distributed_ai_networkin.Prelude.Text.{lower}
use distributed_ai_networkin.State
use distributed_ai_networkin.Prelude.Dict

module _ {F K : Type 0} (lib : Libraries F K) where
  -- Approval reads the store at three keys only.
  Approved-agree :
      (policy : SupplyChainPolicy) (model_id : String) (digest : Option String)
      (etcd etcd' : Etcd F) (r : ApprovedArtifactRecord F)
      → State.get etcd' (model_key model_id) ≡ State.get etcd (model_key model_id)
      → State.get etcd' (revocation_key r.digest) ≡ State.get etcd (revocation_key r.digest)
      → State.get etcd' (ci_key r.signing_key_id) ≡ State.get etcd (ci_key r.signing_key_id)
      → Approved lib policy model_id digest etcd r
      → Approved lib policy model_id digest etcd' r
  Approved-agree policy model_id digest etcd etcd' r model revocation ci a = record {
    immutable = a.immutable;
    registered = rw model a.registered;
    agrees = a.agrees;
    active = a.active;
    not_revoked = revocation ∙ a.not_revoked;
    signed = rw ci a.signed;
    built = a.built;
    critical = a.critical;
    high = a.high;
  }

module _ {F : Type 0} where
  abbrev pub provenance_of : F → String → ArtifactProvenance F
  provenance_of now name = record {
    artifact_name = name;
    digest = lower vision_digest;
    builder_identity = "spiffe://distributed-ai.local/ci-builder";
    source_repo = "https://github.com/distributed-ai/orchestration";
    commit_sha = "a1b2c3d4e5f67890123456789abcdef012345678";
    build_timestamp = now;
    sbom_digest = lower "sha256:ba7816bf8f01cfea414140de5dae2223b00361a396177a9cb410ff61f20015ad";
    vulnerabilities_summary = ("CRITICAL", 0) ∷ ("HIGH", 0) ∷ ("MEDIUM", 0) ∷ ("LOW", 0) ∷ [];
  }

  model_provenance_lem :
      (now : F) (name : String) → model_provenance now name ≡ some (provenance_of now name)
  unfolding model_provenance create_provenance is_immutable_digest codes is_space drop_spaces strip
      is_hex hex_digits matches_digest
  model_provenance_lem now name = refl

  pub provenance-Permits :
      (now : F) (name : String) → Permits cluster_policy (provenance_of now name)
  unfolding Dict.get
  provenance-Permits now name = record { built = refl; critical = omega arith; high = omega arith }

pub vision-is_immutable : is_immutable_digest vision_digest ≡ true
unfolding is_immutable_digest codes is_space drop_spaces strip is_hex hex_digits matches_digest
vision-is_immutable = refl

pub models_differ : (model_key "v3" == model_key "vision-classifier-v3") ≡ false
unfolding model_key
models_differ = refl

pub signer_is_no_model : (ci_key signer_id == model_key "vision-classifier-v3") ≡ false
unfolding model_key ci_key
signer_is_no_model = refl

module _ {F K : Type 0} (lib : Libraries F K) (laws : LibraryLaws lib) where
  abbrev pub record_of : K → F → String → ApprovedArtifactRecord F
  record_of key now name =
      approved_record lib laws name vision_digest (provenance_of now name) key signer_id

  abbrev pub store_with : K → F → String → Etcd F → Etcd F
  store_with key now name etcd =
      registered_store lib laws name signer_id (record_of key now name) key etcd

  register_with-store :
      (key : K) (now : F) (name : String) (etcd : Etcd F)
      → register_with lib key name (some (provenance_of now name)) etcd
        ≡ some (store_with key now name etcd)
  unfolding register_approved_model
  register_with-store key now name etcd = rw vision-is_immutable refl

  -- a registration leaves the policy, the other models, the revocations and the signer as they are
  pub policy-store_with :
      (key : K) (now : F) (name : String) (etcd : Etcd F)
      → get_supply_chain_policy lib (store_with key now name etcd)
        ≡ get_supply_chain_policy lib etcd
  policy-store_with key now name etcd =
      policy-put lib (model_key name) (lib.records.encode (record_of key now name))
        (State.put (ci_key signer_id) (lib.signing.public_pem key) etcd)
        (model_key-ne-policy_key name)
      ∙ policy-put lib (ci_key signer_id) (lib.signing.public_pem key) etcd
          (ci_key-ne-policy_key signer_id)

  pub get-store_with :
      (key : K) (now : F) (name j : String) (etcd : Etcd F)
      → State.get (store_with key now name etcd) j ≡ (
          if model_key name == j
          then some (lib.records.encode (record_of key now name))
          else if ci_key signer_id == j
          then some (lib.signing.public_pem key)
          else State.get etcd j)
  get-store_with key now name j etcd = rw (get-put-etcd lib) (rw (get-put-etcd lib) refl)

  ci-store_with :
      (key : K) (now : F) (name : String) (etcd : Etcd F)
      → State.get (store_with key now name etcd) (ci_key signer_id)
        ≡ some (lib.signing.public_pem key)
  ci-store_with key now name etcd =
      get-store_with key now name (ci_key signer_id) etcd
      ∙ rw (model_key-ne-ci_key, eq_refl (ci_key signer_id)) refl

  -- the first model stays approved when the second is registered
  pub kept :
      (policy : SupplyChainPolicy) (key : K) (first second : F) (etcd : Etcd F)
      → let s1 = store_with key first "vision-classifier-v3" etcd in
        let r = record_of key first "vision-classifier-v3" in
        Approved lib policy "vision-classifier-v3" (some vision_digest) s1 r
        → Approved lib policy "vision-classifier-v3"
            (some vision_digest)
            (store_with key second "v3" s1)
            r
  kept policy key first second etcd =
      let s1 = store_with key first "vision-classifier-v3" etcd in
      Approved-agree lib policy "vision-classifier-v3" (some vision_digest) s1
        (store_with key second "v3" s1) (record_of key first "vision-classifier-v3")
        (get-store_with key second "v3" (model_key "vision-classifier-v3") s1
          ∙ rw (models_differ, signer_is_no_model) refl)
        (get-store_with key second "v3" (revocation_key (lower vision_digest)) s1
          ∙ rw (model_key-ne-revocation_key, ci_key-ne-revocation_key) refl)
        (ci-store_with key second "v3" s1
          ∙ sym (ci-store_with key first "vision-classifier-v3" etcd))

  pub register_models-store :
      (key : K) (now : F) (name : String) (rest : List (F × String)) (etcd : Etcd F)
      → register_models lib key ((now, name) ∷ rest) etcd
        ≡ register_models lib key rest (store_with key now name etcd)
  unfolding register_models
  register_models-store key now name rest etcd =
      let made = ap (λ p. register_with lib key name p etcd) (model_provenance_lem now name) in
      ap (λ o. elim o [ none ↦ none | some etcd' ↦ register_models lib key rest etcd' ])
        (made ∙ register_with-store key now name etcd)
