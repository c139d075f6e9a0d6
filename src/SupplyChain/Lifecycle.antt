-- ===== src/SupplyChain/Lifecycle.antt =====
-- Registration and revocation, against a later verification.
use distributed_ai_networkin.Prelude.{
  ◌≤◌, String, ◌≡◌, refl, sym, ◌∙◌, subst, ◌≢◌, inr, true, false, Option, none, some, arith, ◌==◌,
  eq_iff, eq_refl, if◌then◌else◌, or_default,
}
use distributed_ai_networkin.SupplyChain.Keys.{
  model_key-ne-ci_key, ci_key-ne-revocation_key, ci_key-ne-policy_key, model_key-ne-revocation_key,
  model_key-ne-policy_key,
}
use distributed_ai_networkin.SupplyChain.Laws.{verify_complete, Approved, verify-Approved}
use distributed_ai_networkin.Prelude.Text.Lower.{lower_idem}
use distributed_ai_networkin.SupplyChain.{
  canonical_provenance_bytes, ci_key, model_key, verify_artifact_signature,
  sign_artifact_provenance, ok, builder_allowed, policy_key, revocation_key, Libraries,
  register_approved_model, revoke_artifact_digest, verify_artifact_for_execution,
  get_supply_chain_policy,
}
use distributed_ai_networkin.SupplyChain.Digest.{is_immutable_digest}
use distributed_ai_networkin.Prelude.Text.{lower}
use distributed_ai_networkin.Interfaces.{HexLaws, SigningLaws, CodecLaws}
use distributed_ai_networkin.Prelude.Dict.{get-put}
use distributed_ai_networkin.Contracts.Models.{
  ArtifactProvenance, ApprovedArtifactRecord, SupplyChainPolicy,
}
use distributed_ai_networkin.State.{Etcd, put, get}
use distributed_ai_networkin.Prelude.Dict
use distributed_ai_networkin.State

-- The laws of the libraries on which a registration relies.
pub record LibraryLaws {F K : Type 0} (lib : Libraries F K) : Type 0 where
  pub records : CodecLaws lib.records
  pub signing : SigningLaws lib.signing
  pub hexes : HexLaws lib.hexes

-- What the policy asks of a provenance.
pub record Permits {F : Type 0} (policy : SupplyChainPolicy) (p : ArtifactProvenance F)
    : Type 0 where
  pub built : builder_allowed policy.allowed_builders p.builder_identity ≡ true
  pub critical :
      or_default 0 (Dict.get p.vulnerabilities_summary "CRITICAL")
      ≤ policy.max_allowed_critical_vulns
  pub high :
      or_default 0 (Dict.get p.vulnerabilities_summary "HIGH") ≤ policy.max_allowed_high_vulns

module _ {F K : Type 0} (lib : Libraries F K) where
  pub get-put-etcd :
      (key j value : String) (etcd : Etcd F)
      → State.get (State.put key value etcd) j ≡ (if key == j then some value else State.get etcd j)
  unfolding put get
  get-put-etcd key j value etcd = get-put etcd.kv key j value

  pub policy-put :
      (key value : String) (etcd : Etcd F)
      → (key == policy_key) ≡ false
      → get_supply_chain_policy lib (State.put key value etcd) ≡ get_supply_chain_policy lib etcd
  unfolding get_supply_chain_policy
  policy-put key value etcd h = rw get-put-etcd (rw h refl)

  pub same_revocation : (d d' : String) → lower d ≡ lower d' → revocation_key d ≡ revocation_key d'
  unfolding revocation_key
  same_revocation d d' e = rw e refl

  -- Once a digest is revoked, no verification returns a record with that digest, in whatever case the
  -- digest is written, for any model and any request.
  pub revoke_never_verified :
      (now : F) (digest reason model_id : String) (request : Option String) (etcd : Etcd F)
      (r : ApprovedArtifactRecord F)
      → verify_artifact_for_execution lib model_id request
          (revoke_artifact_digest lib now digest reason etcd)
        ≡ ok r
      → lower r.digest ≢ lower digest
  unfolding revoke_artifact_digest
  revoke_never_verified now digest reason model_id request etcd r h same =
      let a = verify-Approved lib model_id request _ r h in
      ground (
        arith,
        a.not_revoked,
        get-put-etcd (revocation_key digest) (revocation_key r.digest)
            (lib.revocation (lower digest) now reason) etcd,
        eq_iff (revocation_key digest) (revocation_key r.digest),
        same_revocation digest r.digest (sym same),
      )

  module _ (laws : LibraryLaws lib) where
    -- what the store holds after a registration
    abbrev pub registered_store : String → String → ApprovedArtifactRecord F → K → Etcd F → Etcd F
    registered_store model_id key_id r key etcd =
        State.put (model_key model_id) (lib.records.encode r)
          (State.put (ci_key key_id) (lib.signing.public_pem key) etcd)

    abbrev pub approved_record :
        String → String → ArtifactProvenance F → K → String → ApprovedArtifactRecord F
    approved_record model_id digest p key key_id = record {
      model_id = model_id;
      digest = lower digest;
      provenance = p;
      signature_algorithm = "Ed25519";
      signature = sign_artifact_provenance lib p key;
      signing_key_id = key_id;
      revoked = false;
    }

    signature_verifies :
        (p : ArtifactProvenance F) (key : K)
        → verify_artifact_signature lib p
            (sign_artifact_provenance lib p key)
            (lib.signing.public_pem key)
          ≡ true
    unfolding verify_artifact_signature sign_artifact_provenance
    signature_verifies p key =
        rw
          (
            laws.hexes.fromhex-hex (lib.signing.sign key (canonical_provenance_bytes lib p)),
            verify_artifact_signature,
          )
          (laws.signing.verify-sign key (canonical_provenance_bytes lib p))

    pub registered_Approved :
        (model_id digest : String) (p : ArtifactProvenance F) (key : K) (key_id : String)
        (etcd : Etcd F)
        → is_immutable_digest digest ≡ true
        → Permits (get_supply_chain_policy lib etcd) p
        → State.get etcd (revocation_key digest) ≡ none
        → let r = approved_record model_id digest p key key_id in
          let store = registered_store model_id key_id r key etcd in
          Approved lib (get_supply_chain_policy lib etcd) model_id (some digest) store r
    unfolding is_immutable_digest
    registered_Approved model_id digest p key key_id etcd immutable permits clear =
        let r = approved_record model_id digest p key key_id in
        let pem = lib.signing.public_pem key in
        let raw = lib.records.encode r in
        let middle = State.put (ci_key key_id) pem etcd in
        record {
          immutable = inr (ground arith);
          registered = (
            raw,
            rw get-put-etcd (rw (eq_refl (model_key model_id)) refl),
            laws.records.encode-ne-empty r,
            laws.records.decode-encode r,
          );
          agrees = ground (arith, eq_iff (lower (lower digest)) (lower digest), lower_idem digest);
          active = refl;
          not_revoked = ground (
            arith,
            same_revocation (lower digest) digest (lower_idem digest),
            clear,
            get-put-etcd (model_key model_id) (revocation_key digest) raw middle,
            get-put-etcd (ci_key key_id) (revocation_key digest) pem etcd,
            model_key-ne-revocation_key model_id digest,
            ci_key-ne-revocation_key key_id digest,
          );
          signed = inr (
            pem,
            ground (
              arith,
              get-put-etcd (model_key model_id) (ci_key key_id) raw middle,
              get-put-etcd (ci_key key_id) (ci_key key_id) pem etcd,
              eq_refl (ci_key key_id),
              model_key-ne-ci_key model_id key_id,
            ),
            laws.signing.public_pem-ne-empty key,
            signature_verifies p key,
          );
          built = permits.built;
          critical = permits.critical;
          high = permits.high;
        }

    -- A model registered with an immutable digest that is not revoked, and a provenance that the
    -- policy permits, is verified for execution when it is requested by that digest.
    pub register_then_verify :
        (model_id digest : String) (p : ArtifactProvenance F) (key : K) (key_id : String)
        (etcd : Etcd F)
        → is_immutable_digest digest ≡ true
        → Permits (get_supply_chain_policy lib etcd) p
        → State.get etcd (revocation_key digest) ≡ none
        → let (registered, store) = register_approved_model lib model_id digest p key key_id etcd in
          (r : ApprovedArtifactRecord F) × (registered ≡ some r)
          × (verify_artifact_for_execution lib model_id (some digest) store ≡ ok r)
    unfolding register_approved_model
    register_then_verify model_id digest p key key_id etcd immutable permits clear =
        let r = approved_record model_id digest p key key_id in
        let store = registered_store model_id key_id r key etcd in
        let same_policy : get_supply_chain_policy lib store ≡ get_supply_chain_policy lib etcd =
          policy-put (model_key model_id) (lib.records.encode r)
            (State.put (ci_key key_id) (lib.signing.public_pem key) etcd)
            (model_key-ne-policy_key model_id)
          ∙ policy-put (ci_key key_id) (lib.signing.public_pem key) etcd
              (ci_key-ne-policy_key key_id) in
        let verified = verify_complete lib model_id (some digest) store r (
          subst (λ policy. Approved lib policy model_id (some digest) store r) (sym same_policy)
            (registered_Approved model_id digest p key key_id etcd immutable permits clear)) in
        (r, rw immutable refl, rw immutable verified)
