-- ===== src/SupplyChain/Laws.antt =====
-- What a successful verification has established.
use distributed_ai_networkin.SupplyChain.{
  refuse, Refusal, Result, get_supply_chain_policy, verify_artifact_for_execution, builder_allowed,
  verify_artifact_signature, revocation_key, ci_key, model_key, ok, digest_agrees, names_immutable,
  Libraries, fetch_record, verify_record, is_digest_revoked, signature_step,
}
use distributed_ai_networkin.Prelude.{
  ◌≤◌, String, ◌≡◌, refl, subst, ◌⊎◌, inl, inr, true, false, Option, none, some, arith, ◌==◌,
  Bool-cases, Option-cases, or_default,
}
use distributed_ai_networkin.Contracts.Models.{ApprovedArtifactRecord, SupplyChainPolicy}
use distributed_ai_networkin.State.{Etcd}
use distributed_ai_networkin.Prelude.Dict
use distributed_ai_networkin.State

-- The store holds, under the model, a text that parses to this record.
abbrev pub Registered :
    {F K : Type 0} → Libraries F K → String → Etcd F → ApprovedArtifactRecord F → Type 0
Registered lib model_id etcd r =
    (raw : String) × (State.get etcd (model_key model_id) ≡ some raw)
    × ((raw == "") ≡ false)
    × (lib.records.decode raw ≡ some r)

-- The provenance carries a signature of the key that the record names.
abbrev pub Signed : {F K : Type 0} → Libraries F K → Etcd F → ApprovedArtifactRecord F → Type 0
Signed lib etcd r =
    (pem : String) × (State.get etcd (ci_key r.signing_key_id) ≡ some pem)
    × ((pem == "") ≡ false)
    × (verify_artifact_signature lib r.provenance r.signature pem ≡ true)

-- Every condition of the module's documentation, under a policy.
pub record Approved {F K : Type 0} (lib : Libraries F K) (policy : SupplyChainPolicy)
    (model_id : String) (digest : Option String) (etcd : Etcd F) (r : ApprovedArtifactRecord F)
    : Type 0 where
  pub immutable : (policy.require_immutable_digest ≡ false) ⊎ (names_immutable digest ≡ true)
  pub registered : Registered lib model_id etcd r
  pub agrees : digest_agrees digest r.digest ≡ true
  pub active : r.revoked ≡ false
  pub not_revoked : State.get etcd (revocation_key r.digest) ≡ none
  pub signed : (policy.require_signature ≡ false) ⊎ Signed lib etcd r
  pub built : builder_allowed policy.allowed_builders r.provenance.builder_identity ≡ true
  pub critical :
      or_default 0 (Dict.get r.provenance.vulnerabilities_summary "CRITICAL")
      ≤ policy.max_allowed_critical_vulns
  pub high :
      or_default 0 (Dict.get r.provenance.vulnerabilities_summary "HIGH")
      ≤ policy.max_allowed_high_vulns

module _ {F K : Type 0} (lib : Libraries F K) where
  fetch_record-Registered :
      (model_id : String) (etcd : Etcd F) (r : ApprovedArtifactRecord F)
      → fetch_record lib (State.get etcd (model_key model_id)) ≡ ok r
      → Registered lib model_id etcd r
  fetch_record-Registered model_id etcd r h =
      elim (Option-cases (State.get etcd (model_key model_id))) [
        | inl e ↦ absurd (ground arith)
        | inr (raw, e) ↦ (raw, e, ground arith, ground arith)
      ]

  signature_step-Signed :
      (policy : SupplyChainPolicy) (etcd : Etcd F) (r : ApprovedArtifactRecord F)
      → signature_step lib policy etcd r ≡ ok tt
      → (policy.require_signature ≡ false) ⊎ Signed lib etcd r
  signature_step-Signed policy etcd r h = elim (Bool-cases policy.require_signature) [
    | inr off ↦ inl off
    | inl on ↦ elim (Option-cases (State.get etcd (ci_key r.signing_key_id))) [
      | inl e ↦ absurd (ground arith)
      | inr (pem, e) ↦ inr (pem, e, ground arith, ground arith)
    ]
  ]

  -- the facts that `verify_record` establishes
  record Checked (policy : SupplyChainPolicy) (digest : Option String) (etcd : Etcd F)
      (r r' : ApprovedArtifactRecord F) : Type 0 where
    same : r ≡ r'
    agrees : digest_agrees digest r.digest ≡ true
    active : r.revoked ≡ false
    not_revoked : State.get etcd (revocation_key r.digest) ≡ none
    signed : signature_step lib policy etcd r ≡ ok tt
    built : builder_allowed policy.allowed_builders r.provenance.builder_identity ≡ true
    critical :
        or_default 0 (Dict.get r.provenance.vulnerabilities_summary "CRITICAL")
        ≤ policy.max_allowed_critical_vulns
    high :
        or_default 0 (Dict.get r.provenance.vulnerabilities_summary "HIGH")
        ≤ policy.max_allowed_high_vulns

  verify_record-Checked :
      (policy : SupplyChainPolicy) (digest : Option String) (etcd : Etcd F)
      (r r' : ApprovedArtifactRecord F)
      → verify_record lib policy digest etcd r ≡ ok r'
      → Checked policy digest etcd r r'
  unfolding verify_record is_digest_revoked
  verify_record-Checked policy digest etcd r r' h = ground arith

  verified_record :
      (model_id : String) (digest : Option String) (etcd : Etcd F) (r : ApprovedArtifactRecord F)
      → verify_artifact_for_execution lib model_id digest etcd ≡ ok r
      → (r' : ApprovedArtifactRecord F) × (fetch_record lib (State.get etcd (model_key model_id))
          ≡ ok r')
        × (verify_record lib (get_supply_chain_policy lib etcd) digest etcd r' ≡ ok r)
        × (((get_supply_chain_policy lib etcd).require_immutable_digest ≡ false)
            ⊎ (names_immutable digest ≡ true))
  unfolding verify_artifact_for_execution
  verified_record model_id digest etcd r h =
      elim (fetched (fetch_record lib (State.get etcd (model_key model_id)))) [
        | inl (r', e) ↦ (r', e, ground arith, ground arith)
        | inr (why, e) ↦ absurd (ground arith)
      ]
    where
      fetched :
          (o : Result (ApprovedArtifactRecord F))
          → ((r' : ApprovedArtifactRecord F) × (o ≡ ok r')) ⊎ ((why : Refusal) × (o ≡ refuse why))
      fetched (ok r') = inl (r', refl)
      fetched (refuse why) = inr (why, refl)

  -- Fail closed: a verification that succeeds returns the record that is registered for the model,
  -- and every condition holds: an immutable reference (if required), agreement of the digests, no
  -- revocation, a valid signature of a known key (if required), a permitted builder, and counts of
  -- vulnerabilities within the limits.
  pub verify-Approved :
      (model_id : String) (digest : Option String) (etcd : Etcd F) (r : ApprovedArtifactRecord F)
      → verify_artifact_for_execution lib model_id digest etcd ≡ ok r
      → Approved lib (get_supply_chain_policy lib etcd) model_id digest etcd r
  verify-Approved model_id digest etcd r h =
      let (r', fetched, verified, immutable) = verified_record model_id digest etcd r h in
      let policy = get_supply_chain_policy lib etcd in
      let c = verify_record-Checked policy digest etcd r' r verified in
      subst (λ x. Approved lib policy model_id digest etcd x) c.same
        (record {
          immutable = immutable;
          registered = fetch_record-Registered model_id etcd r' fetched;
          agrees = c.agrees;
          active = c.active;
          not_revoked = c.not_revoked;
          signed = signature_step-Signed policy etcd r' c.signed;
          built = c.built;
          critical = c.critical;
          high = c.high;
        })

  -- And nothing else is asked: a record that meets every condition is verified.
  pub verify_complete :
      (model_id : String) (digest : Option String) (etcd : Etcd F) (r : ApprovedArtifactRecord F)
      → Approved lib (get_supply_chain_policy lib etcd) model_id digest etcd r
      → verify_artifact_for_execution lib model_id digest etcd ≡ ok r
  unfolding verify_artifact_for_execution verify_record is_digest_revoked
  verify_complete model_id digest etcd r a =
      let (raw, stored, nonempty, parsed) = a.registered in
      elim a.immutable [
        | inl i ↦ elim a.signed [
          | inl s ↦ ground arith
          | inr (pem, known, pem_nonempty, valid) ↦ ground arith
        ]
        | inr i ↦ elim a.signed [
          | inl s ↦ ground arith
          | inr (pem, known, pem_nonempty, valid) ↦ ground arith
        ]
      ]
