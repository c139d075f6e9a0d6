-- ===== src/SupplyChain.antt =====
-- common/supply_chain.py: approval of model artifacts, and their verification before execution.
-- An `ArtifactVerificationError` is a `Refusal` that says which check it comes from.
pub mod Digest
pub mod Keys
pub mod Provenance
pub mod Laws
pub mod Lifecycle
pub mod Binding
use distributed_ai_networkin.Prelude.{
  ℕ, String, Bool, true, false, ◌&&◌, ◌||◌, not, Option, none, some, List, [], ◌∷◌, ◌==◌, leb,
  if◌then◌else◌, is_some, is_empty, or_default, contains,
}
use distributed_ai_networkin.Contracts.Json.{Fields}
use distributed_ai_networkin.Interfaces.{Codec, Hex, Bytes, Signing}
use distributed_ai_networkin.Prelude.Text.{lower}
use distributed_ai_networkin.Contracts.Models.{
  ArtifactProvenance, ApprovedArtifactRecord, SupplyChainPolicy,
}
use distributed_ai_networkin.Prelude.Dict.{Dict}
use distributed_ai_networkin.State.{Etcd}
use distributed_ai_networkin.Prelude.Dict
use Prim.Native.String.{◌++◌ as ◌&◌}
use distributed_ai_networkin.State
use distributed_ai_networkin.SupplyChain.Provenance.{canonical_provenance}
use distributed_ai_networkin.SupplyChain.Digest.{is_immutable_digest}

pub data Refusal : Type 0 where
  mutable_reference : Refusal
  not_registered : Refusal
  corrupted_record : Refusal
  digest_mismatch : Refusal
  digest_revoked : Refusal
  signing_key_not_found : Refusal
  signature_invalid : Refusal
  builder_not_permitted : Refusal
  critical_vulnerabilities : ℕ → Refusal
  high_vulnerabilities : ℕ → Refusal

pub data Result {ℓ} (A : Type ℓ) : Type ℓ where
  ok : A → Result A
  refuse : Refusal → Result A

infixl 5 ◌>>=◌ ◌>>◌
abbrev pub ◌>>=◌ {ℓ κ} : {A : Type ℓ} {B : Type κ} → Result A → (A → Result B) → Result B
ok a >>= f = f a
refuse r >>= f = refuse r

abbrev pub ◌>>◌ {ℓ} : {B : Type ℓ} → Result (Unit {0}) → Result B → Result B
m >> k = m >>= λ _. k

-- `if not test: raise`
abbrev pub check : Bool → Refusal → Result (Unit {0})
check true r = ok tt
check false r = refuse r

-- the keys of the store
unfoldable pub model_key : String → String
model_key model_id = "/distributed-ai/artifacts/models/" & model_id

unfoldable pub ci_key : String → String
ci_key key_id = "/distributed-ai/ci/keys/" & key_id

unfoldable pub revocation_key : String → String
revocation_key digest = "/distributed-ai/revocations/artifacts/" & lower digest

unfoldable pub policy_key : String
policy_key = "/distributed-ai/policies/supply-chain"

-- the libraries that the module calls
pub record Libraries (F K : Type 0) : Type 0 where
  pub signing : Signing K
  pub hexes : Hex
  pub policies : Codec SupplyChainPolicy
  pub records : Codec (ApprovedArtifactRecord F)
  -- json.dumps(…, sort_keys=True, separators=(",", ":")).encode("utf-8")
  pub dumps : Fields F → Bytes
  -- the payload of a revocation, from its digest, time and reason
  pub revocation : String → F → String → String

-- SupplyChainPolicy()
abbrev pub default_policy : SupplyChainPolicy
default_policy = record {
  require_immutable_digest = true;
  require_signature = true;
  allowed_builders = "spiffe://distributed-ai.local/ci-builder" ∷ [];
  max_allowed_critical_vulns = 0;
  max_allowed_high_vulns = 0;
}

-- `digest and is_immutable_digest(digest)`
abbrev pub names_immutable : Option String → Bool
names_immutable none = false
names_immutable (some d) = not (d == "") && is_immutable_digest d

-- `not (digest and record.digest.lower() != digest.lower())`
abbrev pub digest_agrees : Option String → String → Bool
digest_agrees none approved = true
digest_agrees (some d) approved = (d == "") || (lower approved == lower d)

-- `not (allowed and builder not in allowed)`
abbrev pub builder_allowed : List String → String → Bool
builder_allowed allowed builder = is_empty allowed || contains builder allowed

module _ {F K : Type 0} (lib : Libraries F K) where
  unfoldable pub canonical_provenance_bytes : ArtifactProvenance F → Bytes
  canonical_provenance_bytes p = lib.dumps (canonical_provenance p)

  unfoldable pub sign_artifact_provenance : ArtifactProvenance F → K → String
  unfolding canonical_provenance_bytes
  sign_artifact_provenance p key =
      lib.hexes.hex (lib.signing.sign key (canonical_provenance_bytes p))

  unfoldable pub verify_artifact_signature : ArtifactProvenance F → String → String → Bool
  unfolding canonical_provenance_bytes
  verify_artifact_signature p signature_hex pem = elim (lib.hexes.fromhex signature_hex) [
    | none ↦ false
    | some sig ↦ lib.signing.verify pem sig (canonical_provenance_bytes p)
  ]

  -- `raw` is what the store holds: nothing, an empty text and a text that does not parse give the default
  abbrev parse_policy : Option String → SupplyChainPolicy
  parse_policy none = default_policy
  parse_policy (some raw) =
      if raw == "" then default_policy else or_default default_policy (lib.policies.decode raw)

  unfoldable pub get_supply_chain_policy : Etcd F → SupplyChainPolicy
  get_supply_chain_policy etcd = parse_policy (State.get etcd policy_key)

  unfoldable pub set_supply_chain_policy : SupplyChainPolicy → Etcd F → Etcd F
  set_supply_chain_policy policy etcd = State.put policy_key (lib.policies.encode policy) etcd

  -- the record, or nothing where the digest is refused, and the store
  unfoldable pub register_approved_model :
      String
      → String
      → ArtifactProvenance F
      → K
      → String
      → Etcd F
      → Option (ApprovedArtifactRecord F) × Etcd F
  register_approved_model model_id digest p key key_id etcd =
      if not (is_immutable_digest digest)
      then (none, etcd)
      else (let approved : ApprovedArtifactRecord F = record {
        model_id = model_id;
        digest = lower digest;
        provenance = p;
        signature_algorithm = "Ed25519";
        signature = sign_artifact_provenance p key;
        signing_key_id = key_id;
        revoked = false;
      } in
          (
            some approved,
            State.put (model_key model_id) (lib.records.encode approved)
                (State.put (ci_key key_id) (lib.signing.public_pem key) etcd),
          ))

  unfoldable pub revoke_artifact_digest : F → String → String → Etcd F → Etcd F
  revoke_artifact_digest now digest reason etcd =
      State.put (revocation_key digest) (lib.revocation (lower digest) now reason) etcd

  unfoldable pub is_digest_revoked : Etcd F → String → Bool
  is_digest_revoked etcd digest = is_some (State.get etcd (revocation_key digest))

  abbrev fetch_record : Option String → Result (ApprovedArtifactRecord F)
  fetch_record none = refuse not_registered
  fetch_record (some raw) =
      if raw == ""
      then refuse not_registered
      else elim (lib.records.decode raw) [ none ↦ refuse corrupted_record | some r ↦ ok r ]

  abbrev check_signature : ApprovedArtifactRecord F → Option String → Result (Unit {0})
  check_signature r none = refuse signing_key_not_found
  check_signature r (some pem) =
      if pem == ""
      then refuse signing_key_not_found
      else check (verify_artifact_signature r.provenance r.signature pem) signature_invalid

  abbrev pub signature_step :
      SupplyChainPolicy → Etcd F → ApprovedArtifactRecord F → Result (Unit {0})
  signature_step policy etcd r =
      if policy.require_signature
      then check_signature r (State.get etcd (ci_key r.signing_key_id))
      else ok tt

  -- the checks of a record: digest, revocation, signature, builder, vulnerabilities
  unfoldable pub verify_record :
      SupplyChainPolicy
      → Option String
      → Etcd F
      → ApprovedArtifactRecord F
      → Result (ApprovedArtifactRecord F)
  verify_record policy digest etcd r = do
    check (digest_agrees digest r.digest) digest_mismatch
    check (not (r.revoked || is_digest_revoked etcd r.digest)) digest_revoked
    signature_step policy etcd r
    check (builder_allowed policy.allowed_builders r.provenance.builder_identity)
        builder_not_permitted
    let vulns = r.provenance.vulnerabilities_summary
    let crit = or_default 0 (Dict.get vulns "CRITICAL")
    let high = or_default 0 (Dict.get vulns "HIGH")
    check (leb crit policy.max_allowed_critical_vulns) (critical_vulnerabilities crit)
    check (leb high policy.max_allowed_high_vulns) (high_vulnerabilities high)
    ok r

  unfoldable pub verify_artifact_for_execution :
      String → Option String → Etcd F → Result (ApprovedArtifactRecord F)
  verify_artifact_for_execution model_id digest etcd = do
    let policy = get_supply_chain_policy etcd
    check (not policy.require_immutable_digest || names_immutable digest) mutable_reference
    r ← fetch_record (State.get etcd (model_key model_id))
    verify_record policy digest etcd r
