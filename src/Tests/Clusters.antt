-- ===== src/Tests/Clusters.antt =====
-- The bootstrapped cluster at concrete inputs, with records as texts that are read back.
use distributed_ai_networkin.Prelude.{
  ℕ, String, ◌≡◌, refl, ap, ◌↔◌, Bool, Option, none, some, List, All,
}
use distributed_ai_networkin.SupplyChain.Lifecycle.{LibraryLaws}
use distributed_ai_networkin.Tests.Artifacts.{libraries}
use distributed_ai_networkin.Tools.Inspect.Bootstrapped.{main-bootstrapped}
use distributed_ai_networkin.Tests.Pickles.{
  numbers, lists, bools, strings, pairs, codec, through, codec_laws, Pickle,
}
use distributed_ai_networkin.Cluster.Bootstrap.Verified.{bootstrap_supply_chain-verified}
use distributed_ai_networkin.Cluster.Bootstrap.{
  bootstrapped_models, vision_digest, bootstrap_supply_chain,
}
use distributed_ai_networkin.SupplyChain.{
  ok, verify_artifact_for_execution, revocation_key, Libraries,
}
use distributed_ai_networkin.Tests.Instances.{hexes_laws, signing_laws, micros}
use distributed_ai_networkin.Contracts.Models.{
  ApprovedArtifactRecord, ArtifactProvenance, SupplyChainPolicy,
}
use distributed_ai_networkin.Tools.Inspect.{RecordFields, main}
use distributed_ai_networkin.State.{Etcd}
use distributed_ai_networkin.Prelude.Dict
use distributed_ai_networkin.State

abbrev ProvenanceRow : Type 0
ProvenanceRow =
    String × (String × (String × (String × (String × (ℕ × (String × List (String × ℕ)))))))

abbrev provenance_row : ArtifactProvenance ℕ → ProvenanceRow
provenance_row p = (
  p.artifact_name,
  (
    p.digest,
    (
      p.builder_identity,
      (
        p.source_repo,
        (p.commit_sha, (p.build_timestamp, (p.sbom_digest, p.vulnerabilities_summary))),
      ),
    ),
  ),
)

abbrev row_provenance : ProvenanceRow → ArtifactProvenance ℕ
row_provenance (name, (digest, (builder, (repo, (commit, (time, (sbom, vulns))))))) = record {
  artifact_name = name;
  digest = digest;
  builder_identity = builder;
  source_repo = repo;
  commit_sha = commit;
  build_timestamp = time;
  sbom_digest = sbom;
  vulnerabilities_summary = vulns;
}

abbrev provenances : Pickle (ArtifactProvenance ℕ)
provenances =
    through provenance_row row_provenance (λ p. refl)
      (pairs strings (
        pairs strings (
          pairs strings (
            pairs strings
              (pairs strings (pairs numbers (pairs strings (lists (pairs strings numbers)))))))))

abbrev RecordRow : Type 0
RecordRow = String × (String × (ArtifactProvenance ℕ × (String × (String × (String × Bool)))))

abbrev record_row : ApprovedArtifactRecord ℕ → RecordRow
record_row r = (
  r.model_id,
  (r.digest, (r.provenance, (r.signature_algorithm, (r.signature, (r.signing_key_id, r.revoked))))),
)

abbrev row_record : RecordRow → ApprovedArtifactRecord ℕ
row_record (model, (digest, (p, (algorithm, (signature, (key_id, revoked)))))) = record {
  model_id = model;
  digest = digest;
  provenance = p;
  signature_algorithm = algorithm;
  signature = signature;
  signing_key_id = key_id;
  revoked = revoked;
}

abbrev records : Pickle (ApprovedArtifactRecord ℕ)
records =
    through record_row row_record (λ r. refl)
      (pairs strings
        (pairs strings (pairs provenances (pairs strings (pairs strings (pairs strings bools))))))

abbrev PolicyRow : Type 0
PolicyRow = Bool × (Bool × (List String × (ℕ × ℕ)))

abbrev policy_row : SupplyChainPolicy → PolicyRow
policy_row p = (
  p.require_immutable_digest,
  (
    p.require_signature,
    (p.allowed_builders, (p.max_allowed_critical_vulns, p.max_allowed_high_vulns)),
  ),
)

abbrev row_policy : PolicyRow → SupplyChainPolicy
row_policy (immutable, (signed, (builders, (critical, high)))) = record {
  require_immutable_digest = immutable;
  require_signature = signed;
  allowed_builders = builders;
  max_allowed_critical_vulns = critical;
  max_allowed_high_vulns = high;
}

abbrev pub policies : Pickle SupplyChainPolicy
policies =
    through policy_row row_policy (λ p. refl)
      (pairs bools (pairs bools (pairs (lists strings) (pairs numbers numbers))))

abbrev pub pickled : Libraries ℕ ℕ
pickled = record libraries { records = codec records; policies = codec policies }

pub pickled_laws : LibraryLaws pickled
pickled_laws = record { records = codec_laws records; signing = signing_laws; hexes = hexes_laws }

abbrev digest_of : Option (ApprovedArtifactRecord ℕ) → Option (Option String)
digest_of none = none
digest_of (some r) = some (some r.digest)

abbrev fields : RecordFields
fields = record { digest_field = λ s. digest_of ((codec records).decode s) }

bootstrap_supply_chain-verified_example :
    (etcd' : Etcd ℕ) × ((bootstrap_supply_chain pickled 1 1000000 2000000 State.empty ≡ some etcd')
      × All
          (λ name.
            (r : ApprovedArtifactRecord ℕ) × (verify_artifact_for_execution pickled name
                (some vision_digest)
                etcd'
              ≡ ok r))
          bootstrapped_models)
unfolding State.get Dict.get
bootstrap_supply_chain-verified_example =
    bootstrap_supply_chain-verified pickled pickled_laws (codec_laws policies) 1 1000000 2000000
      State.empty refl

abbrev unrevoked : Etcd ℕ
unrevoked = State.empty

main-bootstrapped_example :
    All
      (λ name.
        (main pickled fields 1 1000000 2000000 name none unrevoked ≡ 0)
        ↔ (State.get unrevoked (revocation_key vision_digest) ≡ none))
      bootstrapped_models
main-bootstrapped_example =
    main-bootstrapped pickled pickled_laws (codec_laws policies) fields
      (λ r. ap digest_of ((codec_laws records).decode-encode r)) 1 1000000 2000000 unrevoked
