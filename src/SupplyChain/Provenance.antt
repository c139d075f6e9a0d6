-- ===== src/SupplyChain/Provenance.antt =====
-- The provenance of an artifact, and the dictionary of it that is signed.
use distributed_ai_networkin.Contracts.Json.{obj, num, int, text, end, field, Fields}
use distributed_ai_networkin.Prelude.Text.{lower, text_ltb}
use distributed_ai_networkin.SupplyChain.Digest.{is_immutable_digest}
use distributed_ai_networkin.Contracts.Models.{ArtifactProvenance}
use distributed_ai_networkin.Prelude.{
  ℕ, String, not, Option, none, some, [], ◌∷◌, if◌then◌else◌, is_empty,
}
use distributed_ai_networkin.Prelude.Dict.{Dict}

-- `dict(sorted(d.items()))`: an entry goes before the first greater key
unfoldable pub insert_vuln : String → ℕ → Dict ℕ → Dict ℕ
insert_vuln k n [] = (k, n) ∷ []
insert_vuln k n ((j, m) ∷ d) =
    if text_ltb k j then (k, n) ∷ (j, m) ∷ d else (j, m) ∷ insert_vuln k n d

unfoldable pub sorted_vulns : Dict ℕ → Dict ℕ
sorted_vulns [] = []
sorted_vulns ((k, n) ∷ d) = insert_vuln k n (sorted_vulns d)

module _ {F : Type 0} where
  unfoldable pub vuln_fields : Dict ℕ → Fields F
  vuln_fields [] = end
  vuln_fields ((k, n) ∷ d) = field k (int n) (vuln_fields d)

  -- the dictionary of `canonical_provenance_bytes`
  unfoldable pub canonical_provenance : ArtifactProvenance F → Fields F
  canonical_provenance p = field "artifact_name" (text p.artifact_name) (
      field "build_timestamp" (num p.build_timestamp) (
        field "builder_identity" (text p.builder_identity) (
          field "commit_sha" (text p.commit_sha) (
            field "digest" (text p.digest) (
              field "sbom_digest" (text p.sbom_digest) (
                field "source_repo" (text p.source_repo) (
                  field "vulnerabilities_summary"
                    (obj (vuln_fields (sorted_vulns p.vulnerabilities_summary))) end)))))))

  -- `create_provenance`, with every argument given; `none` is its ArtifactVerificationError
  unfoldable pub create_provenance :
      F
      → String
      → String
      → String
      → String
      → String
      → Dict ℕ
      → String
      → Option (ArtifactProvenance F)
  create_provenance now name digest builder commit sbom vulns repo =
      if not (is_immutable_digest digest)
      then none
      else some (record {
        artifact_name = name;
        digest = lower digest;
        builder_identity = builder;
        source_repo = repo;
        commit_sha = commit;
        build_timestamp = now;
        sbom_digest = lower sbom;
        vulnerabilities_summary =
            if is_empty vulns
            then ("CRITICAL", 0) ∷ ("HIGH", 0) ∷ ("MEDIUM", 0) ∷ ("LOW", 0) ∷ []
            else vulns;
      })
