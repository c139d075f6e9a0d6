-- ===== src/Tests/Bill.antt =====
-- The bill of materials at a concrete requirements file, and an identifier at a concrete time.
use distributed_ai_networkin.Contracts.Uuid.{
  generate_uuidv7_lem, time_digits, number_from, generate_uuidv7,
}
use distributed_ai_networkin.Prelude.{
  ℕ, ◌+◌, ◌≡◌, refl, none, some, List, [], ◌∷◌, map, arith, length, take, get_elem?,
}
use distributed_ai_networkin.Tools.Sbom.RoundTrip.{
  IsPackage, drop, IsLibrary, Related, generate_sbom-parse_requirements, blank, pins, pin, AllPlain,
  line_of, comment, Entry,
}
use distributed_ai_networkin.Tools.Sbom.{
  project_name, generate_spdx_sbom, generate_cyclonedx_sbom, parse_requirements, Text,
}
use distributed_ai_networkin.SupplyChain.Digest.{is_space, codes}

abbrev requirements : List Entry
requirements =
    comment (codes " web")
    ∷ pin (record { name = codes "redis"; version = codes "5.2.0" })
    ∷ blank
    ∷ []

requirements-AllPlain : AllPlain requirements
unfolding codes is_space
requirements-AllPlain = (
  record {
    name_spaces = (refl, (refl, (refl, (refl, (refl, tt)))));
    version_spaces = (refl, (refl, (refl, (refl, (refl, tt)))));
    name_equals = (refl, (refl, (refl, (refl, (refl, tt)))));
    begins = refl;
  },
  tt,
)

abbrev digits : ℕ → Text
digits n = n ∷ []

generate_sbom-parse_requirements_example :
    let deps = parse_requirements (some (map line_of requirements)) in
    let components = (generate_cyclonedx_sbom (λ file. none) [] [] deps).components in
    let packages = (generate_spdx_sbom digits [] [] deps).packages in
    (deps ≡ pins requirements)
    × (map (λ c. c.kind) (take 7 components)
        ≡ "application" ∷ "application" ∷ "application" ∷ "application" ∷ "application"
          ∷ "application" ∷ "application" ∷ [])
    × Related IsLibrary (pins requirements) (drop 7 components)
    × (map (λ p. p.name) (take 1 packages) ≡ project_name ∷ [])
    × Related IsPackage (pins requirements) (drop 1 packages)
generate_sbom-parse_requirements_example =
    generate_sbom-parse_requirements requirements (λ file. none) digits [] [] []
      requirements-AllPlain

generate_uuidv7_lem_example :
    let u = generate_uuidv7 1700000000000 (λ i. 200 + i) in
    (number_from 0 (time_digits u) ≡ 1700000000000) × (length u ≡ 36) × (get_elem? u 14 ≡ some 55)
generate_uuidv7_lem_example = generate_uuidv7_lem 1700000000000 (λ i. 200 + i) (omega arith)
