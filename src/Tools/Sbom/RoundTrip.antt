-- ===== src/Tools/Sbom/RoundTrip.antt =====
-- A requirements file of pinned lines and comments, read by tools/generate_sbom.py.
use distributed_ai_networkin.Prelude.{
  ℕ, zero, suc, ◌+◌, String, ◌≡◌, refl, sym, ap, ◌∙◌, subst, inl, inr, true, false, ◌||◌, Option,
  none, some, List, [], ◌∷◌, ◌++◌, map, arith, eqb, Bool-cases, is_empty, take, All, All-append,
}
use distributed_ai_networkin.Tools.Sbom.{
  project_name, root_package, Package, purl_of, core_component, generate_spdx_sbom,
  generate_cyclonedx_sbom, library_component, parse_requirements, packages_from, Component,
  parse_stripped, parse_lines, parse_line, split_once, starts_comment, Dependency, Text,
}
use distributed_ai_networkin.SupplyChain.Digest.{codes, is_space, strip, drop_spaces}
use mathlib.Core.List.{reverse, reverse-append, reverse-reverse, reverse-cons}

-- What a line of the file says.
pub data Entry : Type 0 where
  pin : Dependency → Entry
  comment : Text → Entry
  blank : Entry

abbrev pub line_of : Entry → Text
line_of (pin dep) = (dep.name ++ (61 ∷ 61 ∷ dep.version)) ++ (10 ∷ [])
line_of (comment t) = 35 ∷ t
line_of blank = 10 ∷ []

abbrev pub pins : List Entry → List Dependency
pins [] = []
pins (pin dep ∷ entries) = dep ∷ pins entries
pins (comment t ∷ entries) = pins entries
pins (blank ∷ entries) = pins entries

abbrev pub NoSpace : ℕ → Type 0
NoSpace c = is_space c ≡ false

abbrev pub NoEquals : ℕ → Type 0
NoEquals c = eqb c 61 ≡ false

-- A pinned dependency as it is written without spaces: no equals sign in its name, which is not empty
-- and does not begin a comment.
pub record IsPlain (dep : Dependency) : Type 0 where
  pub name_spaces : All NoSpace dep.name
  pub version_spaces : All NoSpace dep.version
  pub name_equals : All NoEquals dep.name
  pub begins : (is_empty dep.name || starts_comment dep.name) ≡ false

abbrev pub AllPlain : List Entry → Type 0
AllPlain [] = Unit
AllPlain (pin dep ∷ entries) = IsPlain dep × AllPlain entries
AllPlain (comment t ∷ entries) = AllPlain entries
AllPlain (blank ∷ entries) = AllPlain entries

drop_spaces-NoSpace : (cs : Text) → All NoSpace cs → drop_spaces cs ≡ cs
unfolding drop_spaces
drop_spaces-NoSpace [] h = refl
drop_spaces-NoSpace (c ∷ cs) h = rw h.0 refl

reverse-All : (cs : Text) → All NoSpace cs → All NoSpace (reverse cs)
reverse-All [] h = tt
reverse-All (c ∷ cs) h =
    subst (All NoSpace) (sym (reverse-cons c cs))
      (All-append NoSpace (reverse cs) (c ∷ []) (reverse-All cs h.1) (h.0, tt))

newline-is_space : is_space 10 ≡ true
unfolding is_space
newline-is_space = refl

-- the end of a text that is stripped there
strip_end : (cs : Text) → All NoSpace cs → reverse (drop_spaces (reverse cs)) ≡ cs
strip_end cs h =
    ap reverse (drop_spaces-NoSpace (reverse cs) (reverse-All cs h)) ∙ reverse-reverse cs

strip-NoSpace : (cs : Text) → All NoSpace cs → strip cs ≡ cs
unfolding strip
strip-NoSpace cs h =
    ap (λ x. reverse (drop_spaces (reverse x))) (drop_spaces-NoSpace cs h) ∙ strip_end cs h

strip-newline : (cs : Text) → All NoSpace cs → strip (cs ++ (10 ∷ [])) ≡ cs
unfolding strip drop_spaces
strip-newline [] h = rw newline-is_space refl
strip-newline (c ∷ cs) h = rw h.0 (
    ap (λ x. reverse (drop_spaces x)) (reverse-append (c ∷ cs) (10 ∷ []))
    ∙ rw newline-is_space (strip_end (c ∷ cs) h))

equals-NoSpace : NoSpace 61
unfolding is_space
equals-NoSpace = refl

split_once-pinned :
    (name version : Text)
    → All NoEquals name
    → split_once 61 61 (name ++ (61 ∷ 61 ∷ version)) ≡ some (name, version)
unfolding split_once
split_once-pinned [] version h = refl
split_once-pinned (c ∷ []) version h = rw h.0 refl
split_once-pinned (c ∷ d ∷ name) version h =
    let rest = split_once-pinned (d ∷ name) version h.1 in rw h.0 (rw rest refl)

drop_spaces-ends : (xs : Text) → (ys : Text) × (drop_spaces (xs ++ (35 ∷ [])) ≡ ys ++ (35 ∷ []))
unfolding drop_spaces is_space
drop_spaces-ends [] = ([], refl)
drop_spaces-ends (x ∷ xs) = elim (Bool-cases (is_space x)) [
  | inl e ↦ let (ys, same) = drop_spaces-ends xs in (ys, rw e same)
  | inr e ↦ (x ∷ xs, rw e refl)
]

-- a comment is still one when it is stripped
strip-comment : (t : Text) → (u : Text) × (strip (35 ∷ t) ≡ 35 ∷ u)
unfolding strip drop_spaces is_space
strip-comment t =
    let (ys, e) = drop_spaces-ends (reverse t) in
    (
      reverse ys,
      ap (λ x. reverse (drop_spaces x)) (reverse-cons 35 t)
          ∙ ap reverse e
          ∙ reverse-append ys (35 ∷ []),
    )

begins_whole :
    (name rest : Text)
    → (is_empty name || starts_comment name) ≡ false
    → (is_empty (name ++ rest) || starts_comment (name ++ rest)) ≡ false
begins_whole [] rest h = ground (arith, h)
begins_whole (c ∷ name) rest h = h

parse_line-pin : (dep : Dependency) → IsPlain dep → parse_line (line_of (pin dep)) ≡ some dep
unfolding parse_line
parse_line-pin dep h =
    let whole = dep.name ++ (61 ∷ 61 ∷ dep.version) in
    let stripped : strip (line_of (pin dep)) ≡ whole = strip-newline whole (
      All-append NoSpace dep.name (61 ∷ 61 ∷ dep.version) h.name_spaces
        (equals-NoSpace, (equals-NoSpace, h.version_spaces))) in
    let split = split_once-pinned dep.name dep.version h.name_equals in
    ap parse_stripped stripped
    ∙ rw (begins_whole dep.name (61 ∷ 61 ∷ dep.version) h.begins) (
        rw split (
          rw (strip-NoSpace dep.name h.name_spaces)
            (rw (strip-NoSpace dep.version h.version_spaces) refl)))

parse_line-comment : (t : Text) → parse_line (line_of (comment t)) ≡ none
unfolding parse_line
parse_line-comment t = let (u, e) = strip-comment t in rw e refl

parse_line-blank : parse_line (line_of blank) ≡ none
unfolding parse_line strip drop_spaces is_space
parse_line-blank = refl

parse_lines-AllPlain :
    (entries : List Entry) → AllPlain entries → parse_lines (map line_of entries) ≡ pins entries
unfolding parse_lines
parse_lines-AllPlain [] h = refl
parse_lines-AllPlain (pin dep ∷ entries) h =
    rw (parse_line-pin dep h.0) (ap (◌∷◌ dep) (parse_lines-AllPlain entries h.1))
parse_lines-AllPlain (comment t ∷ entries) h =
    rw (parse_line-comment t) (parse_lines-AllPlain entries h)
parse_lines-AllPlain (blank ∷ entries) h = rw parse_line-blank (parse_lines-AllPlain entries h)

-- what both documents say of a dependency
abbrev pub package_url : Dependency → Text
package_url dep = codes "pkg:pypi/" ++ (dep.name ++ (codes "@" ++ dep.version))

-- a required library of a CycloneDX document
abbrev pub IsLibrary : Dependency → Component → Type 0
IsLibrary dep c =
    (c.kind ≡ "library")
    × (c.name ≡ dep.name)
    × (c.version ≡ dep.version)
    × (c.scope ≡ some "required")
    × (c.purl ≡ some (package_url dep))

-- a package of an SPDX document
abbrev pub IsPackage : Dependency → Package → Type 0
IsPackage dep p =
    (p.name ≡ dep.name)
    × (p.version_info ≡ dep.version)
    × (p.reference_locator ≡ some (package_url dep))

-- Two lists of one length whose elements are related in their order.
abbrev pub Related : {B : Type 0} → (Dependency → B → Type 0) → List Dependency → List B → Type 0
Related P [] [] = Unit
Related P [] (b ∷ bs) = ⊥
Related P (dep ∷ deps) [] = ⊥
Related P (dep ∷ deps) (b ∷ bs) = P dep b × Related P deps bs

-- a list without its first elements
abbrev pub drop {ℓ} : {A : Type ℓ} → ℕ → List A → List A
drop zero xs = xs
drop (suc n) [] = []
drop (suc n) (x ∷ xs) = drop n xs

libraries-Related : (deps : List Dependency) → Related IsLibrary deps (map library_component deps)
unfolding library_component purl_of codes
libraries-Related [] = tt
libraries-Related (dep ∷ deps) = ((refl, refl, refl, refl, refl), libraries-Related deps)

packages_from-Related :
    (str : ℕ → Text) (i : ℕ) (deps : List Dependency)
    → Related IsPackage deps (packages_from str i deps)
unfolding packages_from purl_of codes
packages_from-Related str i [] = tt
packages_from-Related str i (dep ∷ deps) =
    ((refl, refl, refl), packages_from-Related str (i + 1) deps)

-- From a requirements file whose lines are pinned dependencies without spaces, comments and blank lines, the tool reads exactly the pinned dependencies in their order; after seven components, which are applications, the CycloneDX document has one required library for each, in that order and with its name, version and package URL, and no more; and after the package of the project the SPDX document has one package for each, in that order and with the same, and no more.
pub generate_sbom-parse_requirements :
    (entries : List Entry) (sha256_of : String → Option Text) (str : ℕ → Text)
    (digest timestamp seconds : Text)
    → AllPlain entries
    → let deps = parse_requirements (some (map line_of entries)) in
      let components = (generate_cyclonedx_sbom sha256_of digest timestamp deps).components in
      let packages = (generate_spdx_sbom str seconds timestamp deps).packages in
      (deps ≡ pins entries)
      × (map (λ c. c.kind) (take 7 components)
          ≡ "application" ∷ "application" ∷ "application" ∷ "application" ∷ "application"
            ∷ "application" ∷ "application" ∷ [])
      × Related IsLibrary (pins entries) (drop 7 components)
      × (map (λ p. p.name) (take 1 packages) ≡ project_name ∷ [])
      × Related IsPackage (pins entries) (drop 1 packages)
unfolding parse_requirements generate_cyclonedx_sbom generate_spdx_sbom core_component root_package
generate_sbom-parse_requirements entries sha256_of str digest timestamp seconds h =
    let parsed = parse_lines-AllPlain entries h in
    rw parsed (
      refl,
      refl,
      libraries-Related (pins entries),
      refl,
      packages_from-Related str 1 (pins entries),
    )
