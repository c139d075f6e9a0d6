-- ===== src/Tools/Sbom.antt =====
-- tools/generate_sbom.py, on texts as their code points. Times, digests and the files that exist are
-- arguments.
pub mod RoundTrip
use distributed_ai_networkin.Prelude.{
  ℕ, ◌+◌, String, Bool, false, ◌&&◌, ◌||◌, Option, none, some, List, [], ◌∷◌, ◌++◌, map, eqb,
  if◌then◌else◌, is_empty,
}
use distributed_ai_networkin.SupplyChain.Digest.{codes, strip}
use mathlib.Core.Option

abbrev pub Text : Type 0
Text = List ℕ

pub record Dependency : Type 0 where
  pub name : Text
  pub version : Text

-- s.split(sep, 1) for a separator of two characters; `none` where it is not in the text
unfoldable pub split_once : ℕ → ℕ → Text → Option (Text × Text)
split_once a b [] = none
split_once a b (c ∷ []) = none
split_once a b (c ∷ d ∷ cs) =
    let rest = split_once a b (d ∷ cs) in
    if eqb c a && eqb d b then some ([], cs) else Option.map (λ p. (c ∷ p.0, p.1)) rest

abbrev pub starts_comment : Text → Bool
starts_comment [] = false
starts_comment (c ∷ cs) = eqb c 35

abbrev pub at_least : Option (Text × Text) → Text → Dependency
at_least none line = record { name = strip line; version = codes "unknown" }
at_least (some (name, version)) line = record {
  name = strip name;
  version = codes ">=" ++ strip version;
}

abbrev pub pinned : Option (Text × Text) → Text → Dependency
pinned none line = at_least (split_once 62 61 line) line
pinned (some (name, version)) line = record { name = strip name; version = strip version }

-- a line once stripped; `none` where it is skipped
abbrev pub parse_stripped : Text → Option Dependency
parse_stripped line =
    if is_empty line || starts_comment line
    then none
    else some (pinned (split_once 61 61 line) line)

unfoldable pub parse_line : Text → Option Dependency
parse_line line = parse_stripped (strip line)

abbrev pub appended : Option Dependency → List Dependency → List Dependency
appended none deps = deps
appended (some dep) deps = dep ∷ deps

-- the loop over the lines of the file
unfoldable pub parse_lines : List Text → List Dependency
parse_lines [] = []
parse_lines (line ∷ rest) = appended (parse_line line) (parse_lines rest)

-- `none` is a file that does not exist
unfoldable pub parse_requirements : Option (List Text) → List Dependency
parse_requirements none = []
parse_requirements (some lines) = parse_lines lines

-- A component of CycloneDX; a key that is not set is `none`.
pub record Component : Type 0 where
  pub kind : String
  pub name : Text
  pub version : Text
  pub description : Option Text
  pub sha256 : Option Text
  pub purl : Option Text
  pub scope : Option String

abbrev pub project_name : Text
project_name = codes "distributed-ai-networking"

abbrev pub version_1 : Text
version_1 = codes "1.0.0"

abbrev pub core_modules : List (String × String)
core_modules =
    ("gateway", "gateway/app.py")
    ∷ ("decision_engine", "decision_engine/engine.py")
    ∷ ("scheduler", "scheduler/dispatcher.py")
    ∷ ("node_agent", "node_agent/worker.py")
    ∷ ("results_aggregator", "results_aggregator/aggregator.py")
    ∷ ("telemetry", "telemetry/store.py")
    ∷ ("common", "common/supply_chain.py")
    ∷ []

-- f"pkg:pypi/{dep['name']}@{dep['version']}"
unfoldable pub purl_of : Dependency → Text
purl_of dep = codes "pkg:pypi/" ++ (dep.name ++ (64 ∷ dep.version))

-- with the digest of the file, if it exists
unfoldable pub core_component : (String → Option Text) → String × String → Component
core_component sha256_of (mod_name, file_rel) = record {
  kind = "application";
  name = project_name ++ (47 ∷ codes mod_name);
  version = version_1;
  description = some (codes "Internal microservice/module: " ++ codes mod_name);
  sha256 = sha256_of file_rel;
  purl = none;
  scope = none;
}

unfoldable pub library_component : Dependency → Component
library_component dep = record {
  kind = "library";
  name = dep.name;
  version = dep.version;
  description = none;
  sha256 = none;
  purl = some (purl_of dep);
  scope = some "required";
}

-- The parts of the two documents that depend on anything; `serial` and `timestamp` are of the clock.
pub record CycloneDx : Type 0 where
  pub bom_format : String
  pub spec_version : String
  pub serial_number : Text
  pub version : ℕ
  pub timestamp : Text
  pub components : List Component

unfoldable pub generate_cyclonedx_sbom :
    (String → Option Text) → Text → Text → List Dependency → CycloneDx
generate_cyclonedx_sbom sha256_of md5_of_time timestamp dependencies = record {
  bom_format = "CycloneDX";
  spec_version = "1.5";
  serial_number = codes "urn:uuid:" ++ md5_of_time;
  version = 1;
  timestamp = timestamp;
  components = map (core_component sha256_of) core_modules ++ map library_component dependencies;
}

pub record Package : Type 0 where
  pub spdx_id : Text
  pub name : Text
  pub version_info : Text
  pub download_location : String
  pub package_supplier : Option String
  pub reference_locator : Option Text

unfoldable pub root_package : Package
root_package = record {
  spdx_id = codes "SPDXRef-RootPackage";
  name = project_name;
  version_info = version_1;
  download_location = "https://github.com/distributed-ai/orchestration";
  package_supplier = some "Organization: Distributed AI Security Team";
  reference_locator = none;
}

-- the loop over `enumerate(dependencies, 1)`, from `i` on, with `str` of numbers
unfoldable pub packages_from : (ℕ → Text) → ℕ → List Dependency → List Package
packages_from str i [] = []
packages_from str i (dep ∷ deps) =
    record {
      spdx_id = codes "SPDXRef-Package-" ++ str i;
      name = dep.name;
      version_info = dep.version;
      download_location = "NOASSERTION";
      package_supplier = none;
      reference_locator = some (purl_of dep);
    }
    ∷ packages_from str (i + 1) deps

pub record Spdx : Type 0 where
  pub spdx_version : String
  pub data_license : String
  pub spdx_id : String
  pub name : Text
  pub document_namespace : Text
  pub created : Text
  pub packages : List Package

-- `seconds` is the time as a text
unfoldable pub generate_spdx_sbom : (ℕ → Text) → Text → Text → List Dependency → Spdx
generate_spdx_sbom str seconds created dependencies = record {
  spdx_version = "SPDX-2.3";
  data_license = "CC0-1.0";
  spdx_id = "SPDXRef-DOCUMENT";
  name = project_name ++ codes "-SBOM";
  document_namespace =
      codes "https://spdx.org/spdxdocs/" ++ (project_name ++ (45 ∷ (version_1 ++ (45 ∷ seconds))));
  created = created;
  packages = root_package ∷ packages_from str 1 dependencies;
}
