-- ===== src/Decision/Loading.antt =====
-- The loaders of common/config.py. A file is what `yaml.safe_load` gives of it, and nothing where there
-- is no file.
use distributed_ai_networkin.Prelude.{
  String, ◌≡◌, true, Option, none, some, List, [], ◌∷◌, arith, if◌then◌else◌, or_default,
}
use distributed_ai_networkin.Contracts.Models.{sla_class_of, SlaClass}
use distributed_ai_networkin.Contracts.Weights.{set_profile, accepts_weights, Profiles, SlaWeights}
use distributed_ai_networkin.Prelude.Floats.{Floats}
use distributed_ai_networkin.Prelude.Dict.{Dict}
use distributed_ai_networkin.Decision.Engine.{StaticPolicy}

-- The entries under `profiles`, a mapping where it is there; an entry has weights where pydantic reads
-- all the five as numbers.
pub record WeightsFile (F : Type 0) : Type 0 where
  pub profiles : Option (List (String × Option (SlaWeights F)))

pub record RoutingFile : Type 0 where
  pub default_fallback_chain : Option (List String)
  pub residency_overrides : Option (Dict (List String))

-- the keys of the file; an absent file has none
abbrev routing_keys : Option RoutingFile → RoutingFile
routing_keys none = record { default_fallback_chain = none; residency_overrides = none }
routing_keys (some file) = file

unfoldable pub load_static_routing_policy : Option RoutingFile → StaticPolicy
load_static_routing_policy file = record {
  default_fallback_chain =
      or_default ("edge-frankfurt-1" ∷ "cloud-aws-eu-central" ∷ [])
        (routing_keys file).default_fallback_chain;
  residency_overrides = or_default [] (routing_keys file).residency_overrides;
}

module _ {F : Type 0} ⦃fl : Floats F⦄ where
  abbrev with_class : Option SlaClass → Option (SlaWeights F) → Profiles F → Profiles F
  with_class none w profiles = profiles
  with_class (some c) none profiles = profiles
  with_class (some c) (some w) profiles =
      if accepts_weights w then set_profile c w profiles else profiles

  -- an entry with an unknown class, or weights that are not valid, is skipped
  unfoldable pub load_entry : String → Option (SlaWeights F) → Profiles F → Profiles F
  load_entry key weights profiles = with_class (sla_class_of key) weights profiles

  unfoldable pub load_entries : List (String × Option (SlaWeights F)) → Profiles F → Profiles F
  load_entries [] profiles = profiles
  load_entries ((key, weights) ∷ rest) profiles =
      load_entries rest (load_entry key weights profiles)

  abbrev entries_of : Option (WeightsFile F) → List (String × Option (SlaWeights F))
  entries_of none = []
  entries_of (some file) = or_default [] file.profiles

  unfoldable pub load_sla_weights_from_file : Option (WeightsFile F) → Profiles F
  load_sla_weights_from_file file = load_entries (entries_of file) (λ c. none)

  abbrev AllAccepted : Profiles F → Type 0
  AllAccepted profiles =
      (c : SlaClass) (w : SlaWeights F) → profiles c ≡ some w → accepts_weights w ≡ true

  with_class-AllAccepted :
      (o : Option SlaClass) (weights : Option (SlaWeights F)) (profiles : Profiles F)
      → AllAccepted profiles
      → AllAccepted (with_class o weights profiles)
  with_class-AllAccepted none weights profiles h d v e = h d v e
  with_class-AllAccepted (some c) none profiles h d v e = h d v e
  with_class-AllAccepted (some c) (some w) profiles h d v e = ground (arith, e, h d v)

  load_entries-AllAccepted :
      (entries : List (String × Option (SlaWeights F))) (profiles : Profiles F)
      → AllAccepted profiles
      → AllAccepted (load_entries entries profiles)
  unfolding load_entries load_entry
  load_entries-AllAccepted [] profiles h = h
  load_entries-AllAccepted ((key, weights) ∷ rest) profiles h =
      load_entries-AllAccepted rest (load_entry key weights profiles)
        (with_class-AllAccepted (sla_class_of key) weights profiles h)

  -- Whatever a file of weight profiles holds, every profile that is loaded from it has its weights within their bounds and summing to one.
  pub load_sla_weights_from_file-AllAccepted :
      (file : Option (WeightsFile F)) (c : SlaClass) (w : SlaWeights F)
      → load_sla_weights_from_file file c ≡ some w
      → accepts_weights w ≡ true
  unfolding load_sla_weights_from_file
  load_sla_weights_from_file-AllAccepted file =
      load_entries-AllAccepted (entries_of file) (λ c. none) (λ c w e. ground (arith, e))
