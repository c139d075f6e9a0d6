-- ===== src/Contracts/Weights.antt =====
-- contracts/sla_profiles.py: the weights of the scoring, their validation and the default profiles.
use distributed_ai_networkin.Prelude.{
  Bool, true, false, ◌&&◌, not, Option, some, [], ◌∷◌, if◌then◌else◌, or_default,
}
use distributed_ai_networkin.Prelude.Dict.{Dict}
use distributed_ai_networkin.Prelude.Floats.{Floats, literal, ◌≤ᶠ◌, ◌<ᶠ◌}
use distributed_ai_networkin.Contracts.Models.{SlaClass, real_time, interactive, batch}

pub record SlaWeights (F : Type 0) : Type 0 where
  pub w_lat : F
  pub w_bw : F
  pub w_cmp : F
  pub w_queue : F
  pub w_cost : F

-- `custom_profiles`: a dictionary by SLA class
abbrev pub Profiles : Type 0 → Type 0
Profiles F = SlaClass → Option (SlaWeights F)

-- SLAClass members are equal only to themselves
unfoldable pub same_class : SlaClass → SlaClass → Bool
same_class real_time real_time = true
same_class interactive interactive = true
same_class batch batch = true
same_class _ _ = false

-- `profiles[c] = w`
abbrev pub set_profile : {F : Type 0} → SlaClass → SlaWeights F → Profiles F → Profiles F
set_profile c w profiles = λ d. if same_class c d then some w else profiles d

module _ {F : Type 0} ⦃fl : Floats F⦄ where
  in_unit : F → Bool
  in_unit w = (literal 0 0 ≤ᶠ w) && (w ≤ᶠ literal 1 0)

  -- `validate_sum` and the bounds of the fields
  unfoldable pub accepts_weights : SlaWeights F → Bool
  unfolding in_unit
  accepts_weights w =
      let total = fl.add (fl.add (fl.add (fl.add w.w_lat w.w_bw) w.w_cmp) w.w_queue) w.w_cost in
      in_unit w.w_lat
      && in_unit w.w_bw
      && in_unit w.w_cmp
      && in_unit w.w_queue
      && in_unit w.w_cost
      && not (literal 1 3 <ᶠ fl.abs (fl.sub total (literal 1 0)))

  unfoldable pub weights_to_dict : SlaWeights F → Dict F
  weights_to_dict w =
      ("latency", w.w_lat)
      ∷ ("bandwidth", w.w_bw)
      ∷ ("compute", w.w_cmp)
      ∷ ("queue", w.w_queue)
      ∷ ("cost", w.w_cost)
      ∷ []

  -- DEFAULT_SLA_PROFILES, which has every class
  unfoldable pub default_profile : SlaClass → SlaWeights F
  default_profile real_time = record {
    w_lat = literal 50 2;
    w_bw = literal 15 2;
    w_cmp = literal 15 2;
    w_queue = literal 15 2;
    w_cost = literal 5 2;
  }
  default_profile interactive = record {
    w_lat = literal 35 2;
    w_bw = literal 15 2;
    w_cmp = literal 20 2;
    w_queue = literal 15 2;
    w_cost = literal 15 2;
  }
  default_profile batch = record {
    w_lat = literal 10 2;
    w_bw = literal 10 2;
    w_cmp = literal 20 2;
    w_queue = literal 20 2;
    w_cost = literal 40 2;
  }

  unfoldable pub get_sla_weights : SlaClass → Profiles F → SlaWeights F
  get_sla_weights c custom = or_default (default_profile c) (custom c)
