-- ===== src/Decision/Engine.antt =====
-- decision_engine/engine.py: `DecisionEngine`. A method takes the readings of `perf_counter` from
-- which the latency in its result is computed.
pub mod Choice
pub mod Hysteresis
pub mod Tracking
use distributed_ai_networkin.Prelude.{
  ℕ, String, true, false, ◌||◌, Option, none, some, List, [], ◌∷◌, map, ◌==◌, if◌then◌else◌,
  is_empty, or_default, take, get_elem?,
}
use distributed_ai_networkin.Prelude.Dict
use distributed_ai_networkin.Prelude.Dict.{Dict}
use distributed_ai_networkin.Prelude.Text.{lower}
use distributed_ai_networkin.Prelude.Floats.{Floats, literal, ◌<ᶠ◌}
use distributed_ai_networkin.Contracts.Models.{
  TaskRequest, NodeTelemetrySnapshot, PlacementDecision, Reason, system,
}
use distributed_ai_networkin.Contracts.Weights.{Profiles, get_sla_weights, weights_to_dict}
use distributed_ai_networkin.Decision.Filter.{ConstraintFilter, default_filter, filter_candidates}
use distributed_ai_networkin.Decision.Normalizer.{normalize_candidates}
use distributed_ai_networkin.Decision.Scorer.{Ranked, rank_candidates}

-- what `load_static_routing_policy` returns
pub record StaticPolicy : Type 0 where
  pub default_fallback_chain : List String
  pub residency_overrides : Dict (List String)

pub record DecisionEngine (F : Type 0) : Type 0 where
  pub custom_sla_profiles : Profiles F
  pub filter_engine : ConstraintFilter F
  pub ema_alpha : F
  pub challenger_margin : F
  pub node_ema_scores : Dict F
  pub static_policy : StaticPolicy

-- the chain of the static policy: the override of the task's residency, if there is one
unfoldable pub static_chain : StaticPolicy → Option String → List String
static_chain p none = p.default_fallback_chain
static_chain p (some r) =
    if r == ""
    then p.default_fallback_chain
    else or_default p.default_fallback_chain (Dict.get p.residency_overrides (lower r))

module _ {F : Type 0} where
  -- `custom_sla_profiles.update(profiles)`
  unfoldable pub update_sla_profiles : Profiles F → DecisionEngine F → DecisionEngine F
  update_sla_profiles profiles e = record e {
    custom_sla_profiles =
        λ c. elim (profiles c) [ none ↦ e.custom_sla_profiles c | some w ↦ some w ];
  }

  -- the score of a node in the ranking
  unfoldable pub score_of : String → List (Ranked F) → Option F
  score_of node [] = none
  score_of node ((nid, score) ∷ rest) = if nid == node then some score else score_of node rest

  abbrev pub node_at : ℕ → List (Ranked F) → Option String
  node_at i l = elim (get_elem? l i) [ none ↦ none | some r ↦ some r.0 ]

  abbrev pub score_at : ℕ → List (Ranked F) → Option F
  score_at i l = elim (get_elem? l i) [ none ↦ none | some r ↦ some r.1 ]

module _ {F : Type 0} ⦃fl : Floats F⦄ where
  -- `__init__`, with the loaded policy and the defaults
  abbrev pub init : StaticPolicy → DecisionEngine F
  init policy = record {
    custom_sla_profiles = λ c. none;
    filter_engine = default_filter;
    ema_alpha = literal 5 1;
    challenger_margin = literal 10 2;
    node_ema_scores = [];
    static_policy = policy;
  }

  abbrev elapsed : F → F → F
  elapsed start finish = fl.round (fl.mul (fl.sub finish start) (literal 1000 0)) 3

  unfoldable pub get_static_fallback_decision :
      F → F → TaskRequest F → String → DecisionEngine F → PlacementDecision F
  get_static_fallback_decision start finish task reason e =
      let chain = static_chain e.static_policy task.data_residency in
      record {
        task_id = task.task_id;
        chosen_node = or_default "cloud-default-fallback" (get_elem? chain 0);
        chosen_score = literal 1 0;
        runner_up_node = get_elem? chain 1;
        runner_up_score = elim (get_elem? chain 1) [
          | none ↦ none
          | some n ↦ if n == "" then none else some (literal 1 0)
        ];
        weights_used = weights_to_dict (get_sla_weights task.sla_class e.custom_sla_profiles);
        decision_latency_ms = elapsed start finish;
        fallback_chain = chain;
        filtered_out_nodes = ("system", system reason) ∷ [];
        used_fallback_policy = true;
      }

  -- Step 5: the incumbent is kept if the best challenger does not beat it by the margin
  unfoldable pub retain_incumbent : F → Ranked F → List (Ranked F) → Option String → Ranked F
  retain_incumbent margin best ranked none = best
  retain_incumbent margin best ranked (some incumbent) =
      if (incumbent == "") || (incumbent == best.0)
      then best
      else elim (score_of incumbent ranked) [
        | none ↦ best
        | some score ↦
            if fl.mul score (fl.sub (literal 1 0) margin) <ᶠ best.1
            then (incumbent, score)
            else best
      ]

  -- one round of the loop that tracks the scores
  abbrev ema_step : F → Dict F → Ranked F → Dict F
  ema_step alpha ema (nid, score) = Dict.put ema nid (elim (Dict.get ema nid) [
    | none ↦ score
    | some old ↦ fl.add (fl.mul alpha score) (fl.mul (fl.sub (literal 1 0) alpha) old)
  ])

  unfoldable pub update_ema : F → Dict F → List (Ranked F) → Dict F
  update_ema alpha ema [] = ema
  update_ema alpha ema (r ∷ rest) = update_ema alpha (ema_step alpha ema r) rest

  -- Steps 5 and 6, for a ranking with a first entry
  unfoldable pub place :
      F
      → F
      → TaskRequest F
      → Option String
      → Dict (Reason F)
      → Ranked F
      → List (Ranked F)
      → DecisionEngine F
      → PlacementDecision F × DecisionEngine F
  place start finish task incumbent rejected best rest e =
      let ranked = best ∷ rest in
      let chosen = retain_incumbent e.challenger_margin best ranked incumbent in
      (
        record {
          task_id = task.task_id;
          chosen_node = chosen.0;
          chosen_score = chosen.1;
          runner_up_node = node_at 1 ranked;
          runner_up_score = score_at 1 ranked;
          weights_used = weights_to_dict (get_sla_weights task.sla_class e.custom_sla_profiles);
          decision_latency_ms = elapsed start finish;
          fallback_chain = map (λ r. r.0) (take 3 ranked);
          filtered_out_nodes = rejected;
          used_fallback_policy = false;
        },
        record e { node_ema_scores = update_ema e.ema_alpha e.node_ema_scores ranked },
      )

  -- `ranked_scores[0]` raises an IndexError, `none`, if the ranking is empty
  abbrev pub place_ranked :
      F
      → F
      → TaskRequest F
      → Option String
      → Dict (Reason F)
      → List (Ranked F)
      → DecisionEngine F
      → Option (PlacementDecision F × DecisionEngine F)
  place_ranked start finish task incumbent rejected [] e = none
  place_ranked start finish task incumbent rejected (best ∷ rest) e =
      some (place start finish task incumbent rejected best rest e)

  unfoldable pub evaluate_placement :
      F
      → F
      → TaskRequest F
      → List (NodeTelemetrySnapshot F)
      → Option String
      → DecisionEngine F
      → Option (PlacementDecision F × DecisionEngine F)
  evaluate_placement start finish task candidates incumbent e =
      let (surviving, rejected) = filter_candidates e.filter_engine task candidates in
      if is_empty surviving
      then some (
        get_static_fallback_decision start finish task "all_candidates_failed_hard_constraints" e,
        e,
      )
      else place_ranked start finish task incumbent rejected
          (rank_candidates (normalize_candidates surviving)
            (get_sla_weights task.sla_class e.custom_sla_profiles))
          e
