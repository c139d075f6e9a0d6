-- ===== src/Tests/Placement.antt =====
-- Placement at concrete inputs.
use distributed_ai_networkin.Prelude.{
  ℕ, String, ◌≡◌, refl, ◌↔◌, true, false, ◌&&◌, ◌||◌, not, none, some, List, [], ◌∷◌, arith, ◌==◌,
  eq_iff, is_empty, get_elem?, contains, Distinct,
}
use distributed_ai_networkin.Tests.Instances.{micros_quotients, micros_laws, micros}
use distributed_ai_networkin.Decision.Normalizer.Range.{normalize_candidates-AllInUnit, AllInUnit}
use distributed_ai_networkin.Contracts.Models.{
  compute_utilization, node_unreachable, healthy, standard, edge, interactive, inference,
  PlacementDecision, NodeTelemetrySnapshot, TaskRequest,
}
use distributed_ai_networkin.Decision.Normalizer.{
  collect, map_values, rescale, normalize_values, normalize_metric, dimension, metrics_of,
  normalize_candidates, Metrics,
}
use distributed_ai_networkin.Decision.Scorer.Laws.{rank_candidates-IsRanked, IsRanked}
use distributed_ai_networkin.NodeAgent.Node.{offline_rejected, snapshot_values, SimulatedNode}
use distributed_ai_networkin.Decision.Scorer.{scores_of, rank_candidates, Ranked}
use distributed_ai_networkin.Scheduler.Chain.{candidate_chain_lem, candidate_chain}
use distributed_ai_networkin.Decision.Engine.Hysteresis.{place-runner_up_self}
use distributed_ai_networkin.Decision.Engine.{
  score_of, evaluate_placement, update_ema, StaticPolicy, DecisionEngine, place,
}
use distributed_ai_networkin.Decision.Filter.{rejection, default_filter}
use mathlib.Core.List.{Perm}
use distributed_ai_networkin.Decision.Filter.Laws.{admits_iff, admits, Admissible}
use distributed_ai_networkin.Decision.Engine.Choice.{
  evaluate_placement_sound, SoundDecision, survivors,
}
use distributed_ai_networkin.Contracts.Weights.{get_sla_weights, SlaWeights}
use distributed_ai_networkin.Prelude.Dict
use distributed_ai_networkin.Prelude.Dict.{Dict}
use distributed_ai_networkin.Decision.Engine
use distributed_ai_networkin.Tests.Stores.{edge_1, cloud_1}

abbrev pub task : TaskRequest ℕ
task = record {
  task_id = "t1";
  workload_type = inference;
  model_id = "m1";
  model_digest = none;
  sla_class = interactive;
  payload_ref = "p1";
  max_latency_ms = 500000000;
  data_residency = some "eu";
  idempotency_key = "k1";
  required_assurance_level = standard;
}

abbrev pub candidates : List (NodeTelemetrySnapshot ℕ)
candidates = edge_1 ∷ cloud_1 ∷ []

abbrev pub static_policy : StaticPolicy
static_policy = record { default_fallback_chain = "cloud-1" ∷ []; residency_overrides = [] }

abbrev pub engine : DecisionEngine ℕ
engine = Engine.init static_policy

abbrev pub node_1 : SimulatedNode ℕ
node_1 = record {
  node_id = "edge-1";
  node_class = edge;
  base_rtt_ms = 5000000;
  bandwidth_mbps = 100000000;
  cost_per_1k_usd = 100000;
  data_residency_zones = "eu" ∷ [];
  cpu_util_pct = 20000000;
  gpu_util_pct = 30000000;
  queue_depth = 1;
  health = healthy;
  assurance_level = standard;
  last_heartbeat_time = 0;
  is_offline = false;
  fail_execution = false;
}

abbrev offline_node : SimulatedNode ℕ
offline_node = record node_1 { is_offline = true }

admits_iff_example :
    (admits default_filter task edge_1 ≡ true) ↔ Admissible default_filter task edge_1
admits_iff_example = admits_iff default_filter task edge_1

abbrev pool : Dict (Metrics ℕ)
pool =
    ("edge-1", record { latency = 0; bandwidth = 0; compute = 0; queue = 0; cost = 0 })
    ∷ ("cloud-1", record { latency = 1000000; bandwidth = 0; compute = 0; queue = 0; cost = 0 })
    ∷ []

normalize_candidates-AllInUnit_example :
    AllInUnit {F = ℕ} record { latency = 1000000; bandwidth = 0; compute = 0; queue = 0; cost = 0 }
unfolding normalize_candidates metrics_of dimension normalize_metric normalize_values rescale
    map_values collect compute_utilization micros Dict.get Dict.put
normalize_candidates-AllInUnit_example =
    normalize_candidates-AllInUnit micros_laws micros_quotients candidates "cloud-1"
      record { latency = 1000000; bandwidth = 0; compute = 0; queue = 0; cost = 0 }
      (
        ((refl, refl), (refl, refl), (refl, refl), (refl, refl), (refl, refl)),
        (((refl, refl), (refl, refl), (refl, refl), (refl, refl), (refl, refl)), tt),
      )
      refl

abbrev weights : SlaWeights ℕ
weights = get_sla_weights interactive (λ c. none)

rank_candidates-IsRanked_example :
    Perm (rank_candidates pool weights) (scores_of weights pool)
    × IsRanked (rank_candidates pool weights)
unfolding scores_of micros
rank_candidates-IsRanked_example =
    rank_candidates-IsRanked micros_laws pool weights (refl, (refl, tt))

evaluate_placement_sound_example :
    (r : PlacementDecision ℕ × DecisionEngine ℕ) × (evaluate_placement 0 1000 task candidates none
        engine
      ≡ some r)
    × (r.0.used_fallback_policy ≡ is_empty (survivors engine task candidates))
    × SoundDecision engine task candidates r.0
evaluate_placement_sound_example = evaluate_placement_sound engine task 0 1000 none candidates

abbrev ranking_1 : List (Ranked ℕ)
ranking_1 = ("b", 210000) ∷ ("c", 300000) ∷ []

place-runner_up_self_example :
    let d = (place 0 1000 task (some "b") [] ("a", 200000) (("b", 210000) ∷ []) engine).0 in
    (d.chosen_node ≡ "b")
    × (d.runner_up_node ≡ some d.chosen_node)
    × (d.runner_up_score ≡ some d.chosen_score)
    × (get_elem? d.fallback_chain 0 ≡ some "a")
    × (get_elem? d.fallback_chain 1 ≡ some d.chosen_node)
unfolding micros
place-runner_up_self_example =
    place-runner_up_self engine task 0 1000 [] ("a", 200000) ("b", 210000) []
      (λ e. ground (arith, e, eq_iff "b" "")) (λ e. ground (arith, e, eq_iff "b" "a")) refl

candidate_chain_lem_example :
    Distinct (candidate_chain "a" ("b" ∷ "a" ∷ []))
    × ((k : String)
        → contains k (candidate_chain "a" ("b" ∷ "a" ∷ []))
          ≡ ((not ("a" == "") && ("a" == k)) || contains k ("b" ∷ "a" ∷ [])))
candidate_chain_lem_example = candidate_chain_lem "a" ("b" ∷ "a" ∷ [])

offline_rejected_example :
    rejection default_filter task (snapshot_values 1000000 none offline_node)
    ≡ some node_unreachable
offline_rejected_example = offline_rejected default_filter task 1000000 none offline_node refl
