-- ===== src/Decision/Normalizer.antt =====
-- decision_engine/normalizer.py: `CandidateNormalizer`. The five metrics of a node, which the
-- source keeps in a dictionary with five fixed keys, are a record.
pub mod Range
use distributed_ai_networkin.Prelude.Dict
use distributed_ai_networkin.Prelude.Dict.{Dict}
use distributed_ai_networkin.Prelude.Floats.{Floats, literal, max_float, min_list, max_list, ◌≤ᶠ◌}
use distributed_ai_networkin.Contracts.Models.{NodeTelemetrySnapshot, compute_utilization}
use distributed_ai_networkin.Prelude.{String, List, [], ◌∷◌, if◌then◌else◌, or_default}

pub record Metrics (F : Type 0) : Type 0 where
  pub latency : F
  pub bandwidth : F
  pub compute : F
  pub queue : F
  pub cost : F

-- `{k: f(v) for k, v in d.items()}`
unfoldable pub map_values : {V W : Type 0} → (V → W) → Dict V → Dict W
map_values f [] = []
map_values f ((k, v) ∷ d) = (k, f v) ∷ map_values f d

module _ {F : Type 0} where
  -- `{c.node_id: f(c) for c in candidates}`, onto a dictionary
  unfoldable pub collect :
      {V : Type 0}
      → (NodeTelemetrySnapshot F → V)
      → List (NodeTelemetrySnapshot F)
      → Dict V
      → Dict V
  collect f [] d = d
  collect f (c ∷ rest) d = collect f rest (Dict.put d c.node_id (f c))

module _ {F : Type 0} ⦃fl : Floats F⦄ where
  -- the comprehensions of `_normalize_metric`, from the least value and the spread
  unfoldable pub rescale : F → F → F → F
  rescale min_v spread val =
      if spread ≤ᶠ literal 1 9 then literal 0 0 else fl.div (fl.sub val min_v) spread

  unfoldable pub normalize_values : F → List F → Dict F → Dict F
  normalize_values v vs values =
      let min_v = min_list v vs in
      let spread = fl.sub (max_list v vs) min_v in map_values (rescale min_v spread) values

  unfoldable pub normalize_metric : Dict F → Dict F
  unfolding normalize_values
  normalize_metric [] = []
  normalize_metric ((k, v) ∷ d) = normalize_values v (Dict.values d) ((k, v) ∷ d)

  -- `norm[nid]`; the key is always there
  abbrev pub value_at : Dict F → String → F
  value_at d k = or_default (literal 0 0) (Dict.get d k)

  -- the raw values of the five dimensions
  abbrev pub raw_lat : NodeTelemetrySnapshot F → F
  raw_lat c = c.rtt_ms

  abbrev pub raw_inv_bw : NodeTelemetrySnapshot F → F
  raw_inv_bw c = fl.div (literal 1 0) (max_float c.bandwidth_available_mbps (literal 1 3))

  abbrev pub raw_cmp : NodeTelemetrySnapshot F → F
  raw_cmp c = compute_utilization c

  abbrev pub raw_queue : NodeTelemetrySnapshot F → F
  raw_queue c = literal c.queue_depth 0

  abbrev pub raw_cost : NodeTelemetrySnapshot F → F
  raw_cost c = c.cost_per_1k_inferences_usd

  -- the normalised values of one dimension
  unfoldable pub dimension : (NodeTelemetrySnapshot F → F) → List (NodeTelemetrySnapshot F) → Dict F
  dimension raw candidates = normalize_metric (collect raw candidates [])

  unfoldable pub metrics_of : List (NodeTelemetrySnapshot F) → NodeTelemetrySnapshot F → Metrics F
  metrics_of candidates c = record {
    latency = value_at (dimension raw_lat candidates) c.node_id;
    bandwidth = value_at (dimension raw_inv_bw candidates) c.node_id;
    compute = value_at (dimension raw_cmp candidates) c.node_id;
    queue = value_at (dimension raw_queue candidates) c.node_id;
    cost = value_at (dimension raw_cost candidates) c.node_id;
  }

  unfoldable pub normalize_candidates : List (NodeTelemetrySnapshot F) → Dict (Metrics F)
  normalize_candidates candidates = collect (metrics_of candidates) candidates []
