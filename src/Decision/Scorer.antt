-- ===== src/Decision/Scorer.antt =====
-- decision_engine/scorer.py: `WeightedScorer`. The sort of the standard library is a stable sort by
-- insertion here, by the keys (score, node_id).
pub mod Laws
use distributed_ai_networkin.Prelude.Dict.{Dict}
use distributed_ai_networkin.Prelude.Text.{text_ltb}
use distributed_ai_networkin.Prelude.Floats.{Floats}
use distributed_ai_networkin.Contracts.Weights.{SlaWeights}
use distributed_ai_networkin.Decision.Normalizer.{Metrics}
use distributed_ai_networkin.Prelude.{String, Bool, List, [], ◌∷◌, if◌then◌else◌}

-- an entry (node_id, composite_score) of the ranking
abbrev pub Ranked : Type 0 → Type 0
Ranked F = String × F

module _ {F : Type 0} ⦃fl : Floats F⦄ where
  unfoldable pub calculate_score : Metrics F → SlaWeights F → F
  calculate_score m w =
      let a = fl.add (fl.mul w.w_lat m.latency) (fl.mul w.w_bw m.bandwidth) in
      let b = fl.add a (fl.mul w.w_cmp m.compute) in
      let c = fl.add b (fl.mul w.w_queue m.queue) in fl.round (fl.add c (fl.mul w.w_cost m.cost)) 6

  -- (item[1], item[0]) < (other[1], other[0]): the first components that differ decide
  abbrev pub key_ltb : Ranked F → Ranked F → Bool
  key_ltb a b = if fl.eq a.1 b.1 then text_ltb a.0 b.0 else fl.lt a.1 b.1

  unfoldable pub insert : Ranked F → List (Ranked F) → List (Ranked F)
  insert x [] = x ∷ []
  insert x (y ∷ ys) = if key_ltb x y then x ∷ y ∷ ys else y ∷ insert x ys

  unfoldable pub sort_onto : List (Ranked F) → List (Ranked F) → List (Ranked F)
  sort_onto acc [] = acc
  sort_onto acc (x ∷ xs) = sort_onto (insert x acc) xs

  -- the loop that scores the pool
  unfoldable pub scores_of : SlaWeights F → Dict (Metrics F) → List (Ranked F)
  scores_of w [] = []
  scores_of w ((node_id, metrics) ∷ pool) = (node_id, calculate_score metrics w) ∷ scores_of w pool

  unfoldable pub rank_candidates : Dict (Metrics F) → SlaWeights F → List (Ranked F)
  rank_candidates pool w = sort_onto [] (scores_of w pool)
