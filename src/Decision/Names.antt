-- ===== src/Decision/Names.antt =====
-- The ranking names exactly the nodes of the candidates that it was computed from.
use distributed_ai_networkin.Prelude.{
  String, ◌≡◌, refl, ap, inl, inr, Bool, ◌||◌, List, [], ◌∷◌, map, arith, ◌==◌, Bool-cases,
  contains,
}
use distributed_ai_networkin.Prelude.Dict
use distributed_ai_networkin.Prelude.Dict.{Dict, contains-keys-put}
use distributed_ai_networkin.Prelude.Floats.{Floats}
use distributed_ai_networkin.Contracts.Models.{NodeTelemetrySnapshot}
use distributed_ai_networkin.Contracts.Weights.{SlaWeights}
use distributed_ai_networkin.Decision.Normalizer.{
  Metrics, collect, metrics_of, normalize_candidates,
}
use distributed_ai_networkin.Decision.Scorer.{
  Ranked, key_ltb, insert, sort_onto, scores_of, rank_candidates,
}

module _ {F : Type 0} where
  abbrev pub node_ids : List (NodeTelemetrySnapshot F) → List String
  node_ids = map (λ c. c.node_id)

  abbrev pub names : List (Ranked F) → List String
  names = map (λ r. r.0)

  contains-collect :
      {V : Type 0} (f : NodeTelemetrySnapshot F → V) (cs : List (NodeTelemetrySnapshot F))
      (d : Dict V) (k : String)
      → contains k (Dict.keys (collect f cs d))
        ≡ (contains k (node_ids cs) || contains k (Dict.keys d))
  unfolding collect
  contains-collect f [] d k = refl
  contains-collect f (c ∷ cs) d k = ground (
    arith,
    contains-collect f cs (Dict.put d c.node_id (f c)) k,
    contains-keys-put d c.node_id k (f c),
  )

module _ {F : Type 0} ⦃fl : Floats F⦄ where
  contains-insert :
      (x : Ranked F) (ys : List (Ranked F)) (k : String)
      → contains k (names (insert x ys)) ≡ ((x.0 == k) || contains k (names ys))
  unfolding insert
  contains-insert x [] k = refl
  contains-insert x (y ∷ ys) k = elim (Bool-cases (key_ltb x y)) [
    | inl e ↦ rw e refl
    | inr e ↦ rw e (rw (contains-insert x ys k) (swap_or (y.0 == k) (x.0 == k) _))
  ]
    where
      swap_or : (a b c : Bool) → (a || (b || c)) ≡ (b || (a || c))
      swap_or a b c = ground arith

  contains-sort_onto :
      (acc xs : List (Ranked F)) (k : String)
      → contains k (names (sort_onto acc xs)) ≡ (contains k (names xs) || contains k (names acc))
  unfolding sort_onto
  contains-sort_onto acc [] k = refl
  contains-sort_onto acc (x ∷ xs) k =
      ground (arith, contains-sort_onto (insert x acc) xs k, contains-insert x acc k)

  names-scores_of :
      (w : SlaWeights F) (pool : Dict (Metrics F)) → names (scores_of w pool) ≡ Dict.keys pool
  unfolding scores_of
  names-scores_of w [] = refl
  names-scores_of w ((k, m) ∷ pool) = ap (◌∷◌ k) (names-scores_of w pool)

  abbrev pub ranking : SlaWeights F → List (NodeTelemetrySnapshot F) → List (Ranked F)
  ranking w cs = rank_candidates (normalize_candidates cs) w

  -- A name stands in the ranking exactly if it is that of a candidate.
  pub contains-ranking :
      (w : SlaWeights F) (cs : List (NodeTelemetrySnapshot F)) (k : String)
      → contains k (names (ranking w cs)) ≡ contains k (node_ids cs)
  unfolding rank_candidates normalize_candidates
  contains-ranking w cs k = ground (
    arith,
    contains-sort_onto [] (scores_of w (collect (metrics_of cs) cs [])) k,
    ap (contains k) (names-scores_of w (collect (metrics_of cs) cs [])),
    contains-collect (metrics_of cs) cs [] k,
  )
