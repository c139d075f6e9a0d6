-- ===== src/Decision/Engine/Choice.antt =====
-- `evaluate_placement` always returns a decision, and one that it scored names only candidates that
-- meet the hard constraints.
use distributed_ai_networkin.Decision.Filter.Laws.{
  filter_candidates_lem, admits_iff, admits, select, Admissible,
}
use distributed_ai_networkin.Decision.Names.{contains-ranking, ranking, node_ids, names}
use distributed_ai_networkin.Prelude.{
  ℕ, zero, suc, String, ◌≡◌, refl, sym, ◌∙◌, ◌⊎◌, inl, inr, Bool, true, false, ◌||◌, Option, none,
  some, List, [], ◌∷◌, arith, ◌==◌, eq_iff, eq_refl, if◌then◌else◌, Bool-cases, Option-cases,
  is_empty, take, contains, All, All-map,
}
use distributed_ai_networkin.Contracts.Models.{
  Reason, PlacementDecision, NodeTelemetrySnapshot, TaskRequest,
}
use distributed_ai_networkin.Decision.Filter.{filter_candidates}
use distributed_ai_networkin.Contracts.Weights.{get_sla_weights, SlaWeights}
use distributed_ai_networkin.Prelude.Dict.{Dict}
use distributed_ai_networkin.Decision.Engine.{
  get_static_fallback_decision, DecisionEngine, score_of, retain_incumbent, place, place_ranked,
  evaluate_placement,
}
use distributed_ai_networkin.Prelude.Floats.{Floats}
use distributed_ai_networkin.Decision.Scorer.{Ranked}

-- Some element has the property.
abbrev pub Any : {A : Type 0} → (A → Type 0) → List A → Type 0
Any P [] = ⊥
Any P (x ∷ xs) = P x ⊎ Any P xs

module _ {F : Type 0} where
  contains-score_of :
      (node : String) (l : List (Ranked F)) {v : F}
      → score_of node l ≡ some v
      → contains node (names l) ≡ true
  unfolding score_of
  contains-score_of node [] h = cc
  contains-score_of node (r ∷ rest) {v} h = ground (arith, contains-score_of node rest {v = v})

All-contains :
    (l m : List String)
    → ((k : String) → contains k l ≡ true → contains k m ≡ true)
    → All (λ k. contains k m ≡ true) l
All-contains [] m h = tt
All-contains (k ∷ l) m h =
    (h k (ground (arith, eq_refl k)), All-contains l m (λ j e. h j (ground arith)))

module _ {F : Type 0} ⦃fl : Floats F⦄ where
  contains-retain_incumbent :
      (margin : F) (best : Ranked F) (rest : List (Ranked F)) (incumbent : Option String)
      → contains (retain_incumbent margin best (best ∷ rest) incumbent).0 (names (best ∷ rest))
        ≡ true
  unfolding retain_incumbent
  contains-retain_incumbent margin best rest none = ground (arith, eq_refl best.0)
  contains-retain_incumbent margin best rest (some i) =
      elim (Option-cases (score_of i (best ∷ rest))) [
        | inl e ↦ ground (arith, eq_refl best.0)
        | inr (v, e) ↦ ground (arith, eq_refl best.0, contains-score_of i (best ∷ rest) {v = v} e)
      ]

module _ {F : Type 0} ⦃fl : Floats F⦄ (e : DecisionEngine F) (task : TaskRequest F) where
  abbrev pub survivors : List (NodeTelemetrySnapshot F) → List (NodeTelemetrySnapshot F)
  survivors = select e.filter_engine task (admits e.filter_engine task)

  -- A candidate of this name meets the hard constraints of the task.
  abbrev pub Sound : List (NodeTelemetrySnapshot F) → String → Type 0
  Sound cs k = Any (λ c. (c.node_id ≡ k) × Admissible e.filter_engine task c) cs

  Sound-survivors :
      (cs : List (NodeTelemetrySnapshot F)) (k : String)
      → contains k (node_ids (survivors cs)) ≡ true
      → Sound cs k
  Sound-survivors [] k h = cc
  Sound-survivors (c ∷ cs) k h = elim (Bool-cases (admits e.filter_engine task c)) [
    | inr no_pass ↦ inr (Sound-survivors cs k (rw no_pass at h))
    | inl pass ↦
        let h' : ((c.node_id == k) || contains k (node_ids (survivors cs))) ≡ true = rw pass at h in
        elim (Bool-cases (c.node_id == k)) [
          | inl same ↦ inl ((eq_iff c.node_id k).0 same, (admits_iff e.filter_engine task c).0 pass)
          | inr other ↦ inr (Sound-survivors cs k (rw other at h'))
        ]
  ]

  -- The decision is the static policy's, or it names only sound nodes.
  abbrev pub SoundDecision : List (NodeTelemetrySnapshot F) → PlacementDecision F → Type 0
  SoundDecision cs d =
      (d.used_fallback_policy ≡ true) ⊎ (Sound cs d.chosen_node × All (Sound cs) d.fallback_chain)

module _ {F : Type 0} where
  All-names-take :
      (P : String → Type 0) (n : ℕ) (l : List (Ranked F))
      → All P (names l)
      → All P (names (take n l))
  All-names-take P zero l h = tt
  All-names-take P (suc n) [] h = tt
  All-names-take P (suc n) (r ∷ l) h = (h.0, All-names-take P n l h.1)

module _ {F : Type 0} ⦃fl : Floats F⦄ (e : DecisionEngine F) (task : TaskRequest F)
    (start finish : F) (incumbent : Option String) (cs : List (NodeTelemetrySnapshot F)) where
  -- the weights that the engine scores with
  abbrev weights : SlaWeights F
  weights = get_sla_weights task.sla_class e.custom_sla_profiles

  abbrev Placed : Option (PlacementDecision F × DecisionEngine F) → Bool → Type 0
  Placed o static =
      (r : PlacementDecision F × DecisionEngine F) × (o ≡ some r)
      × (r.0.used_fallback_policy ≡ static)
      × SoundDecision e task cs r.0

  ranked-Placed :
      (rejected : Dict (Reason F)) (ranked : List (Ranked F)) (first : String)
      → ((k : String) → contains k (names ranked) ≡ true → Sound e task cs k)
      → contains first (names ranked) ≡ true
      → Placed (place_ranked start finish task incumbent rejected ranked e) false
  unfolding place
  ranked-Placed rejected [] first sound h = cc
  ranked-Placed rejected (best ∷ rest) first sound h = (
    place start finish task incumbent rejected best rest e,
    refl,
    refl,
    inr (
      sound (retain_incumbent e.challenger_margin best (best ∷ rest) incumbent).0
          (contains-retain_incumbent e.challenger_margin best rest incumbent),
      All-names-take (Sound e task cs) 3 (best ∷ rest) (
          All-map sound (names (best ∷ rest))
            (All-contains (names (best ∷ rest)) (names (best ∷ rest)) (λ k h. h))),
    ),
  )

  evaluate_placement-survivors : evaluate_placement start finish task cs incumbent e ≡ (
      if is_empty (survivors e task cs)
      then some (
        get_static_fallback_decision start finish task "all_candidates_failed_hard_constraints" e,
        e,
      )
      else place_ranked start finish task incumbent
          (filter_candidates e.filter_engine task cs).1
          (ranking weights (survivors e task cs))
          e)
  unfolding evaluate_placement
  evaluate_placement-survivors = rw ((filter_candidates_lem e.filter_engine task cs).0) refl

  survivors-Placed :
      (s : List (NodeTelemetrySnapshot F))
      → survivors e task cs ≡ s
      → Placed (evaluate_placement start finish task cs incumbent e) (is_empty s)
  unfolding get_static_fallback_decision
  survivors-Placed [] h = rw evaluate_placement-survivors (rw h (_, refl, refl, inl refl))
  survivors-Placed (c ∷ s) h = rw evaluate_placement-survivors (
      rw h (
        ranked-Placed (filter_candidates e.filter_engine task cs).1 (ranking weights (c ∷ s))
          c.node_id
          (λ k there.
            Sound-survivors e task cs k (rw h (sym (contains-ranking weights (c ∷ s) k) ∙ there)))
          (contains-ranking weights (c ∷ s) c.node_id ∙ ground (arith, eq_refl c.node_id))))

  -- Placement always returns a decision. It is the static policy's exactly if no candidate meets the
  -- hard constraints; if it is not, the chosen node and every node of the fallback chain are
  -- candidates that meet all of them.
  pub evaluate_placement_sound :
      (r : PlacementDecision F × DecisionEngine F) × (evaluate_placement start finish task cs
          incumbent e
        ≡ some r)
      × (r.0.used_fallback_policy ≡ is_empty (survivors e task cs))
      × SoundDecision e task cs r.0
  evaluate_placement_sound = survivors-Placed (survivors e task cs) refl
