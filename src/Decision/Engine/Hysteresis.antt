-- ===== src/Decision/Engine/Hysteresis.antt =====
-- The order of the decision, and the incumbent that is kept.
use distributed_ai_networkin.Prelude.{
  ◌≤◌, ◌≡◌, refl, ◌≢◌, true, false, none, some, List, [], ◌∷◌, arith, eq_iff, eq_refl, length,
  get_elem?, All,
}
use distributed_ai_networkin.Decision.Scorer.{key_ltb, Ranked}
use distributed_ai_networkin.Prelude.Floats.{literal, Floats}
use distributed_ai_networkin.Decision.Scorer.Laws.{IsRanked}
use distributed_ai_networkin.Decision.Engine.{score_of, DecisionEngine, retain_incumbent, place}
use distributed_ai_networkin.Contracts.Models.{Reason, TaskRequest}
use distributed_ai_networkin.Prelude.Dict.{Dict}

module _ {F : Type 0} ⦃fl : Floats F⦄ (e : DecisionEngine F) (task : TaskRequest F)
    (start finish : F) (rejected : Dict (Reason F)) where
  -- With no incumbent the chosen node is the first of the chain, and no entry of a ranking in order
  -- goes before it; the runner-up is the second of the chain, if there is one.
  pub place_first :
      (best : Ranked F) (rest : List (Ranked F))
      → IsRanked (best ∷ rest)
      → let d = (place start finish task none rejected best rest e).0 in
        (get_elem? d.fallback_chain 0 ≡ some d.chosen_node)
        × (get_elem? d.fallback_chain 1 ≡ d.runner_up_node)
        × All (λ r. key_ltb r (d.chosen_node, d.chosen_score) ≡ false) rest
        × (length d.fallback_chain ≤ 3)
  unfolding place retain_incumbent
  place_first best [] h = (refl, refl, h.0, omega arith)
  place_first best (r ∷ []) h = (refl, refl, h.0, omega arith)
  place_first best (r ∷ r' ∷ rest) h = (refl, refl, h.0, omega arith)

  -- If the incumbent is the second of the ranking and is kept, the decision reports it as its own
  -- runner-up, and its chain begins with the best node, which was passed over, and then the incumbent.
  pub place-runner_up_self :
      (best second : Ranked F) (rest : List (Ranked F))
      → second.0 ≢ ""
      → second.0 ≢ best.0
      → fl.lt (fl.mul second.1 (fl.sub (literal 1 0) e.challenger_margin)) best.1 ≡ true
      → let d = (place start finish task (some second.0) rejected best (second ∷ rest) e).0 in
        (d.chosen_node ≡ second.0)
        × (d.runner_up_node ≡ some d.chosen_node)
        × (d.runner_up_score ≡ some d.chosen_score)
        × (get_elem? d.fallback_chain 0 ≡ some best.0)
        × (get_elem? d.fallback_chain 1 ≡ some d.chosen_node)
  unfolding place retain_incumbent score_of
  place-runner_up_self best second rest named other kept =
      ground (
        arith,
        eq_iff second.0 "",
        eq_iff second.0 best.0,
        eq_iff best.0 second.0,
        eq_refl second.0,
      )
