-- ===== src/Decision/Filter/Laws.antt =====
-- Who passes the filter, and what is reported of those who do not.
use distributed_ai_networkin.Prelude.{
  refl, subst, Option-cases, Bool-cases, inl, inr, sym, ◌∙◌, ◌||◌, eq_refl, ◌++◌, All, ◌<◌, String,
  ◌≡◌, ◌↔◌, Bool, true, false, ◌&&◌, not, Option, none, some, List, [], ◌∷◌, map, arith,
  if◌then◌else◌, is_some, contains,
}
use distributed_ai_networkin.Prelude.Dict
use distributed_ai_networkin.Prelude.Dict.{get-put, Dict}
use distributed_ai_networkin.Contracts.Models.{
  Reason, TaskRequest, NodeTelemetrySnapshot, compute_utilization,
}
use distributed_ai_networkin.Decision.Filter.{
  filter_from, filter_candidates, ConstraintFilter, is_high, is_unreachable, required_zone,
  misses_zone, cost_ceiling, rejection,
}
use mathlib.Core.List.{append-nil, append_assoc}
use distributed_ai_networkin.Prelude.Text.{lower}
use distributed_ai_networkin.Prelude.Floats.{Floats, literal, ◌<ᶠ◌, ◌≤ᶠ◌}
use distributed_ai_networkin.Telemetry.Validator.{divergence, is_stale, cross_validate_rtt}

-- The measurement of the gateway, if there is one, does not contradict what the node reports.
abbrev pub Agrees : {F : Type 0} ⦃fl : Floats F⦄ → F → F → Option F → Type 0
Agrees limit reported none = Unit
Agrees limit reported (some observed) =
    ((reported ≤ᶠ literal 0 0) ≡ false) × ((limit <ᶠ divergence observed reported) ≡ false)

-- The zone, if one is required, is among those of the node.
abbrev pub Provides : List String → Option String → Type 0
Provides zones none = Unit
Provides zones (some z) = contains z (map lower zones) ≡ true

-- The hard constraints, as the task and the operator state them.
pub record Admissible {F : Type 0} ⦃fl : Floats F⦄ (f : ConstraintFilter F) (task : TaskRequest F)
    (node : NodeTelemetrySnapshot F) : Type 0 where
  pub reachable : is_unreachable node.health ≡ false
  pub fresh : (f.staleness_threshold_ms <ᶠ node.last_heartbeat_age_ms) ≡ false
  pub honest :
      Agrees f.validator.max_allowed_divergence_pct node.rtt_ms node.gateway_observed_rtt_ms
  pub resident : Provides node.data_residency_zones (required_zone task.data_residency)
  pub queue_room : node.queue_depth < f.max_queue_depth
  pub compute_room : (f.max_compute_pct ≤ᶠ compute_utilization node) ≡ false
  pub affordable : (cost_ceiling task.sla_class <ᶠ node.cost_per_1k_inferences_usd) ≡ false
  pub assured :
      (is_high task.required_assurance_level && not (is_high node.assurance_level)) ≡ false

module _ {F : Type 0} ⦃fl : Floats F⦄ (f : ConstraintFilter F) (task : TaskRequest F) where
  abbrev pub admits : NodeTelemetrySnapshot F → Bool
  admits node = not (is_some (rejection f task node))

  -- the candidates that `p` accepts, in their order
  abbrev pub select :
      (NodeTelemetrySnapshot F → Bool)
      → List (NodeTelemetrySnapshot F)
      → List (NodeTelemetrySnapshot F)
  select p [] = []
  select p (n ∷ ns) = let rest = select p ns in if p n then n ∷ rest else rest

  admits_sound : (node : NodeTelemetrySnapshot F) → admits node ≡ true → Admissible f task node
  unfolding rejection is_stale cross_validate_rtt misses_zone
  admits_sound node h = ground arith

  admits_complete : (node : NodeTelemetrySnapshot F) → Admissible f task node → admits node ≡ true
  unfolding rejection is_stale cross_validate_rtt misses_zone
  admits_complete node h = ground arith

  -- The loop lets a candidate through exactly if it meets all eight hard constraints.
  pub admits_iff : (node : NodeTelemetrySnapshot F) → (admits node ≡ true) ↔ Admissible f task node
  admits_iff node = (admits_sound node, admits_complete node)

  filter_from-passed :
      (cs passed : List (NodeTelemetrySnapshot F)) (rejected : Dict (Reason F))
      → (filter_from f task cs passed rejected).0 ≡ passed ++ select admits cs
  unfolding filter_from
  filter_from-passed [] passed rejected = sym (append-nil passed)
  filter_from-passed (c ∷ cs) passed rejected = elim (Option-cases (rejection f task c)) [
    | inl ok ↦
        rw (ok, filter_from)
          (filter_from-passed cs (passed ++ c ∷ []) rejected ∙ append_assoc passed (c ∷ []) _)
    | inr (r, e) ↦
        rw (e, filter_from) (filter_from-passed cs passed (Dict.put rejected c.node_id r))
  ]

  -- a key that is there stays there
  filter_from-keeps :
      (k : String) (cs passed : List (NodeTelemetrySnapshot F)) (rejected : Dict (Reason F))
      → Dict.has rejected k ≡ true
      → Dict.has (filter_from f task cs passed rejected).1 k ≡ true
  unfolding filter_from
  filter_from-keeps k [] passed rejected h = h
  filter_from-keeps k (c ∷ cs) passed rejected h = elim (Option-cases (rejection f task c)) [
    | inl ok ↦ rw (ok, filter_from) (filter_from-keeps k cs (passed ++ c ∷ []) rejected h)
    | inr (r, e) ↦
        rw (e, filter_from)
          (filter_from-keeps k cs passed (Dict.put rejected c.node_id r)
            (ground (arith, get-put rejected c.node_id k r)))
  ]

  abbrev pub Accounted : Dict (Reason F) → NodeTelemetrySnapshot F → Type 0
  Accounted rejected node = (admits node || Dict.has rejected node.node_id) ≡ true

  filter_from-Accounted :
      (cs passed : List (NodeTelemetrySnapshot F)) (rejected final : Dict (Reason F))
      → (filter_from f task cs passed rejected).1 ≡ final
      → All (Accounted final) cs
  unfolding filter_from
  filter_from-Accounted [] passed rejected final e = tt
  filter_from-Accounted (c ∷ cs) passed rejected final e =
      elim (Option-cases (rejection f task c)) [
        | inl ok ↦
            let e' = rw (ok, filter_from) at e in
            (ground arith, filter_from-Accounted cs (passed ++ c ∷ []) rejected final e')
        | inr (r, no_pass) ↦
            let e' = rw (no_pass, filter_from) at e in
            let rejected' = Dict.put rejected c.node_id r in
            let kept =
              filter_from-keeps c.node_id cs passed rejected'
                (ground (arith, get-put rejected c.node_id c.node_id r, eq_refl c.node_id)) in
            (
              rw no_pass (subst (λ d. Dict.has d c.node_id ≡ true) e' kept),
              filter_from-Accounted cs passed rejected' final e',
            )
      ]

  -- The filter passes exactly the admitted candidates, in their order, and each candidate that it
  -- does not pass has an entry with a reason under its node.
  pub filter_candidates_lem :
      (cs : List (NodeTelemetrySnapshot F))
      → ((filter_candidates f task cs).0 ≡ select admits cs)
        × All (Accounted (filter_candidates f task cs).1) cs
  unfolding filter_candidates
  filter_candidates_lem cs = (filter_from-passed cs [] [], filter_from-Accounted cs [] [] _ refl)

  select-Admissible :
      (cs : List (NodeTelemetrySnapshot F)) → All (Admissible f task) (select admits cs)
  select-Admissible [] = tt
  select-Admissible (c ∷ cs) = elim (Bool-cases (admits c)) [
    | inl e ↦ rw e (admits_sound c e, select-Admissible cs)
    | inr e ↦ rw e (select-Admissible cs)
  ]

  -- Every candidate that passes meets all hard constraints.
  pub filter_candidates-Admissible :
      (cs : List (NodeTelemetrySnapshot F))
      → All (Admissible f task) (filter_candidates f task cs).0
  filter_candidates-Admissible cs = rw ((filter_candidates_lem cs).0) (select-Admissible cs)
