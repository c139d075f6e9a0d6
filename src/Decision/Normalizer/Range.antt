-- ===== src/Decision/Normalizer/Range.antt =====
-- The range of the normalised metrics.
use distributed_ai_networkin.Prelude.{
  String, ◌≡◌, ap, ◌∙◌, subst, inl, inr, true, some, List, [], ◌∷◌, Bool-cases, Option-cases, All,
  All-map,
}
use distributed_ai_networkin.Prelude.Floats.Order.{
  le-max_list, min_list-le, max_list-IsMeasure, min_list-IsMeasure, IsMeasure,
}
use distributed_ai_networkin.Decision.Normalizer.{
  raw_cost, raw_queue, raw_cmp, normalize_values, raw_inv_bw, raw_lat, normalize_candidates,
  normalize_metric, value_at, rescale, map_values, dimension, metrics_of, Metrics, collect,
}
use distributed_ai_networkin.Prelude.Floats.{
  max_list, min_list, QuotientLaws, ◌≤ᶠ◌, literal, FloatLaws, Floats,
}
use distributed_ai_networkin.Contracts.Models.{NodeTelemetrySnapshot}
use distributed_ai_networkin.Prelude.Dict
use distributed_ai_networkin.Prelude.Dict.{Dict}

module _ {F : Type 0} ⦃fl : Floats F⦄ where
  -- from 0 to 1, and no NaN
  abbrev pub InUnit : F → Type 0
  InUnit x = (literal 0 0 ≤ᶠ x ≡ true) × (x ≤ᶠ literal 1 0 ≡ true)

  abbrev pub AllInUnit : Metrics F → Type 0
  AllInUnit m =
      InUnit m.latency × InUnit m.bandwidth × InUnit m.compute × InUnit m.queue × InUnit m.cost

  -- The five raw values are finite and not negative.
  abbrev pub IsMeasured : NodeTelemetrySnapshot F → Type 0
  IsMeasured c =
      IsMeasure (raw_lat c)
      × IsMeasure (raw_inv_bw c)
      × IsMeasure (raw_cmp c)
      × IsMeasure (raw_queue c)
      × IsMeasure (raw_cost c)

module _ {F : Type 0} where
  collect-All :
      {V : Type 0} (P : V → Type 0) (f : NodeTelemetrySnapshot F → V)
      (cs : List (NodeTelemetrySnapshot F)) (d : Dict V)
      → All (λ c. P (f c)) cs
      → All P (Dict.values d)
      → All P (Dict.values (collect f cs d))
  unfolding collect
  collect-All P f [] d h hd = hd
  collect-All P f (c ∷ cs) d h hd =
      collect-All P f cs (Dict.put d c.node_id (f c)) h.1 (Dict.put-All P d c.node_id (f c) hd h.0)

All-everywhere : {A : Type 0} (P : A → Type 0) → ((x : A) → P x) → (xs : List A) → All P xs
All-everywhere P h [] = tt
All-everywhere P h (x ∷ xs) = (h x, All-everywhere P h xs)

module _ {F : Type 0} ⦃fl : Floats F⦄ (laws : FloatLaws fl) (quotients : QuotientLaws F) where
  -- a value from `low` to `high`
  abbrev Between : F → F → F → Type 0
  Between low high x = IsMeasure x × (low ≤ᶠ x ≡ true) × (x ≤ᶠ high ≡ true)

  zero-InUnit : InUnit {F = F} (literal 0 0)
  zero-InUnit = (quotients.zero_le_zero, quotients.zero_le_one)

  rescale-InUnit :
      (low high x : F)
      → IsMeasure low
      → IsMeasure high
      → Between low high x
      → InUnit (rescale low (fl.sub high low) x)
  unfolding rescale
  rescale-InUnit low high x hl hh hx = elim (Bool-cases (fl.sub high low ≤ᶠ literal 1 9)) [
    | inl e ↦ rw e zero-InUnit
    | inr e ↦
        let s = fl.sub high low in
        let fs = quotients.sub_finite high low hh.1 hl.1 hh.0 hl.0 in
        rw e (
          subst (λ z. z ≤ᶠ fl.div (fl.sub x low) s ≡ true)
              (ap (λ z. fl.div z s) (quotients.sub_self low hl.1) ∙ quotients.div_zero s fs e)
              (quotients.div_mono (fl.sub low low) (fl.sub x low) s fs e
                (quotients.sub_mono low x low hl.1 hx.0.1 hl.1 hx.1)),
          subst (λ z. fl.div (fl.sub x low) s ≤ᶠ z ≡ true) (quotients.div_self s fs e)
              (quotients.div_mono (fl.sub x low) s s fs e
                (quotients.sub_mono x high low hx.0.1 hh.1 hl.1 hx.2)),
        )
  ]

  map_values-InUnit :
      (low high : F)
      → IsMeasure low
      → IsMeasure high
      → (d : Dict F) → All IsMeasure (Dict.values d)
      → All (λ x. low ≤ᶠ x ≡ true) (Dict.values d)
      → All (λ x. x ≤ᶠ high ≡ true) (Dict.values d)
      → All InUnit (Dict.values (map_values (rescale low (fl.sub high low)) d))
  unfolding map_values
  map_values-InUnit low high hl hh [] h below above = tt
  map_values-InUnit low high hl hh ((k, x) ∷ d) h below above = (
    rescale-InUnit low high x hl hh (h.0, below.0, above.0),
    map_values-InUnit low high hl hh d h.1 below.1 above.1,
  )

  normalize_metric-InUnit :
      (d : Dict F) → All IsMeasure (Dict.values d) → All InUnit (Dict.values (normalize_metric d))
  unfolding normalize_metric normalize_values
  normalize_metric-InUnit [] h = tt
  normalize_metric-InUnit ((k, x) ∷ d) h =
      let xs = Dict.values d in
      map_values-InUnit (min_list x xs) (max_list x xs) (min_list-IsMeasure laws x xs h.0 h.1)
        (max_list-IsMeasure laws x xs h.0 h.1) ((k, x) ∷ d) h (min_list-le laws x xs h.0 h.1)
        (le-max_list laws x xs h.0 h.1)

  value_at-InUnit : (d : Dict F) (k : String) → All InUnit (Dict.values d) → InUnit (value_at d k)
  value_at-InUnit d k h = elim (Option-cases (Dict.get d k)) [
    | inl e ↦ rw e zero-InUnit
    | inr (v, e) ↦ rw e (Dict.get-All InUnit d k v h e)
  ]

  dimension-InUnit :
      (raw : NodeTelemetrySnapshot F → F) (candidates : List (NodeTelemetrySnapshot F)) (k : String)
      → All (λ c. IsMeasure (raw c)) candidates
      → InUnit (value_at (dimension raw candidates) k)
  unfolding dimension
  dimension-InUnit raw candidates k h =
      value_at-InUnit (normalize_metric (collect raw candidates [])) k (
        normalize_metric-InUnit (collect raw candidates [])
          (collect-All IsMeasure raw candidates [] h tt))

  metrics_of-AllInUnit :
      (candidates : List (NodeTelemetrySnapshot F)) (c : NodeTelemetrySnapshot F)
      → All IsMeasured candidates
      → AllInUnit (metrics_of candidates c)
  unfolding metrics_of
  metrics_of-AllInUnit candidates c h = (
    dimension-InUnit raw_lat candidates c.node_id (All-map (λ d m. m.0) candidates h),
    dimension-InUnit raw_inv_bw candidates c.node_id (All-map (λ d m. m.1) candidates h),
    dimension-InUnit raw_cmp candidates c.node_id (All-map (λ d m. m.2) candidates h),
    dimension-InUnit raw_queue candidates c.node_id (All-map (λ d m. m.3) candidates h),
    dimension-InUnit raw_cost candidates c.node_id (All-map (λ d m. m.4) candidates h),
  )

  -- Where the five raw values of every candidate are finite and not negative, each metric that normalisation gives, of whatever node, lies from 0 to 1, also where the values of the pool are all equal.
  pub normalize_candidates-AllInUnit :
      (candidates : List (NodeTelemetrySnapshot F)) (node_id : String) (m : Metrics F)
      → All IsMeasured candidates
      → Dict.get (normalize_candidates candidates) node_id ≡ some m
      → AllInUnit m
  unfolding normalize_candidates
  normalize_candidates-AllInUnit candidates node_id m h =
      Dict.get-All AllInUnit (normalize_candidates candidates) node_id m (
        collect-All AllInUnit (metrics_of candidates) candidates []
          (All-everywhere _ (λ c. metrics_of-AllInUnit candidates c h) candidates) tt)
