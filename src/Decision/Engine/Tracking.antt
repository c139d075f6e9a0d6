-- ===== src/Decision/Engine/Tracking.antt =====
-- The moving averages of the nodes' scores.
use distributed_ai_networkin.Prelude.{
  String, ◌≡◌, refl, ◌∙◌, subst, inl, inr, false, Option, none, some, List, [], ◌∷◌, arith, ◌==◌,
  eq_iff, if◌then◌else◌, Bool-cases, Option-cases, contains, Distinct,
}
use distributed_ai_networkin.Decision.Engine.{score_of, update_ema, ema_step}
use distributed_ai_networkin.Prelude.Dict.{get-put, Dict}
use distributed_ai_networkin.Decision.Names.{names}
use distributed_ai_networkin.Decision.Scorer.{Ranked}
use distributed_ai_networkin.Prelude.Floats.{literal, Floats}
use distributed_ai_networkin.Prelude.Dict

module _ {F : Type 0} ⦃fl : Floats F⦄ where
  -- the average after one more score
  abbrev pub averaged : F → F → Option F → F
  averaged alpha score none = score
  averaged alpha score (some old) =
      fl.add (fl.mul alpha score) (fl.mul (fl.sub (literal 1 0) alpha) old)

  abbrev pub tracked : F → Option F → Option F → Option F
  tracked alpha old none = old
  tracked alpha old (some score) = some (averaged alpha score old)

  get-ema_step :
      (alpha : F) (ema : Dict F) (r : Ranked F) (k : String)
      → Dict.get (ema_step alpha ema r) k
        ≡ (if r.0 == k then some (averaged alpha r.1 (Dict.get ema r.0)) else Dict.get ema k)
  get-ema_step alpha ema r k = elim (Option-cases (Dict.get ema r.0)) [
    | inl new ↦ rw new (get-put ema r.0 k r.1)
    | inr (old, e) ↦ rw e (get-put ema r.0 k (averaged alpha r.1 (some old)))
  ]

  -- The average of a node that the ranking does not name stays as it was.
  get-update_ema_ne :
      (alpha : F) (ema : Dict F) (ranked : List (Ranked F)) (k : String)
      → contains k (names ranked) ≡ false
      → Dict.get (update_ema alpha ema ranked) k ≡ Dict.get ema k
  unfolding update_ema
  get-update_ema_ne alpha ema [] k h = refl
  get-update_ema_ne alpha ema (r ∷ rest) k h =
      get-update_ema_ne alpha (ema_step alpha ema r) rest k (ground arith)
      ∙ get-ema_step alpha ema r k
      ∙ ground arith

  -- If a ranking names no node twice, the average of a node that it names becomes its score at first,
  -- and later the mix of its score and the old average; the averages of all others are unchanged.
  pub get-update_ema :
      (alpha : F) (ema : Dict F) (ranked : List (Ranked F)) (k : String)
      → Distinct (names ranked)
      → Dict.get (update_ema alpha ema ranked) k
        ≡ tracked alpha (Dict.get ema k) (score_of k ranked)
  unfolding update_ema score_of
  get-update_ema alpha ema [] k h = refl
  get-update_ema alpha ema (r ∷ rest) k h = elim (Bool-cases (r.0 == k)) [
    | inl same ↦ rw same (
        get-update_ema_ne alpha (ema_step alpha ema r) rest k
          (subst (λ n. contains n (names rest) ≡ false) ((eq_iff r.0 k).0 same) h.0)
        ∙ get-ema_step alpha ema r k
        ∙ rw same (rw ((eq_iff r.0 k).0 same) refl))
    | inr other ↦
        let stay : Dict.get (ema_step alpha ema r) k ≡ Dict.get ema k =
          get-ema_step alpha ema r k ∙ rw other refl in
        rw other (rw stay at (get-update_ema alpha (ema_step alpha ema r) rest k h.1))
  ]
