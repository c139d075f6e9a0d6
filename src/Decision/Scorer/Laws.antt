-- ===== src/Decision/Scorer/Laws.antt =====
-- The ranking is the sorted list of the scores of the pool.
use distributed_ai_networkin.Prelude.{
  ◌≡◌, subst, inl, inr, true, false, List, [], ◌∷◌, ◌++◌, arith, Bool-cases, All,
}
use distributed_ai_networkin.Contracts.Weights.{SlaWeights}
use distributed_ai_networkin.Decision.Normalizer.{Metrics}
use distributed_ai_networkin.Prelude.Dict.{Dict}
use mathlib.Core.List.{Perm, perm_middle, append-nil}
use mathlib.Core.List.Perm
use distributed_ai_networkin.Prelude.Floats.{Floats, FloatLaws}
use distributed_ai_networkin.Prelude.Text.Order.{text_asym, text_neg_trans}
use distributed_ai_networkin.Decision.Scorer.{
  Ranked, key_ltb, insert, sort_onto, scores_of, rank_candidates,
}

module _ {F : Type 0} ⦃fl : Floats F⦄ where
  abbrev pub HasFiniteScore : Ranked F → Type 0
  HasFiniteScore r = fl.is_finite r.1 ≡ true

  -- `a` is not ranked behind `b`: its score is lower, or the scores tie and its name is not greater.
  abbrev pub NotBehind : Ranked F → Ranked F → Type 0
  NotBehind a b = key_ltb b a ≡ false

  abbrev pub IsRanked : List (Ranked F) → Type 0
  IsRanked [] = Unit
  IsRanked (x ∷ xs) = All (NotBehind x) xs × IsRanked xs

  insert-perm : (x : Ranked F) (ys : List (Ranked F)) → Perm (insert x ys) (x ∷ ys)
  unfolding insert
  insert-perm x [] = Perm.refl (x ∷ [])
  insert-perm x (y ∷ ys) = elim (Bool-cases (key_ltb x y)) [
    | inl e ↦ rw e (Perm.refl (x ∷ y ∷ ys))
    | inr e ↦ rw e (Perm.trans (Perm.cons y (insert-perm x ys)) (Perm.swap x y ys))
  ]

  sort_onto-perm : (acc xs : List (Ranked F)) → Perm (sort_onto acc xs) (xs ++ acc)
  unfolding sort_onto
  sort_onto-perm acc [] = Perm.refl acc
  sort_onto-perm acc (x ∷ xs) =
      Perm.trans (sort_onto-perm (insert x acc) xs)
        (Perm.trans (Perm.append_left xs (insert-perm x acc)) (perm_middle xs acc))

module _ {F : Type 0} ⦃fl : Floats F⦄ (laws : FloatLaws fl) where
  key_asym :
      (a b : Ranked F)
      → HasFiniteScore a
      → HasFiniteScore b
      → key_ltb a b ≡ true
      → key_ltb b a ≡ false
  key_asym a b fa fb h = ground (
    arith,
    laws.eq_ties a.1 b.1 fa fb,
    laws.eq_ties b.1 a.1 fb fa,
    laws.asym a.1 b.1,
    text_asym a.0 b.0,
  )

  key_neg_trans :
      (a b c : Ranked F)
      → HasFiniteScore a
      → HasFiniteScore b
      → HasFiniteScore c
      → key_ltb a b ≡ false
      → key_ltb b c ≡ false
      → key_ltb a c ≡ false
  key_neg_trans a b c fa fb fc h k = ground (
    arith,
    laws.eq_ties a.1 b.1 fa fb,
    laws.eq_ties b.1 c.1 fb fc,
    laws.eq_ties a.1 c.1 fa fc,
    laws.neg_trans a.1 b.1 c.1 fb,
    laws.neg_trans c.1 a.1 b.1 fa,
    laws.neg_trans b.1 c.1 a.1 fc,
    laws.neg_trans c.1 b.1 a.1 fb,
    laws.neg_trans b.1 a.1 c.1 fa,
    laws.neg_trans a.1 c.1 b.1 fc,
    text_neg_trans a.0 b.0 c.0,
  )

  insert-All :
      (P : Ranked F → Type 0) (x : Ranked F) (ys : List (Ranked F))
      → P x
      → All P ys
      → All P (insert x ys)
  unfolding insert
  insert-All P x [] px h = (px, tt)
  insert-All P x (y ∷ ys) px h = elim (Bool-cases (key_ltb x y)) [
    | inl e ↦ rw e (px, h)
    | inr e ↦ rw e (h.0, insert-All P x ys px h.1)
  ]

  behind-All :
      (x y : Ranked F) (ys : List (Ranked F))
      → HasFiniteScore x
      → HasFiniteScore y
      → All HasFiniteScore ys
      → NotBehind x y
      → All (NotBehind y) ys
      → All (NotBehind x) ys
  behind-All x y [] fx fy fs h hs = tt
  behind-All x y (z ∷ zs) fx fy fs h hs =
      (key_neg_trans z y x fs.0 fy fx hs.0 h, behind-All x y zs fx fy fs.1 h hs.1)

  insert-IsRanked :
      (x : Ranked F) (ys : List (Ranked F))
      → HasFiniteScore x
      → All HasFiniteScore ys
      → IsRanked ys
      → IsRanked (insert x ys)
  unfolding insert
  insert-IsRanked x [] fx fs h = (tt, tt)
  insert-IsRanked x (y ∷ ys) fx fs h = elim (Bool-cases (key_ltb x y)) [
    | inl e ↦
        let before = key_asym x y fx fs.0 e in
        rw e ((before, behind-All x y ys fx fs.0 fs.1 before h.0), h)
    | inr e ↦ rw e (insert-All (NotBehind y) x ys e h.0, insert-IsRanked x ys fx fs.1 h.1)
  ]

  sort_onto-IsRanked :
      (acc xs : List (Ranked F))
      → All HasFiniteScore acc
      → All HasFiniteScore xs
      → IsRanked acc
      → IsRanked (sort_onto acc xs)
  unfolding sort_onto
  sort_onto-IsRanked acc [] fa fs h = h
  sort_onto-IsRanked acc (x ∷ xs) fa fs h =
      sort_onto-IsRanked (insert x acc) xs (insert-All HasFiniteScore x acc fs.0 fa) fs.1
        (insert-IsRanked x acc fs.0 fa h)

  -- If the scores of the pool are finite, the ranking is a rearrangement of the nodes of the pool with
  -- their scores in which no entry is behind a later one: lower scores first, ties by name.
  pub rank_candidates-IsRanked :
      (pool : Dict (Metrics F)) (w : SlaWeights F)
      → All HasFiniteScore (scores_of w pool)
      → Perm (rank_candidates pool w) (scores_of w pool) × IsRanked (rank_candidates pool w)
  unfolding rank_candidates
  rank_candidates-IsRanked pool w fs = (
    subst (Perm (sort_onto [] (scores_of w pool))) (append-nil (scores_of w pool))
        (sort_onto-perm [] (scores_of w pool)),
    sort_onto-IsRanked [] (scores_of w pool) tt fs tt,
  )
