-- ===== src/Prelude/Floats/Order.antt =====
-- The order of finite numbers, and the least and the greatest of a list.
use mathlib.Core.Path.{◌≡◌}
use mathlib.Core.Bool.{true}
use mathlib.Core.List.{List, [], ◌∷◌}
use native.Mathlib.Omega.{arith}
use distributed_ai_networkin.Prelude.Lists.{All}
use distributed_ai_networkin.Prelude.Floats.{
  Floats, FloatLaws, literal, ◌≤ᶠ◌, min_float, max_float, min_list, max_list,
}

module _ {F : Type 0} ⦃fl : Floats F⦄ where
  -- A finite value that is not negative.
  abbrev pub IsMeasure : F → Type 0
  IsMeasure x = (literal 0 0 ≤ᶠ x ≡ true) × (fl.is_finite x ≡ true)

module _ {F : Type 0} ⦃fl : Floats F⦄ (laws : FloatLaws fl) where
  pub le_refl : (a : F) → fl.is_finite a ≡ true → a ≤ᶠ a ≡ true
  le_refl a h = ground (arith, laws.eq_ties a a h h, laws.asym a a)

  pub le_trans :
      (a b c : F)
      → fl.is_finite a ≡ true
      → fl.is_finite b ≡ true
      → fl.is_finite c ≡ true
      → a ≤ᶠ b ≡ true
      → b ≤ᶠ c ≡ true
      → a ≤ᶠ c ≡ true
  le_trans a b c fa fb fc h k = ground (
    arith,
    laws.eq_ties a b fa fb,
    laws.eq_ties b c fb fc,
    laws.eq_ties a c fa fc,
    laws.neg_trans c b a fb,
    laws.asym a b,
    laws.asym b c,
  )

  min_float-le :
      (a b : F)
      → fl.is_finite a ≡ true
      → fl.is_finite b ≡ true
      → (min_float a b ≤ᶠ a ≡ true) × (min_float a b ≤ᶠ b ≡ true)
  min_float-le a b fa fb =
      ground (arith, le_refl a fa, le_refl b fb, laws.eq_ties a b fa fb, laws.eq_ties b a fb fa)

  le-max_float :
      (a b : F)
      → fl.is_finite a ≡ true
      → fl.is_finite b ≡ true
      → (a ≤ᶠ max_float a b ≡ true) × (b ≤ᶠ max_float a b ≡ true)
  le-max_float a b fa fb =
      ground (arith, le_refl a fa, le_refl b fb, laws.eq_ties a b fa fb, laws.eq_ties b a fb fa)

  min_float-IsMeasure : (a b : F) → IsMeasure a → IsMeasure b → IsMeasure (min_float a b)
  min_float-IsMeasure a b ha hb = ground (arith, ha.0, ha.1, hb.0, hb.1)

  max_float-IsMeasure : (a b : F) → IsMeasure a → IsMeasure b → IsMeasure (max_float a b)
  max_float-IsMeasure a b ha hb = ground (arith, ha.0, ha.1, hb.0, hb.1)

  pub min_list-IsMeasure :
      (a : F) (xs : List F) → IsMeasure a → All IsMeasure xs → IsMeasure (min_list a xs)
  min_list-IsMeasure a [] ha h = ha
  min_list-IsMeasure a (x ∷ xs) ha h =
      min_list-IsMeasure (min_float a x) xs (min_float-IsMeasure a x ha h.0) h.1

  pub max_list-IsMeasure :
      (a : F) (xs : List F) → IsMeasure a → All IsMeasure xs → IsMeasure (max_list a xs)
  max_list-IsMeasure a [] ha h = ha
  max_list-IsMeasure a (x ∷ xs) ha h =
      max_list-IsMeasure (max_float a x) xs (max_float-IsMeasure a x ha h.0) h.1

  -- The least of a list is at most each of its elements.
  pub min_list-le :
      (a : F) (xs : List F)
      → IsMeasure a
      → All IsMeasure xs
      → All (λ x. min_list a xs ≤ᶠ x ≡ true) (a ∷ xs)
  min_list-le a [] ha h = (le_refl a ha.1, tt)
  min_list-le a (x ∷ xs) ha h =
      let m = min_float-IsMeasure a x ha h.0 in
      let least = min_list-IsMeasure (min_float a x) xs m h.1 in
      let below = min_float-le a x ha.1 h.0.1 in
      let rest = min_list-le (min_float a x) xs m h.1 in
      (
        le_trans (min_list (min_float a x) xs) (min_float a x) a least.1 m.1 ha.1 rest.0 below.0,
        (
          le_trans (min_list (min_float a x) xs) (min_float a x) x least.1 m.1 h.0.1 rest.0 below.1,
          rest.1,
        ),
      )

  -- The greatest of a list is at least each of its elements.
  pub le-max_list :
      (a : F) (xs : List F)
      → IsMeasure a
      → All IsMeasure xs
      → All (λ x. x ≤ᶠ max_list a xs ≡ true) (a ∷ xs)
  le-max_list a [] ha h = (le_refl a ha.1, tt)
  le-max_list a (x ∷ xs) ha h =
      let m = max_float-IsMeasure a x ha h.0 in
      let most = max_list-IsMeasure (max_float a x) xs m h.1 in
      let above = le-max_float a x ha.1 h.0.1 in
      let rest = le-max_list (max_float a x) xs m h.1 in
      (
        le_trans a (max_float a x) (max_list (max_float a x) xs) ha.1 m.1 most.1 above.0 rest.0,
        (
          le_trans x (max_float a x) (max_list (max_float a x) xs) h.0.1 m.1 most.1 above.1 rest.0,
          rest.1,
        ),
      )
