-- ===== src/Prelude/Floats.antt =====
-- Python's `float`. The model takes its operations as an argument; every theorem that needs a law
-- of floating-point arithmetic takes it from `FloatLaws`, and all others hold whatever they do.
pub mod Order
use Prim.Native.Nat.{ℕ}
use mathlib.Core.Path.{◌≡◌}
use mathlib.Core.Bool.{Bool, true, false, ◌||◌, ◌&&◌, not}
use mathlib.Core.List.{List, [], ◌∷◌}
use distributed_ai_networkin.Prelude.Tests.{if◌then◌else◌}

pub record Floats (F : Type 0) : Type 0 where
  -- the literal m / 10^k, and float(n) as `literal n 0`
  pub literal : ℕ → ℕ → F
  pub add : F → F → F
  pub sub : F → F → F
  pub mul : F → F → F
  pub div : F → F → F
  pub abs : F → F
  -- round(x, k)
  pub round : F → ℕ → F
  -- a < b and a == b, both false where a side is a NaN
  pub lt : F → F → Bool
  pub eq : F → F → Bool
  -- math.isfinite
  pub is_finite : F → Bool

module _ {F : Type 0} ⦃fl : Floats F⦄ where
  abbrev pub literal : ℕ → ℕ → F
  literal = fl.literal

  infix 50 ◌<ᶠ◌ ◌≤ᶠ◌
  abbrev pub ◌<ᶠ◌ : F → F → Bool
  a <ᶠ b = fl.lt a b

  abbrev pub ◌≤ᶠ◌ : F → F → Bool
  a ≤ᶠ b = fl.lt a b || fl.eq a b

  -- max(a, b) and min(a, b) keep the first argument unless the second is beyond it
  abbrev pub max_float : F → F → F
  max_float a b = if fl.lt a b then b else a

  abbrev pub min_float : F → F → F
  min_float a b = if fl.lt b a then b else a

  -- max(xs) and min(xs) of a list that begins with `a`
  abbrev pub max_list : F → List F → F
  max_list a [] = a
  max_list a (b ∷ bs) = max_list (max_float a b) bs

  abbrev pub min_list : F → List F → F
  min_list a [] = a
  min_list a (b ∷ bs) = min_list (min_float a b) bs

-- What IEEE 754 says of finite values: `<` is a strict weak order with `==` for its ties, and
-- rounding keeps the order of differences from one number, and of quotients by one number.
pub record FloatLaws {F : Type 0} (fl : Floats F) : Type 0 where
  pub asym : (a b : F) → fl.lt a b ≡ true → fl.lt b a ≡ false
  pub neg_trans :
      (a b c : F)
      → fl.is_finite b ≡ true
      → fl.lt a b ≡ false
      → fl.lt b c ≡ false
      → fl.lt a c ≡ false
  pub eq_ties :
      (a b : F)
      → fl.is_finite a ≡ true
      → fl.is_finite b ≡ true
      → fl.eq a b ≡ (not (fl.lt a b) && not (fl.lt b a))

-- What IEEE 754 says of the differences and quotients of finite values: a difference from one number
-- and a quotient by one positive number keep the order, `a - a` is 0, `0 / s` is 0 and `s / s` is 1,
-- and the difference of two values that are not negative does not overflow.
pub record QuotientLaws (F : Type 0) ⦃fl : Floats F⦄ : Type 0 where
  pub zero_le_zero : fl.literal 0 0 ≤ᶠ fl.literal 0 0 ≡ true
  pub zero_le_one : fl.literal 0 0 ≤ᶠ fl.literal 1 0 ≡ true
  pub sub_self : (a : F) → fl.is_finite a ≡ true → fl.sub a a ≡ fl.literal 0 0
  pub sub_mono :
      (a b c : F)
      → fl.is_finite a ≡ true
      → fl.is_finite b ≡ true
      → fl.is_finite c ≡ true
      → a ≤ᶠ b ≡ true
      → fl.sub a c ≤ᶠ fl.sub b c ≡ true
  pub sub_finite :
      (a b : F)
      → fl.is_finite a ≡ true
      → fl.is_finite b ≡ true
      → fl.literal 0 0 ≤ᶠ a ≡ true
      → fl.literal 0 0 ≤ᶠ b ≡ true
      → fl.is_finite (fl.sub a b) ≡ true
  pub div_zero :
      (s : F)
      → fl.is_finite s ≡ true
      → s ≤ᶠ fl.literal 1 9 ≡ false
      → fl.div (fl.literal 0 0) s ≡ fl.literal 0 0
  pub div_self :
      (s : F) → fl.is_finite s ≡ true → s ≤ᶠ fl.literal 1 9 ≡ false → fl.div s s ≡ fl.literal 1 0
  pub div_mono :
      (a b s : F)
      → fl.is_finite s ≡ true
      → s ≤ᶠ fl.literal 1 9 ≡ false
      → a ≤ᶠ b ≡ true
      → fl.div a s ≤ᶠ fl.div b s ≡ true
