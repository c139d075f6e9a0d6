-- ===== src/Prelude/Text/Order.antt =====
-- The order of texts is a strict total order.
use Prim.Native.String.compare
use Prim.Native.String.{String}
use mathlib.Core.Path.{◌≡◌, refl}
use mathlib.Core.Bool.{true, false}
use native.Mathlib.Omega.{arith}
use distributed_ai_networkin.Prelude.Text.{text_ltb}

pub text_asym : (s t : String) → text_ltb s t ≡ true → text_ltb t s ≡ false
text_asym String.[] String.[] h = refl
text_asym String.[] (String.◌∷◌ d t) h = ground (arith, compare.cons-nil d t)
text_asym (String.◌∷◌ c s) String.[] h = ground (arith, compare.cons-nil c s)
text_asym (String.◌∷◌ c s) (String.◌∷◌ d t) h =
    ground (arith, compare.cons-cons c d s t, compare.cons-cons d c t s, text_asym s t)

pub text_neg_trans :
    (s t u : String) → text_ltb s t ≡ false → text_ltb t u ≡ false → text_ltb s u ≡ false
text_neg_trans String.[] String.[] u h k = k
text_neg_trans String.[] (String.◌∷◌ d t) u h k = ground (arith, compare.nil-cons d t)
text_neg_trans (String.◌∷◌ c s) t String.[] h k = ground (arith, compare.cons-nil c s)
text_neg_trans (String.◌∷◌ c s) String.[] (String.◌∷◌ e u) h k =
    ground (arith, compare.nil-cons e u)
text_neg_trans (String.◌∷◌ c s) (String.◌∷◌ d t) (String.◌∷◌ e u) h k = ground (
  arith,
  compare.cons-cons c d s t,
  compare.cons-cons d e t u,
  compare.cons-cons c e s u,
  text_neg_trans s t u,
)
