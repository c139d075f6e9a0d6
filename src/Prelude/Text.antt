-- ===== src/Prelude/Text.antt =====
-- The text functions of Python that the program calls.
pub mod Order
pub mod Lower
pub mod Keys
use Prim.Native.Nat.{◌-◌, Ordering}
use Prim.Native.Char.{Char, code}
use Prim.Native.String.{String, char_at, compare}
use mathlib.Core.Path.{◌≡◌, refl}
use mathlib.Core.Bool.{Bool, true, false, ◌&&◌}
use distributed_ai_networkin.Prelude.Tests.{leb, if◌then◌else◌}

-- One character of `str.lower`, on ASCII; other characters are left as they are.
abbrev pub lower_char : Char → Char
lower_char c =
    if leb 65 (code c) && leb (code c) 90
    then char_at "abcdefghijklmnopqrstuvwxyz" (code c - 65)
    else c

-- s.lower()
unfoldable pub lower : String → String
lower String.[] = String.[]
lower (String.◌∷◌ c s) = String.◌∷◌ (lower_char c) (lower s)

-- s < t, by code points
abbrev pub text_ltb : String → String → Bool
text_ltb s t = elim (compare s t) [ Ordering.lt ↦ true | _ ↦ false ]

lower_zone : lower "EU-Only" ≡ "eu-only"
unfolding lower
lower_zone = refl
