-- ===== src/Prelude/Text/Lower.antt =====
-- `lower` is idempotent.
use Prim.Native.Nat.{ℕ, zero, suc, ◌-◌, ◌<◌}
use Prim.Native.Char.{Char, code}
use Prim.Native.String.{String, char_at}
use mathlib.Core.Path.{◌≡◌, refl, ap₂}
use mathlib.Core.Bool.{Bool, true, ◌&&◌}
use native.Mathlib.Omega.{arith}
use distributed_ai_networkin.Prelude.Tests.{leb, Bool-cases}
use distributed_ai_networkin.Prelude.Text.{lower_char, lower}
use mathlib.Core.Logic.{inl, inr}

-- a letter of the table is a small one
is_small : ℕ → Bool
is_small k = leb 97 (code (char_at "abcdefghijklmnopqrstuvwxyz" k))

-- the first `n` letters are
small_to : ℕ → Bool
small_to zero = true
small_to (suc n) = small_to n && is_small n

is_small-small_to : (n k : ℕ) → k < n → small_to n ≡ true → is_small k ≡ true
unfolding small_to
is_small-small_to zero k lt h = elim lt [ ]
is_small-small_to (suc n) k lt h = ground (arith, is_small-small_to n k)

table : small_to 26 ≡ true
unfolding small_to is_small
table = refl

lower_char_idem : (c : Char) → lower_char (lower_char c) ≡ lower_char c
unfolding is_small
lower_char_idem c = elim (Bool-cases (leb 65 (code c) && leb (code c) 90)) [
  | inr other ↦ rw other (rw other refl)
  | inl upper ↦
      let small = is_small-small_to 26 (code c - 65) (ground arith) table in rw upper (ground arith)
]

pub lower_idem : (s : String) → lower (lower s) ≡ lower s
unfolding lower
lower_idem String.[] = refl
lower_idem (String.◌∷◌ c s) = ap₂ String.◌∷◌ (lower_char_idem c) (lower_idem s)
