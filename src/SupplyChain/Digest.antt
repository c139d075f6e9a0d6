-- ===== src/SupplyChain/Digest.antt =====
-- `is_immutable_digest` of common/supply_chain.py: the pattern ^sha256:[a-f0-9]{64}$ on the stripped
-- text, with the letters in either case.
use distributed_ai_networkin.Prelude.{
  ℕ, zero, suc, String, ◌≡◌, refl, ap, Bool, true, false, ◌&&◌, ◌||◌, not, List, [], ◌∷◌, arith,
  ◌==◌, leb, eqb, if◌then◌else◌, length,
}
use mathlib.Core.List.{reverse}
use Prim.Native.Char.{code}

-- The code points of a text.
unfoldable pub codes : String → List ℕ
codes String.[] = []
codes (String.◌∷◌ c s) = code c ∷ codes s

-- The characters that `str.strip` removes.
unfoldable pub is_space : ℕ → Bool
is_space c =
    (leb 9 c && leb c 13)
    || (leb 28 c && leb c 32)
    || eqb c 133
    || eqb c 160
    || eqb c 5760
    || (leb 8192 c && leb c 8202)
    || eqb c 8232
    || eqb c 8233
    || eqb c 8239
    || eqb c 8287
    || eqb c 12288

unfoldable pub drop_spaces : List ℕ → List ℕ
drop_spaces [] = []
drop_spaces (c ∷ cs) = let rest = drop_spaces cs in if is_space c then rest else c ∷ cs

unfoldable pub strip : List ℕ → List ℕ
strip cs = reverse (drop_spaces (reverse (drop_spaces cs)))

-- A hexadecimal digit, in either case.
unfoldable pub is_hex : ℕ → Bool
is_hex c = (leb 48 c && leb c 57) || (leb 97 c && leb c 102) || (leb 65 c && leb c 70)

-- Exactly n hexadecimal digits.
unfoldable pub hex_digits : ℕ → List ℕ → Bool
hex_digits zero [] = true
hex_digits zero (c ∷ cs) = false
hex_digits (suc n) [] = false
hex_digits (suc n) (c ∷ cs) = is_hex c && hex_digits n cs

-- "sha256:", where an s of the pattern also matches the long s, U+017F.
unfoldable pub matches_digest : List ℕ → Bool
matches_digest (s ∷ h ∷ a ∷ d2 ∷ d5 ∷ d6 ∷ colon ∷ rest) =
    (eqb s 115 || eqb s 83 || eqb s 383)
    && (eqb h 104 || eqb h 72)
    && (eqb a 97 || eqb a 65)
    && eqb d2 50
    && eqb d5 53
    && eqb d6 54
    && eqb colon 58
    && hex_digits 64 rest
matches_digest _ = false

unfoldable pub is_immutable_digest : String → Bool
is_immutable_digest digest = not (digest == "") && matches_digest (strip (codes digest))

hex_digits-length : (n : ℕ) (cs : List ℕ) → hex_digits n cs ≡ true → length cs ≡ n
unfolding hex_digits
hex_digits-length zero [] h = refl
hex_digits-length zero (c ∷ cs) h = cc
hex_digits-length (suc n) [] h = cc
hex_digits-length (suc n) (c ∷ cs) h = ap suc (hex_digits-length n cs (ground arith))

matches_digest-length : (cs : List ℕ) → matches_digest cs ≡ true → length cs ≡ 71
unfolding matches_digest
matches_digest-length (s ∷ h ∷ a ∷ d2 ∷ d5 ∷ d6 ∷ colon ∷ rest) m =
    let n : length rest ≡ 64 = hex_digits-length 64 rest (ground arith) in omega arith
matches_digest-length _ m = cc

-- A reference that is accepted as immutable has 71 characters once stripped.
pub is_immutable_digest-length :
    (digest : String) → is_immutable_digest digest ≡ true → length (strip (codes digest)) ≡ 71
unfolding is_immutable_digest
is_immutable_digest-length digest h = matches_digest-length (strip (codes digest)) (ground arith)
