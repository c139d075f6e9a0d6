-- ===== src/Tests/Instances.antt =====
-- Concrete parameters: numbers in millionths for the floats, and libraries that do what the laws say.
use distributed_ai_networkin.Prelude.{
  ℕ, zero, suc, ◌+◌, ◌-◌, ◌*◌, ◌/◌, ◌^◌, ◌≤◌, ◌<◌, String, ◌≡◌, refl, true, false, ◌||◌, Option,
  none, some, [], ◌∷◌, arith, ltb, eqb, if◌then◌else◌,
}
use distributed_ai_networkin.Prelude.Floats.{QuotientLaws, FloatLaws, Floats}
use native.Mathlib.Nat.{zero-div, le-div_iff_mul-le, div-mul-le_self, mul-div_right}
use distributed_ai_networkin.Audit.Verify.{same_bytes, same_bytes_refl}
use distributed_ai_networkin.Interfaces.{Hex, Bytes, SigningLaws, Signing, HexLaws}
use distributed_ai_networkin.Security.Envelope.{AeadLaws, Fresh, PayloadCodec, Aead, PayloadLaws}
use Prim.Native.Char.{code}
use mathlib.Core.Option

instance unfoldable pub micros : Floats ℕ
micros = record {
  literal = λ m k. (m * 1000000) / (10 ^ k);
  add = λ a b. a + b;
  sub = λ a b. a - b;
  mul = λ a b. (a * b) / 1000000;
  div = λ a b. (a * 1000000) / b;
  abs = λ a. a;
  round = λ a k. a;
  lt = ltb;
  eq = eqb;
  is_finite = λ a. true;
}

pub micros_laws : FloatLaws micros
unfolding micros
micros_laws = record {
  asym = λ a b h. ground arith;
  neg_trans = λ a b c f h k. ground arith;
  eq_ties = λ a b f g. ground arith;
}

quotient_mono : (a b s : ℕ) → a ≤ b → 0 < s → (a * 1000000) / s ≤ (b * 1000000) / s
quotient_mono a b s h hs =
    (le-div_iff_mul-le hs).1 (omega (arith, div-mul-le_self (a * 1000000) s, h))

-- ◌≤ᶠ◌ of the millionths
le_micros : (a b : ℕ) → (ltb a b || eqb a b) ≡ true → a ≤ b
le_micros a b h = ground arith

micros_le : (a b : ℕ) → a ≤ b → (ltb a b || eqb a b) ≡ true
micros_le a b h = ground arith

micros_pos : (s : ℕ) → (ltb s 0 || eqb s 0) ≡ false → 0 < s
micros_pos s h = ground arith

pub micros_quotients : QuotientLaws ℕ
unfolding micros
micros_quotients = record {
  zero_le_zero = refl;
  zero_le_one = refl;
  sub_self = λ a f. omega arith;
  sub_mono = λ a b c f g k h. micros_le (a - c) (b - c) (omega (arith, le_micros a b h));
  sub_finite = λ a b f g h k. refl;
  div_zero = λ s f h. zero-div s;
  div_self = λ s f h. mul-div_right 1000000 (micros_pos s h);
  div_mono = λ a b s f h k.
      micros_le ((a * 1000000) / s) ((b * 1000000) / s)
        (quotient_mono a b s (le_micros a b k) (micros_pos s h));
}

-- Lists of numbers as texts: each number in unary, and a "c" at the end.
abbrev hex_byte : ℕ → String → String
hex_byte zero rest = String.◌∷◌ "b" rest
hex_byte (suc n) rest = String.◌∷◌ "a" (hex_byte n rest)

abbrev hex_text : Bytes → String
hex_text [] = "c"
hex_text (b ∷ bs) = hex_byte b (hex_text bs)

abbrev first_suc : Option Bytes → Option Bytes
first_suc none = none
first_suc (some []) = none
first_suc (some (b ∷ bs)) = some (suc b ∷ bs)

abbrev from_hex : String → Option Bytes
from_hex String.[] = none
from_hex (String.◌∷◌ c rest) =
    let more = from_hex rest in
    if eqb (code c) 97
    then first_suc more
    else if eqb (code c) 98
    then Option.map (◌∷◌ 0) more
    else some []

from_hex-hex_byte :
    (n : ℕ) (rest : String) (bs : Bytes)
    → from_hex rest ≡ some bs
    → from_hex (hex_byte n rest) ≡ some (n ∷ bs)
from_hex-hex_byte zero rest bs h = rw h refl
from_hex-hex_byte (suc n) rest bs h = rw (from_hex-hex_byte n rest bs h) refl

from_hex-hex_text : (bs : Bytes) → from_hex (hex_text bs) ≡ some bs
from_hex-hex_text [] = refl
from_hex-hex_text (b ∷ bs) = from_hex-hex_byte b (hex_text bs) bs (from_hex-hex_text bs)

abbrev pub hexes : Hex
hexes = record { hex = hex_text; fromhex = from_hex }

pub hexes_laws : HexLaws hexes
hexes_laws = record { fromhex-hex = from_hex-hex_text }

-- a signature is the message, and there is one public key
abbrev pub signing : Signing ℕ
signing = record {
  public_pem = λ k. "pem";
  sign = λ k m. m;
  verify = λ pem signature m. same_bytes signature m;
}

pub signing_laws : SigningLaws signing
signing_laws = record { verify-sign = λ k m. same_bytes_refl m; public_pem-ne-empty = λ k. refl }

-- no encryption
abbrev pub aead : Aead
aead = record { encrypt = λ key nonce m. m; decrypt = λ key nonce m. some m }

pub aead_laws : AeadLaws aead
aead_laws = record { decrypt-encrypt = λ key nonce m. refl }

-- a payload of bytes
abbrev pub bytes_codec : PayloadCodec Bytes
bytes_codec = record { dumps = λ p. p; loads = λ b. some b }

pub bytes_codec_laws : PayloadLaws bytes_codec
bytes_codec_laws = record { loads-dumps = λ p. refl }

abbrev pub fresh : Fresh
fresh =
    let nonce = 1 ∷ 2 ∷ 3 ∷ 4 ∷ 5 ∷ 6 ∷ 7 ∷ 8 ∷ 9 ∷ 10 ∷ 11 ∷ 12 ∷ [] in
    record { dek = 7 ∷ 7 ∷ []; nonce_dek = nonce; nonce_kek = nonce }
