-- ===== src/Tests/Pickles.antt =====
-- Concrete serialisers: values as lists of numbers, which are read back.
use distributed_ai_networkin.Prelude.{
  ℕ, zero, suc, String, ◌≡◌, refl, ap, ◌∙◌, ◌≢◌, Bool, true, false, Option, none, some, List, [],
  ◌∷◌, arith, eq_iff, length,
}
use distributed_ai_networkin.Tests.Instances.{hexes, hexes_laws}
use distributed_ai_networkin.Interfaces.{CodecLaws, Codec, Bytes}
use distributed_ai_networkin.Security.Envelope.{PayloadLaws, PayloadCodec}
use mathlib.Core.Option
use Prim.Native.Char.{Char, char, code, IsScalar}
use Prim.Native.Nat.{Ordering, compare}

-- A value before other bytes, and how it is taken off again.
pub record Pickle (A : Type 0) : Type 0 where
  pub put : A → Bytes → Bytes
  pub take_off : Bytes → Option (A × Bytes)
  pub take_off-put : (a : A) (rest : Bytes) → take_off (put a rest) ≡ some (a, rest)

abbrev BothLt : Ordering → Ordering → Type 0
BothLt Ordering.lt o = elim o [ Ordering.lt ↦ Unit | Ordering.eq ↦ ⊥ | Ordering.gt ↦ ⊥ ]
BothLt Ordering.eq _ = ⊥
BothLt Ordering.gt _ = ⊥

abbrev Scalar : Ordering → Ordering → Ordering → Type 0
Scalar Ordering.lt _ _ = Unit
Scalar Ordering.eq a b = BothLt a b
Scalar Ordering.gt a b = BothLt a b

-- the character of a number, if there is one
abbrev char_if : (n : ℕ) (a b c : Ordering) → (Scalar a b c → IsScalar n) → Option Char
char_if n Ordering.lt b c f = some (char n (f tt))
char_if n Ordering.eq Ordering.lt Ordering.lt f = some (char n (f tt))
char_if n Ordering.eq Ordering.lt Ordering.eq f = none
char_if n Ordering.eq Ordering.lt Ordering.gt f = none
char_if n Ordering.eq Ordering.eq c f = none
char_if n Ordering.eq Ordering.gt c f = none
char_if n Ordering.gt Ordering.lt Ordering.lt f = some (char n (f tt))
char_if n Ordering.gt Ordering.lt Ordering.eq f = none
char_if n Ordering.gt Ordering.lt Ordering.gt f = none
char_if n Ordering.gt Ordering.eq c f = none
char_if n Ordering.gt Ordering.gt c f = none

char_if-Scalar :
    (n : ℕ) (a b c : Ordering) (p : Scalar a b c) (f : Scalar a b c → IsScalar n)
    → char_if n a b c f ≡ some (char n (f p))
char_if-Scalar n Ordering.lt b c p f = refl
char_if-Scalar n Ordering.eq Ordering.lt Ordering.lt p f = refl
char_if-Scalar n Ordering.eq Ordering.lt Ordering.eq p f = absurd p
char_if-Scalar n Ordering.eq Ordering.lt Ordering.gt p f = absurd p
char_if-Scalar n Ordering.eq Ordering.eq c p f = absurd p
char_if-Scalar n Ordering.eq Ordering.gt c p f = absurd p
char_if-Scalar n Ordering.gt Ordering.lt Ordering.lt p f = refl
char_if-Scalar n Ordering.gt Ordering.lt Ordering.eq p f = absurd p
char_if-Scalar n Ordering.gt Ordering.lt Ordering.gt p f = absurd p
char_if-Scalar n Ordering.gt Ordering.eq c p f = absurd p
char_if-Scalar n Ordering.gt Ordering.gt c p f = absurd p

abbrev char_of : ℕ → Option Char
char_of n = char_if n (compare n 55296) (compare 57343 n) (compare n 1114112) (λ p. p)

char_of-code : (c : Char) → char_of (code c) ≡ some c
char_of-code (char n p) =
    char_if-Scalar n (compare n 55296) (compare 57343 n) (compare n 1114112) p (λ q. q)

abbrev put_text : String → Bytes → Bytes
put_text String.[] rest = 0 ∷ rest
put_text (String.◌∷◌ c s) rest = 1 ∷ code c ∷ put_text s rest

abbrev prefixed : Option Char → Option (String × Bytes) → Option (String × Bytes)
prefixed none o = none
prefixed (some c) none = none
prefixed (some c) (some (s, rest)) = some (String.◌∷◌ c s, rest)

abbrev take_text : Bytes → Option (String × Bytes)
take_text [] = none
take_text (zero ∷ rest) = some ("", rest)
take_text (suc n ∷ []) = none
take_text (suc n ∷ b ∷ rest) = prefixed (char_of b) (take_text rest)

pub take_text-put_text : (s : String) (rest : Bytes) → take_text (put_text s rest) ≡ some (s, rest)
take_text-put_text String.[] rest = refl
take_text-put_text (String.◌∷◌ c s) rest = rw (char_of-code c) (rw (take_text-put_text s rest) refl)

abbrev take_number : Bytes → Option (ℕ × Bytes)
take_number [] = none
take_number (b ∷ rest) = some (b, rest)

abbrev pub numbers : Pickle ℕ
numbers = record { put = λ n rest. n ∷ rest; take_off = take_number; take_off-put = λ n rest. refl }

abbrev pub strings : Pickle String
strings = record { put = put_text; take_off = take_text; take_off-put = take_text-put_text }

abbrev number_of : Bool → ℕ
number_of true = 1
number_of false = 0

abbrev is_positive : ℕ → Bool
is_positive zero = false
is_positive (suc n) = true

pub is_positive-number_of : (b : Bool) → is_positive (number_of b) ≡ b
is_positive-number_of true = refl
is_positive-number_of false = refl

module _ {A B : Type 0} where
  abbrev second_of : (Bytes → Option (B × Bytes)) → Option (A × Bytes) → Option ((A × B) × Bytes)
  second_of g none = none
  second_of g (some (a, rest)) = Option.map (λ r. ((a, r.0), r.1)) (g rest)

  abbrev pub pairs : Pickle A → Pickle B → Pickle (A × B)
  pairs p q = record {
    put = λ e rest. p.put e.0 (q.put e.1 rest);
    take_off = λ b. second_of q.take_off (p.take_off b);
    take_off-put = λ e rest. rw p.take_off-put (rw q.take_off-put refl);
  }

  -- through another type, which holds the values
  abbrev pub through :
      (to : A → B) (from : B → A) → ((a : A) → from (to a) ≡ a) → Pickle B → Pickle A
  through to from back p = record {
    put = λ a rest. p.put (to a) rest;
    take_off = λ b. Option.map (λ r. (from r.0, r.1)) (p.take_off b);
    take_off-put = λ a rest. rw p.take_off-put (rw back refl);
  }

abbrev pub bools : Pickle Bool
bools = through number_of is_positive is_positive-number_of numbers

hex-not-empty : (b : Bytes) → hexes.hex b ≢ ""
hex-not-empty [] = λ e. cc
hex-not-empty (zero ∷ b) = λ e. cc
hex-not-empty (suc n ∷ b) = λ e. cc

module _ {A : Type 0} where
  abbrev consed : (Bytes → Option (List A × Bytes)) → Option (A × Bytes) → Option (List A × Bytes)
  consed more none = none
  consed more (some (a, rest)) = Option.map (λ r. (a ∷ r.0, r.1)) (more rest)

  abbrev take_list : Pickle A → ℕ → Bytes → Option (List A × Bytes)
  take_list p zero rest = some ([], rest)
  take_list p (suc n) rest = consed (take_list p n) (p.take_off rest)

  abbrev put_list : Pickle A → List A → Bytes → Bytes
  put_list p [] rest = rest
  put_list p (a ∷ as') rest = p.put a (put_list p as' rest)

  pub take_list-put_list :
      (p : Pickle A) (as' : List A) (rest : Bytes)
      → take_list p (length as') (put_list p as' rest) ≡ some (as', rest)
  take_list-put_list p [] rest = refl
  take_list-put_list p (a ∷ as') rest = rw p.take_off-put (rw (take_list-put_list p as' rest) refl)

  abbrev take_counted : Pickle A → Bytes → Option (List A × Bytes)
  take_counted p [] = none
  take_counted p (n ∷ rest) = take_list p n rest

  abbrev pub lists : Pickle A → Pickle (List A)
  lists p = record {
    put = λ as' rest. length as' ∷ put_list p as' rest;
    take_off = take_counted p;
    take_off-put = take_list-put_list p;
  }

  abbrev to_list : Option A → List A
  to_list none = []
  to_list (some a) = a ∷ []

  abbrev to_option : List A → Option A
  to_option [] = none
  to_option (a ∷ as') = some a

  pub to_option-to_list : (o : Option A) → to_option (to_list o) ≡ o
  to_option-to_list none = refl
  to_option-to_list (some a) = refl

  abbrev pub options : Pickle A → Pickle (Option A)
  options p = through to_list to_option to_option-to_list (lists p)

  abbrev first_of : Option (A × Bytes) → Option A
  first_of o = Option.map (λ r. r.0) o

  abbrev decoded_by : Pickle A → Option Bytes → Option A
  decoded_by p none = none
  decoded_by p (some b) = first_of (p.take_off b)

  decoded_by-hex :
      (p : Pickle A) (a : A) → decoded_by p (hexes.fromhex (hexes.hex (p.put a []))) ≡ some a
  decoded_by-hex p a =
      ap (decoded_by p) (hexes_laws.fromhex-hex (p.put a [])) ∙ rw p.take_off-put refl

  abbrev pub codec : Pickle A → Codec A
  codec p = record {
    encode = λ a. hexes.hex (p.put a []);
    decode = λ s. decoded_by p (hexes.fromhex s);
  }

  pub codec_laws : (p : Pickle A) → CodecLaws (codec p)
  codec_laws p = record {
    decode-encode = decoded_by-hex p;
    encode-ne-empty =
        λ a. ground (arith, eq_iff (hexes.hex (p.put a [])) "", hex-not-empty (p.put a []));
  }

  abbrev pub payload_codec : Pickle A → PayloadCodec A
  payload_codec p = record { dumps = λ a. p.put a []; loads = λ b. first_of (p.take_off b) }

  pub payload_codec_laws : (p : Pickle A) → PayloadLaws (payload_codec p)
  payload_codec_laws p = record { loads-dumps = λ a. rw p.take_off-put refl }
