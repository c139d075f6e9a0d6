-- ===== src/Contracts/Uuid.antt =====
-- `generate_uuidv7` of contracts/models.py, on lists of character codes. The milliseconds and the ten
-- random bytes are arguments.
use distributed_ai_networkin.Prelude.{
  ℕ, zero, suc, ◌+◌, ◌-◌, ◌*◌, ◌/◌, ◌%◌, ◌^◌, ◌<◌, ◌≡◌, refl, ◌∙◌, true, false, some, List, [], ◌∷◌,
  ◌++◌, arith, ltb, eqb, if◌then◌else◌, length, take, get_elem?,
}
use native.Mathlib.Nat.{div-lt_iff_lt-mul}

abbrev pub Text : Type 0
Text = List ℕ

unfoldable pub hex_char : ℕ → ℕ
hex_char d = if ltb d 10 then 48 + d else 87 + d

-- the lowest `w` hexadecimal digits
unfoldable pub low_digits : ℕ → ℕ → Text
low_digits zero n = []
low_digits (suc w) n = low_digits w (n / 16) ++ (hex_char (n % 16) ∷ [])

-- the digits of a number but its lowest `w`, none where it has no more; the fuel is a bound of their count
unfoldable pub high_digits : ℕ → ℕ → Text
high_digits zero n = []
high_digits (suc fuel) n = elim (eqb n 0) [
  | true ↦ []
  | false ↦ high_digits fuel (n / 16) ++ (hex_char (n % 16) ∷ [])
]

-- f"{n:012x}"
unfoldable pub time_hex : ℕ → Text
time_hex n = high_digits n (n / 16 ^ 12) ++ low_digits 12 n

-- a list from its n-th element on
abbrev drop : ℕ → Text → Text
drop zero xs = xs
drop (suc n) [] = []
drop (suc n) (x ∷ xs) = drop n xs

-- `bytes[i:i + 1].hex()`
abbrev byte_hex : ℕ → Text
byte_hex b = low_digits 2 b

unfoldable pub generate_uuidv7 : ℕ → (ℕ → ℕ) → Text
generate_uuidv7 ms rand =
    let t = time_hex ms in
    let p3 = 55 ∷ hex_char (rand 0 % 16) ∷ byte_hex (rand 1) in
    let p4 = byte_hex (128 + rand 2 % 64) ++ byte_hex (rand 3) in
    let p5 =
      byte_hex (rand 4)
      ++ byte_hex (rand 5)
      ++ byte_hex (rand 6)
      ++ byte_hex (rand 7)
      ++ byte_hex (rand 8)
      ++ byte_hex (rand 9) in
    take 8 t ++ (45 ∷ (take 4 (drop 8 t) ++ (45 ∷ (p3 ++ (45 ∷ (p4 ++ (45 ∷ p5)))))))

-- int(s, 16)
abbrev hex_value : ℕ → ℕ
hex_value c = if ltb c 58 then c - 48 else c - 87

abbrev pub number_from : ℕ → Text → ℕ
number_from acc [] = acc
number_from acc (c ∷ cs) = number_from (acc * 16 + hex_value c) cs

-- the digits of the time in an identifier
abbrev pub time_digits : Text → Text
time_digits u = take 8 u ++ take 4 (drop 9 u)

hex_value-hex_char : (d : ℕ) → d < 16 → hex_value (hex_char d) ≡ d
unfolding hex_char
hex_value-hex_char d h = ground arith

number_from-append :
    (acc : ℕ) (xs : Text) (c : ℕ)
    → number_from acc (xs ++ (c ∷ [])) ≡ number_from acc xs * 16 + hex_value c
number_from-append acc [] c = refl
number_from-append acc (x ∷ xs) c = number_from-append (acc * 16 + hex_value x) xs c

number_from-low_digits : (w n : ℕ) → n < 16 ^ w → number_from 0 (low_digits w n) ≡ n
unfolding low_digits
number_from-low_digits zero n h = omega (arith, h)
number_from-low_digits (suc w) n h =
    let q : number_from 0 (low_digits w (n / 16)) ≡ n / 16 =
      number_from-low_digits w (n / 16) ((div-lt_iff_lt-mul (omega arith)).1 (omega (arith, h))) in
    number_from-append 0 (low_digits w (n / 16)) (hex_char (n % 16))
    ∙ rw (q, hex_value-hex_char (n % 16) (omega arith)) (omega arith)

high_digits-zero : (fuel : ℕ) → high_digits fuel 0 ≡ []
unfolding high_digits
high_digits-zero zero = refl
high_digits-zero (suc fuel) = refl

-- An identifier that is generated before the year 10889 has 36 characters, the version 7 at its place, and is read back to the milliseconds of its time.
pub generate_uuidv7_lem :
    (ms : ℕ) (rand : ℕ → ℕ)
    → ms < 16 ^ 12
    → let u = generate_uuidv7 ms rand in
      (number_from 0 (time_digits u) ≡ ms) × (length u ≡ 36) × (get_elem? u 14 ≡ some 55)
unfolding generate_uuidv7 time_hex low_digits
generate_uuidv7_lem ms rand h =
    let early : ms / 16 ^ 12 ≡ 0 = omega (arith, h) in
    rw (early, high_digits-zero ms) (number_from-low_digits 12 ms h, refl, refl)
