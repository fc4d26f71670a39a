-- ===== src/Prelude/Digits.antt =====
-- Numbers as text: the digits that streams and `snprintf` write, and the number that digits stand for.
use fastdl_mm.Prelude.Tests.{ltb, if◌then◌else◌, Bool-cases, ltb→lt}
use fastdl_mm.Prelude.Lists.{length, length-append, All, All-append}
use fastdl_mm.Prelude.Text.{Bytes}
use Prim.Native.Nat.{ℕ, zero, suc, ◌+◌, ◌-◌, ◌*◌, ◌/◌, ◌%◌, ◌≤◌, ◌<◌}
use mathlib.Core.Path.{◌≡◌, refl}
use mathlib.Core.Logic.{◌⊎◌, inl, inr}
use mathlib.Core.Bool.{true, false}
use mathlib.Core.List.{[], ◌∷◌, ◌++◌}
use native.Mathlib.Omega.{arith}

-- A digit of `"0123456789abcdef"`.
unfoldable pub hex_digit : ℕ → ℕ
hex_digit n = if ltb n 10 then b'0' + n else b'a' + (n - 10)

-- The digits of a number below base ^ fuel, the first digit first.
unfoldable pub digits : ℕ → ℕ → ℕ → Bytes
unfolding hex_digit
digits zero base n = []
digits (suc fuel) base n =
    let rest = digits fuel base (n / base) in
    if ltb n base then hex_digit n ∷ [] else rest ++ hex_digit (n % base) ∷ []

-- `std::to_string` of a 64-bit number, which has at most 20 digits.
unfoldable pub to_string : ℕ → Bytes
to_string n = digits 20 10 n

-- `std::hex`.
unfoldable pub to_hex : ℕ → Bytes
to_hex n = digits 16 16 n

abbrev pub zeros : ℕ → Bytes
zeros zero = []
zeros (suc n) = b'0' ∷ zeros n

-- `std::setfill('0')` with `std::setw(width)`, or `%0<width>d`.
unfoldable pub zero_padded : ℕ → Bytes → Bytes
zero_padded width s = zeros (width - length s) ++ s

-- `std::stoi` of a text of digits, after those that were read.
abbrev pub decimal_from : ℕ → Bytes → ℕ
decimal_from n [] = n
decimal_from n (c ∷ s) = decimal_from (n * 10 + (c - b'0')) s

pub length-digits-le : (fuel base n : ℕ) → length (digits fuel base n) ≤ fuel
unfolding digits
length-digits-le zero base n = omega arith
length-digits-le (suc fuel) base n = ground (
  arith,
  length-digits-le fuel base (n / base),
  length-append (digits fuel base (n / base)) (hex_digit (n % base) ∷ []),
)

pub length-zeros : (n : ℕ) → length (zeros n) ≡ n
length-zeros zero = refl
length-zeros (suc n) = omega (arith, length-zeros n)

pub length-zero_padded :
    (width : ℕ) (s : Bytes) → length s ≤ width → length (zero_padded width s) ≡ width
unfolding zero_padded
length-zero_padded width s h =
    omega (arith, length-append (zeros (width - length s)) s, length-zeros (width - length s))

-- A digit of a number in hexadecimal, in small letters.
abbrev pub IsHexDigit : ℕ → Type 0
IsHexDigit c = ((b'0' ≤ c) × (c ≤ b'9')) ⊎ ((b'a' ≤ c) × (c ≤ b'f'))

hex_digit-IsHexDigit : (n : ℕ) → n < 16 → IsHexDigit (hex_digit n)
unfolding hex_digit
hex_digit-IsHexDigit n h = elim (Bool-cases (ltb n 10)) [
  | inl e ↦ rw e (inl (omega arith, omega (arith, ltb→lt n 10 e)))
  | inr e ↦ rw e (inr (omega arith, omega arith))
]

digits-IsHexDigit : (fuel n : ℕ) → All IsHexDigit (digits fuel 16 n)
unfolding digits
digits-IsHexDigit zero n = tt
digits-IsHexDigit (suc fuel) n = elim (Bool-cases (ltb n 16)) [
  | inl e ↦ rw e (hex_digit-IsHexDigit n (ltb→lt n 16 e), tt)
  | inr e ↦ rw e (
      All-append IsHexDigit (digits fuel 16 (n / 16)) (hex_digit (n % 16) ∷ [])
        (digits-IsHexDigit fuel (n / 16)) (hex_digit-IsHexDigit (n % 16) (omega arith), tt))
]

zeros-IsHexDigit : (n : ℕ) → All IsHexDigit (zeros n)
zeros-IsHexDigit zero = tt
zeros-IsHexDigit (suc n) = (inl (omega arith, omega arith), zeros-IsHexDigit n)

pub to_hex-IsHexDigit : (width n : ℕ) → All IsHexDigit (zero_padded width (to_hex n))
unfolding zero_padded to_hex
to_hex-IsHexDigit width n =
    All-append IsHexDigit (zeros (width - length (digits 16 16 n))) (digits 16 16 n)
      (zeros-IsHexDigit (width - length (digits 16 16 n))) (digits-IsHexDigit 16 n)

pub length-to_hex : (n : ℕ) → length (zero_padded 16 (to_hex n)) ≡ 16
unfolding to_hex
length-to_hex n = length-zero_padded 16 (digits 16 16 n) (length-digits-le 16 16 n)

digits_small : (fuel n : ℕ) → n < 10 → digits (suc fuel) 10 n ≡ (b'0' + n) ∷ []
unfolding digits
digits_small fuel n h = ground arith

digits_more :
    (fuel n : ℕ) → 10 ≤ n → digits (suc fuel) 10 n ≡ digits fuel 10 (n / 10) ++ (b'0' + n % 10) ∷ []
unfolding digits
digits_more fuel n h =
    let e : ltb n 10 ≡ false = ground arith in
    let d : ltb (n % 10) 10 ≡ true = ground arith in rw (e, d)

-- A number of at most two or four digits, at that width.
pub two_digits :
    (n : ℕ) → n < 100 → zero_padded 2 (to_string n) ≡ (b'0' + n / 10) ∷ (b'0' + n % 10) ∷ []
unfolding to_string zero_padded
two_digits n h = elim (Bool-cases (ltb n 10)) [
  | inl e ↦ rw (digits_small 19 n (ltb→lt n 10 e)) (ground (arith, ltb→lt n 10 e))
  | inr e ↦
      let big : 10 ≤ n = ground arith in
      rw (digits_more 19 n big, digits_small 18 (n / 10) (omega arith))
]

pub four_digits :
    (n : ℕ)
    → n < 10000
    → zero_padded 4 (to_string n)
      ≡ (b'0' + n / 1000) ∷ (b'0' + n / 100 % 10) ∷ (b'0' + n / 10 % 10) ∷ (b'0' + n % 10) ∷ []
unfolding to_string zero_padded
four_digits n h = elim (Bool-cases (ltb n 10)) [
  | inl e ↦ rw (digits_small 19 n (ltb→lt n 10 e)) (ground (arith, ltb→lt n 10 e))
  | inr e ↦
      let tens : 10 ≤ n = ground arith in
      rw (digits_more 19 n tens) (elim (Bool-cases (ltb n 100)) [
        | inl f ↦
            let few : n / 10 < 10 = omega (arith, ltb→lt n 100 f) in
            rw (digits_small 18 (n / 10) few) (ground (arith, ltb→lt n 100 f))
        | inr f ↦
            let hundreds : 10 ≤ n / 10 = ground arith in
            rw (digits_more 18 (n / 10) hundreds) (elim (Bool-cases (ltb n 1000)) [
              | inl g ↦
                  let few : n / 10 / 10 < 10 = omega (arith, ltb→lt n 1000 g) in
                  rw (digits_small 17 (n / 10 / 10) few) (ground (arith, ltb→lt n 1000 g))
              | inr g ↦
                  let thousands : 10 ≤ n / 10 / 10 = ground arith in
                  let few : n / 10 / 10 / 10 < 10 = omega arith in
                  rw
                    (digits_more 17 (n / 10 / 10) thousands, digits_small 16 (n / 10 / 10 / 10) few)
                    (ground arith)
            ])
      ])
]
