-- ===== src/Rpc/Encoding/Numbers.antt =====
-- Numbers written in hexadecimal without leading zeros.
use fortresswallet.Base.{
  ℕ, zero, suc, ◌+◌, ◌*◌, ◌/◌, ◌%◌, ◌^◌, ◌<◌, ◌≡◌, refl, sym, ap, ◌∙◌, true, some, List, [], ◌∷◌,
  ◌++◌, Option-cases, Bool-cases, inl, inr, ltb, if◌then◌else◌, arith,
}
use fortresswallet.Hex.Digits.{
  digit_value, digit_char, digits_value, digit_value-digit_char, digit_char-not_plus,
  from_str_radix_16,
}

-- At most `fuel` digits, which is enough below `16 ^ fuel`.
unfoldable pub number_digits : ℕ → ℕ → List ℕ
number_digits zero v = []
number_digits (suc fuel) v =
    let front = number_digits fuel (v / 16) in
    if ltb v 16 then digit_char v ∷ [] else front ++ (digit_char (v % 16) ∷ [])

digits_value-append :
    (limit acc v : ℕ) (front back : List ℕ)
    → digits_value limit acc front ≡ some v
    → digits_value limit acc (front ++ back) ≡ digits_value limit v back
unfolding digits_value
digits_value-append limit acc v [] back h = ground (arith, h)
digits_value-append limit acc v (c ∷ front) back h = elim (Option-cases (digit_value c)) [
  | inl e ↦ absurd (ground (arith, e, h))
  | inr (d, e) ↦ elim (Bool-cases (ltb (acc * 16 + d) limit)) [
    | inl small ↦
        let ih =
          digits_value-append limit (acc * 16 + d) v front back (ground (arith, e, small, h)) in
        ground (arith, e, small, ih)
    | inr big ↦ absurd (ground (arith, e, big, h))
  ]
]

last_digit :
    (limit acc d : ℕ)
    → d < 16
    → acc * 16 + d < limit
    → digits_value limit acc (digit_char d ∷ []) ≡ some (acc * 16 + d)
unfolding digits_value
last_digit limit acc d h small =
    let fits : ltb (acc * 16 + d) limit ≡ true = ground (arith, small) in
    ground (arith, digit_value-digit_char d h, fits)

-- The digits of a number are read as that number.
pub digits_value-number_digits :
    (limit fuel v : ℕ)
    → v < 16 ^ fuel
    → v < limit
    → digits_value limit 0 (number_digits fuel v) ≡ some v
unfolding number_digits
digits_value-number_digits limit zero v h small = unfold digits_value in ap some (omega (arith, h))
digits_value-number_digits limit (suc fuel) v h small = elim (Bool-cases (ltb v 16)) [
  | inl one ↦
      rw (one)
        (last_digit limit 0 v (ground (arith, one)) (omega (arith, small)) ∙ ap some (omega arith))
  | inr more ↦
      let ih =
        digits_value-number_digits limit fuel (v / 16) (omega (arith, h)) (omega (arith, small)) in
      let whole : v / 16 * 16 + v % 16 ≡ v = omega arith in
      rw (more) (
        digits_value-append limit 0 (v / 16) (number_digits fuel (v / 16))
          (digit_char (v % 16) ∷ []) ih
        ∙ last_digit limit (v / 16) (v % 16) (omega arith) (omega (arith, small, whole))
        ∙ ap some whole)
]

-- The first character is a digit.
number_digits-first :
    (fuel v : ℕ)
    → v < 16 ^ suc fuel
    → (d : ℕ) × (cs : List ℕ) × (number_digits (suc fuel) v ≡ digit_char d ∷ cs)
unfolding number_digits
number_digits-first zero v h =
    let one : ltb v 16 ≡ true = ground (arith, h) in (v, [], rw (one) refl)
number_digits-first (suc fuel) v h = elim (Bool-cases (ltb v 16)) [
  | inl one ↦ (v, [], rw (one) refl)
  | inr more ↦
      let (d, cs, e) = number_digits-first fuel (v / 16) (omega (arith, h)) in
      (
        d,
        cs ++ (digit_char (v % 16) ∷ []),
        rw (more) (ap (λ ds. ds ++ (digit_char (v % 16) ∷ [])) e),
      )
]

from_str_radix_16_first :
    (limit d : ℕ) (cs : List ℕ)
    → from_str_radix_16 limit (digit_char d ∷ cs) ≡ digits_value limit 0 (digit_char d ∷ cs)
unfolding from_str_radix_16
from_str_radix_16_first limit d [] = refl
from_str_radix_16_first limit d (c ∷ cs) = rw (digit_char-not_plus d) refl

pub from_str_radix_16-number_digits :
    (limit fuel v : ℕ)
    → v < 16 ^ suc fuel
    → v < limit
    → from_str_radix_16 limit (number_digits (suc fuel) v) ≡ some v
from_str_radix_16-number_digits limit fuel v h small =
    let (d, cs, e) = number_digits-first fuel v h in
    ap (from_str_radix_16 limit) e
    ∙ from_str_radix_16_first limit d cs
    ∙ ap (digits_value limit 0) (sym e)
    ∙ digits_value-number_digits limit (suc fuel) v h small
