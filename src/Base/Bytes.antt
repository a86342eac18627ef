-- ===== src/Base/Bytes.antt =====
-- Rust's `to_be_bytes` and `from_be_bytes` at every width, by the digits lowest first.
use fortresswallet.Base.{
  ℕ, zero, suc, ◌+◌, ◌*◌, ◌/◌, ◌%◌, ◌^◌, ◌<◌, ◌≡◌, refl, sym, ap, ◌∙◌, List, [], ◌∷◌, ◌++◌, reverse,
  length, length-append, All, All-append, arith,
}
use mathlib.Core.List.{reverse-reverse, reverse-cons, reverse-append}
use native.Mathlib.Nat.{mul_assoc}

abbrev pub IsByte : ℕ → Type 0
IsByte b = b < 256

abbrev pub IsU8 : ℕ → Type 0
IsU8 v = v < 256

abbrev pub IsU64 : ℕ → Type 0
IsU64 v = v < 2 ^ 64

abbrev pub IsU128 : ℕ → Type 0
IsU128 v = v < 2 ^ 128

-- The values of `[u8; n]`.
abbrev pub IsBytes : ℕ → List ℕ → Type 0
IsBytes n bs = All IsByte bs × (length bs ≡ n)

to_le_bytes : ℕ → ℕ → List ℕ
to_le_bytes zero v = []
to_le_bytes (suc n) v = (v % 256) ∷ to_le_bytes n (v / 256)

from_le_bytes : List ℕ → ℕ
from_le_bytes [] = 0
from_le_bytes (b ∷ bs) = b + 256 * from_le_bytes bs

-- `v.to_be_bytes()` of an integer of `n` bytes.
unfoldable pub to_be_bytes : ℕ → ℕ → List ℕ
unfolding to_le_bytes
to_be_bytes n v = reverse (to_le_bytes n v)

unfoldable pub from_be_bytes : List ℕ → ℕ
unfolding from_le_bytes
from_be_bytes bs = from_le_bytes (reverse bs)

length-reverse {ℓ} : {A : Type ℓ} (xs : List A) → length (reverse xs) ≡ length xs
length-reverse [] = refl
length-reverse (x ∷ xs) =
    rw reverse-cons (omega (arith, length-append (reverse xs) (x ∷ []), length-reverse xs))

All-reverse {ℓ κ} : {A : Type ℓ} (P : A → Type κ) (xs : List A) → All P xs → All P (reverse xs)
All-reverse P [] h = tt
All-reverse P (x ∷ xs) h =
    rw reverse-cons (All-append P (reverse xs) (x ∷ []) (All-reverse P xs h.1) (h.0, tt))

length-to_le_bytes : (n v : ℕ) → length (to_le_bytes n v) ≡ n
unfolding to_le_bytes
length-to_le_bytes zero v = refl
length-to_le_bytes (suc n) v = ap suc (length-to_le_bytes n (v / 256))

to_le_bytes-IsByte : (n v : ℕ) → All IsByte (to_le_bytes n v)
unfolding to_le_bytes
to_le_bytes-IsByte zero v = tt
to_le_bytes-IsByte (suc n) v = (omega arith, to_le_bytes-IsByte n (v / 256))

from-to_le_bytes : (n v : ℕ) → v < 256 ^ n → from_le_bytes (to_le_bytes n v) ≡ v
unfolding to_le_bytes from_le_bytes
from-to_le_bytes zero v h = omega arith
from-to_le_bytes (suc n) v h = omega (arith, from-to_le_bytes n (v / 256) (omega arith))

to-from_le_bytes : (bs : List ℕ) → All IsByte bs → to_le_bytes (length bs) (from_le_bytes bs) ≡ bs
unfolding to_le_bytes from_le_bytes
to-from_le_bytes [] h = refl
to-from_le_bytes (b ∷ bs) h =
    let low : (b + 256 * from_le_bytes bs) % 256 ≡ b = omega arith in
    let high : (b + 256 * from_le_bytes bs) / 256 ≡ from_le_bytes bs = omega arith in
    rw (low, high) (ap (◌∷◌ b) (to-from_le_bytes bs h.1))

from_le_bytes-lt : (n : ℕ) (bs : List ℕ) → IsBytes n bs → from_le_bytes bs < 256 ^ n
unfolding from_le_bytes
from_le_bytes-lt zero [] h = omega arith
from_le_bytes-lt zero (b ∷ bs) h = absurd (omega arith)
from_le_bytes-lt (suc n) [] h = absurd (omega arith)
from_le_bytes-lt (suc n) (b ∷ bs) ((hb, hbs), e) =
    omega (arith, from_le_bytes-lt n bs (hbs, omega arith))

reverse-IsBytes : (n : ℕ) (bs : List ℕ) → IsBytes n bs → IsBytes n (reverse bs)
reverse-IsBytes n bs (h, e) = (All-reverse IsByte bs h, length-reverse bs ∙ e)

pub length-to_be_bytes : (n v : ℕ) → length (to_be_bytes n v) ≡ n
unfolding to_be_bytes
length-to_be_bytes n v = length-reverse (to_le_bytes n v) ∙ length-to_le_bytes n v

pub to_be_bytes-IsBytes : (n v : ℕ) → IsBytes n (to_be_bytes n v)
unfolding to_be_bytes
to_be_bytes-IsBytes n v =
    (All-reverse IsByte (to_le_bytes n v) (to_le_bytes-IsByte n v), length-to_be_bytes n v)

pub from-to_be_bytes : (n v : ℕ) → v < 256 ^ n → from_be_bytes (to_be_bytes n v) ≡ v
unfolding to_be_bytes from_be_bytes
from-to_be_bytes n v h = rw reverse-reverse (from-to_le_bytes n v h)

pub to-from_be_bytes : (n : ℕ) (bs : List ℕ) → IsBytes n bs → to_be_bytes n (from_be_bytes bs) ≡ bs
unfolding to_be_bytes from_be_bytes
to-from_be_bytes n bs h =
    let (hr, er) = reverse-IsBytes n bs h in
    let digits : to_le_bytes n (from_le_bytes (reverse bs)) ≡ reverse bs =
      rw (← er) (to-from_le_bytes (reverse bs) hr) in
    ap reverse digits ∙ reverse-reverse bs

pub from_be_bytes-lt : (n : ℕ) (bs : List ℕ) → IsBytes n bs → from_be_bytes bs < 256 ^ n
unfolding from_be_bytes
from_be_bytes-lt n bs h = from_le_bytes-lt n (reverse bs) (reverse-IsBytes n bs h)

horner : (x p low high : ℕ) → x + 256 * (low + p * high) ≡ x + 256 * low + 256 * p * high
horner x p low high = omega (arith, mul_assoc 256 p high)

from_le_bytes-append :
    (xs ys : List ℕ)
    → from_le_bytes (xs ++ ys) ≡ from_le_bytes xs + 256 ^ length xs * from_le_bytes ys
unfolding from_le_bytes
from_le_bytes-append [] ys = omega arith
from_le_bytes-append (x ∷ xs) ys =
    let power : 256 ^ suc (length xs) ≡ 256 * 256 ^ length xs = omega arith in
    ap (λ v. x + 256 * v) (from_le_bytes-append xs ys)
    ∙ horner x (256 ^ length xs) (from_le_bytes xs) (from_le_bytes ys)
    ∙ ap (λ p. x + 256 * from_le_bytes xs + p * from_le_bytes ys) (sym power)

-- The bytes in front are the high ones.
pub from_be_bytes-append :
    (xs ys : List ℕ)
    → from_be_bytes (xs ++ ys) ≡ from_be_bytes ys + 256 ^ length ys * from_be_bytes xs
unfolding from_be_bytes
from_be_bytes-append xs ys =
    ap from_le_bytes (reverse-append xs ys)
    ∙ from_le_bytes-append (reverse ys) (reverse xs)
    ∙ ap (λ n. from_le_bytes (reverse ys) + 256 ^ n * from_le_bytes (reverse xs))
        (length-reverse ys)
