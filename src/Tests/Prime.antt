-- ===== src/Tests/Prime.antt =====
-- A backend whose scalars are the field of the numbers modulo 257, with scalars as keys and the hashes of Tests/Toy.
use fortresswallet.Base.{
  ℕ, zero, suc, ◌+◌, ◌-◌, ◌*◌, ◌%◌, ◌^◌, ◌<◌, ◌≡◌, refl, sym, ap, ◌∙◌, true, false, ◌&&◌, ◌||◌,
  Bool, Option, none, some, List, ◌∷◌, ◌==◌, ==_iff, Bool-cases, inl, inr, ◌≢◌, bytes_eq,
  bytes_eq_refl, if◌then◌else◌, arith,
}
use mathlib.Core.HLevel.{Σ_prop_path}
use native.Mathlib.Bridge.{le_prop}
use native.Mathlib.Nat.{div-add-mod}
use fortresswallet.Base.Bytes.{to_be_bytes, from_be_bytes, from-to_be_bytes}
use fortresswallet.Crypto.{Backend, EcdsaLaws}
use fortresswallet.Crypto.Shamir.Field.{ScalarLaws}
use fortresswallet.Crypto.Shamir.Recovered.{KeyLaws}
use fortresswallet.Crypto.Shamir.Tampered.{KeyIdentityLaws}
use fortresswallet.Tests.Toy.{toy}

abbrev pub Residue : Type 0
Residue = (n : ℕ) × (n < 257)

pub residue_bound : (n : ℕ) → n % 257 < 257
residue_bound n = omega arith

abbrev pub residue : ℕ → Residue
residue n = (n % 257, residue_bound n)

Residue-ext : (a b : Residue) → a.0 ≡ b.0 → a ≡ b
Residue-ext a b h = Σ_prop_path (λ n. le_prop) h

unfoldable pub inverse_of : ℕ → ℕ
inverse_of a = a ^ 255 % 257

mul_mod_left : (a b : ℕ) → a % 257 * b % 257 ≡ a * b % 257
mul_mod_left a b = omega (arith, ap (λ (t : ℕ). t * b) (div-add-mod a 257))

abbrev inverts : ℕ → Bool
inverts a = a == 0 || (a * inverse_of a % 257 == 1)

inverses_to : ℕ → Bool
inverses_to zero = true
inverses_to (suc bound) = let earlier = inverses_to bound in earlier && inverts bound

inverses_to-inverts : (a bound : ℕ) → inverses_to bound ≡ true → a < bound → inverts a ≡ true
unfolding inverses_to inverse_of
inverses_to-inverts a zero table small = absurd (omega arith)
inverses_to-inverts a (suc bound) table small =
    let earlier = inverses_to-inverts a bound in ground (arith, earlier)

inverse_table : inverses_to 257 ≡ true
unfolding inverses_to inverse_of
inverse_table = refl

mul_residue_assoc : (a b c : ℕ) → a * b % 257 * c % 257 ≡ a * (b * c % 257) % 257
mul_residue_assoc a b c = omega (arith, mul_mod_left (a * b) c, mul_mod_left (b * c) a)

mul_residue-add : (a b c : ℕ) → a * ((b + c) % 257) % 257 ≡ (a * b % 257 + a * c % 257) % 257
mul_residue-add a b c = omega (arith, mul_mod_left (b + c) a)

abbrev pub invert_residue : Residue → Option Residue
invert_residue a = if a.0 == 0 then none else some (residue (inverse_of a.0))

inverse_lem : (a : ℕ) → a < 257 → a ≢ 0 → a * inverse_of a % 257 ≡ 1
inverse_lem a h ne = ground (arith, inverses_to-inverts a 257 inverse_table h)

some_not_none {ℓ} : {A : Type ℓ} {a : A} → some a ≢ none
some_not_none h = cc

test_apart : {b : Bool} → b ≡ false → b ≢ true
test_apart h k = cc

value_or_zero : Option Residue → ℕ
value_or_zero none = 0
value_or_zero (some r) = r.0

inverse_bound : (a : ℕ) → inverse_of a % 257 ≡ inverse_of a
unfolding inverse_of
inverse_bound a = omega arith

inverted : (a b : Residue) → invert_residue a ≡ some b → (a.0 ≢ 0) × (b.0 ≡ inverse_of a.0 % 257)
unfolding value_or_zero
inverted a b h = elim (Bool-cases (a.0 == 0)) [
  | inl zero_value ↦ absurd (some_not_none (sym (rw zero_value at h)))
  | inr other ↦
      (λ e. absurd (test_apart other ((==_iff a.0 0).1 e)), ap value_or_zero (sym (rw other at h)))
]

not_inverted : (a : Residue) → invert_residue a ≡ none → a.0 ≡ 0
not_inverted a h = elim (Bool-cases (a.0 == 0)) [
  | inl zero_value ↦ (==_iff a.0 0).0 zero_value
  | inr other ↦ absurd (some_not_none (rw other at h))
]

inverse_product : (a b : Residue) → invert_residue a ≡ some b → a.0 * b.0 % 257 ≡ 1
inverse_product a b h =
    let (ne, e) = inverted a b h in
    let same = inverse_lem a.0 a.1 ne in let value = e ∙ inverse_bound a.0 in rw value same

abbrev pub prime : Backend
prime = record {
  Scalar = Residue;
  from_u64 = residue;
  add = λ a b. residue (a.0 + b.0);
  sub = λ a b. residue (a.0 + 257 - b.0);
  mul = λ a b. residue (a.0 * b.0);
  invert = invert_residue;
  to_bytes = λ a. to_be_bytes 32 a.0;
  reduce_bytes = λ bytes. residue (from_be_bytes bytes);
  SigningKey = Residue;
  VerifyingKey = Residue;
  Signature = List ℕ;
  RecoveryId = ℕ;
  key_from_bytes = λ bytes. some (residue (from_be_bytes bytes));
  key_to_bytes = λ key. to_be_bytes 32 key.0;
  verifying_key = λ key. key;
  same_key = λ a b. a.0 == b.0;
  sign = λ key digest. key.0 ∷ digest;
  sign_recoverable = λ key digest. (key.0 ∷ digest, 0);
  verify = λ key digest signature. bytes_eq signature (key.0 ∷ digest);
  is_x_reduced = toy.is_x_reduced;
  is_y_odd = toy.is_y_odd;
  signature_to_bytes = toy.signature_to_bytes;
  to_sec1 = λ key. to_be_bytes 33 key.0;
  from_sec1 = λ bytes. some (residue (from_be_bytes bytes));
  to_uncompressed_sec1 = λ key. to_be_bytes 65 key.0;
  sha256 = toy.sha256;
  keccak256 = toy.keccak256;
}

pub prime_scalars : ScalarLaws prime
prime_scalars = record {
  add_comm = λ a b. Residue-ext _ _ (omega arith);
  add_assoc = λ a b c. Residue-ext _ _ (omega arith);
  add-zero = λ a. Residue-ext _ _ (omega (arith, a.1));
  sub-add = λ a b. Residue-ext _ _ (omega (arith, a.1, b.1));
  add-sub = λ a b. Residue-ext _ _ (omega (arith, a.1, b.1));
  mul_comm = λ a b. Residue-ext _ _ (omega arith);
  mul_assoc = λ a b c. Residue-ext _ _ (mul_residue_assoc a.0 b.0 c.0);
  mul-one = λ a. Residue-ext _ _ (omega (arith, a.1));
  mul-add = λ a b c. Residue-ext _ _ (mul_residue-add a.0 b.0 c.0);
  mul-invert = λ a b h. Residue-ext _ _ (inverse_product a b h);
  invert-none = λ a h. Residue-ext _ _ (not_inverted a h);
  from_u64_injective = λ i j hi hj h. omega (arith, ap (λ (r : Residue). r.0) h);
}

residue-bytes : (a : Residue) → residue (from_be_bytes (to_be_bytes 32 a.0)) ≡ a
residue-bytes a = Residue-ext _ _ (omega (arith, from-to_be_bytes 32 a.0 (omega (arith, a.1)), a.1))

pub prime_keys : KeyLaws prime
prime_keys = record {
  reduce_bytes-to_bytes = residue-bytes;
  to_bytes-key = λ key. ap (λ (r : Residue). to_be_bytes 32 r.0) (residue-bytes key);
  key_from_bytes-key = λ key. ap some (residue-bytes key);
}

pub prime_identity : KeyIdentityLaws prime
prime_identity = record {
  key_to_bytes-from = λ s key h.
      ap (λ (r : Residue). to_be_bytes 32 r.0)
        (sym (ap (λ o. elim o [ none ↦ key | some k ↦ k ]) h) ∙ residue-bytes s);
  verifying_key_injective = λ a b h. h;
}

pub prime_ecdsa : EcdsaLaws prime
prime_ecdsa = record {
  same_key_iff = λ a b. (
    λ h. Residue-ext a b ((==_iff a.0 b.0).0 h),
    λ h. (==_iff a.0 b.0).1 (ap (λ (r : Residue). r.0) h),
  );
  verify-sign = λ key digest. bytes_eq_refl (key.0 ∷ digest);
}
