-- ===== src/Tests/Toy.antt =====
-- A small backend that runs: scalars modulo 257, and signatures that spell out key and digest.
use fortresswallet.Base.{
  ℕ, ◌+◌, ◌-◌, ◌*◌, ◌%◌, ◌^◌, false, ◌||◌, Option, none, some, List, ◌∷◌, leb, ◌==◌, ==_iff,
  if◌then◌else◌, ◌≡◌, bytes_eq, take, replicate, ◌++◌, length, length-take, length-append,
  length-replicate, arith, bytes_eq_refl,
}
use fortresswallet.Base.Bytes.{to_be_bytes, from_be_bytes}
use fortresswallet.Crypto.{Backend, EcdsaLaws}

abbrev toy_key : List ℕ → Option ℕ
toy_key bytes =
    if from_be_bytes bytes == 0 || leb 257 (from_be_bytes bytes)
    then none
    else some (from_be_bytes bytes)

abbrev pub toy : Backend
toy = record {
  Scalar = ℕ;
  from_u64 = λ n. n % 257;
  add = λ a b. (a + b) % 257;
  sub = λ a b. (a + 257 - b) % 257;
  mul = λ a b. a * b % 257;
  invert = λ a. if a == 0 then none else some (a ^ 255 % 257);
  to_bytes = to_be_bytes 32;
  reduce_bytes = λ bytes. from_be_bytes bytes % 257;
  SigningKey = ℕ;
  VerifyingKey = ℕ;
  Signature = List ℕ;
  RecoveryId = ℕ;
  key_from_bytes = toy_key;
  key_to_bytes = to_be_bytes 32;
  verifying_key = λ key. key;
  same_key = λ a b. a == b;
  sign = λ key digest. key ∷ digest;
  sign_recoverable = λ key digest. (key ∷ digest, 0);
  verify = λ key digest signature. bytes_eq signature (key ∷ digest);
  is_x_reduced = λ _. false;
  is_y_odd = λ _. false;
  signature_to_bytes = λ signature. take 64 (signature ++ replicate 64 0);
  to_sec1 = to_be_bytes 33;
  from_sec1 = λ bytes. some (from_be_bytes bytes);
  to_uncompressed_sec1 = to_be_bytes 65;
  sha256 = λ bytes. to_be_bytes 32 (from_be_bytes bytes);
  keccak256 = λ bytes. to_be_bytes 32 (from_be_bytes bytes);
}

abbrev pub toy_ecdsa : EcdsaLaws toy
toy_ecdsa = record {
  same_key_iff = ==_iff;
  verify-sign = λ key digest. bytes_eq_refl (key ∷ digest);
}

pub toy_widths : (s : List ℕ) → length (toy.signature_to_bytes s) ≡ 64
toy_widths s = omega (
  arith,
  length-take 64 (s ++ replicate 64 0),
  length-append s (replicate 64 0),
  length-replicate {A = ℕ} 64 0,
)
