-- ===== src/Tests/Splitting.antt =====
-- A key split and put together over the field of 257 elements.
use fortresswallet.Base.{ℕ, ◌≡◌, ◌≢◌, refl, ap, List, [], ◌∷◌, All, ok, err, arith}
use fortresswallet.Base.Bytes.{to_be_bytes, from_be_bytes}
use mathlib.Core.List.{Memᴰ}
use mathlib.Core.List.Memᴰ.{head, tail}
use fortresswallet.Crypto.Shamir.{
  Share, reconstruction_mismatch, split, reconstruct, reconstruct_and_verify, share_at, eval_loop,
  draws, shares_from,
}
use fortresswallet.Crypto.Shamir.Recovered.{split-reconstruct, split-reconstruct_and_verify}
use fortresswallet.Crypto.Shamir.Secrecy.{split-secrecy}
use fortresswallet.Crypto.Shamir.Tampered.{reconstruct_and_verify-tampered}
use fortresswallet.Tests.Prime.{
  Residue, residue, prime, prime_scalars, prime_keys, prime_ecdsa, prime_identity,
}

abbrev pub point : ℕ → ℕ → Share
point i y = record { index = i; threshold = 2; value = to_be_bytes 32 y }

abbrev pub three : List Share
three = point 1 47 ∷ point 2 52 ∷ point 3 57 ∷ []

abbrev pub drawn : ℕ → Residue
drawn _ = residue 5

pub split-three : split prime (residue 42) 2 3 drawn ≡ ok three
unfolding split draws shares_from share_at eval_loop to_be_bytes from_be_bytes
split-three = refl

split-reconstruct_example : reconstruct prime (point 3 57 ∷ point 1 47 ∷ []) ≡ ok (residue 42)
split-reconstruct_example =
    split-reconstruct prime prime_scalars prime_keys (residue 42) 2 3 drawn three
      (point 3 57 ∷ point 1 47 ∷ []) split-three (omega arith)
      (tail (tail (head refl)), (head refl, tt)) refl ((omega arith, tt), (tt, tt))

split-secrecy_example :
    (draw : ℕ → Residue) × (shares : List Share) × (split prime (residue 7) 2 3 draw ≡ ok shares)
    × All (λ s. Memᴰ s shares) (point 2 52 ∷ [])
split-secrecy_example =
    split-secrecy prime prime_scalars (residue 42) (residue 7) 2 3 drawn three (point 2 52 ∷ [])
      split-three (omega arith) (tail (head refl), tt) (omega arith) (tt, tt)

passed-two :
    reconstruct_and_verify prime (point 3 57 ∷ point 1 47 ∷ []) (residue 42) ≡ ok (residue 42)
passed-two =
    split-reconstruct_and_verify prime prime_scalars prime_keys prime_ecdsa (residue 42) 2 3 drawn
      three (point 3 57 ∷ point 1 47 ∷ []) split-three (omega arith)
      (tail (tail (head refl)), (head refl, tt)) refl ((omega arith, tt), (tt, tt))

changed-value : prime.reduce_bytes (to_be_bytes 32 57) ≢ prime.reduce_bytes (to_be_bytes 32 58)
unfolding to_be_bytes from_be_bytes
changed-value e = absurd (omega (arith, ap (λ (r : Residue). r.0) e))

reconstruct_and_verify-tampered_example :
    reconstruct_and_verify prime (point 3 58 ∷ point 1 47 ∷ []) (residue 42)
    ≡ err reconstruction_mismatch
reconstruct_and_verify-tampered_example =
    reconstruct_and_verify-tampered prime prime_scalars prime_keys prime_identity prime_ecdsa []
      (point 3 57) (to_be_bytes 32 58) (point 1 47 ∷ []) (residue 42) (residue 42)
      (omega arith, (omega arith, tt)) passed-two changed-value
