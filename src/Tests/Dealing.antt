-- ===== src/Tests/Dealing.antt =====
-- Shares of the key 42 over the field of 257 elements at work.
use fortresswallet.Base.{◌≡◌, refl, List, [], ◌∷◌, replicate, ok, arith}
use fortresswallet.Base.Bytes.{to_be_bytes, from_be_bytes}
use mathlib.Core.List.Memᴰ.{head, tail}
use fortresswallet.Crypto.Shamir.{
  Share, split, reconstruct, share_at, eval_loop, draws, shares_from,
}
use fortresswallet.Ceremony.{sign_with_shares, rotate_shares}
use fortresswallet.Ceremony.Dealt.{IsDealt, rotate_shares-split, rotate_shares-IsDealt}
use fortresswallet.Policy.{PolicyEngine, evaluate, window_total, sum_u128, counts, contains}
use fortresswallet.Decoder.{decode, canonical_bytes}
use fortresswallet.Ceremony.Stall.{Request, serve}
use fortresswallet.Ceremony.Refined.{key_signer, promised, serve-promised}
use fortresswallet.Tests.Prime.{residue, prime, prime_scalars, prime_keys, prime_ecdsa}
use fortresswallet.Tests.Splitting.{point, three, drawn, split-three}
use fortresswallet.Tests.Decoding.{transfer, transfer_raw}
use fortresswallet.Tests.Spending.{engine}

abbrev quorum : List Share
quorum = point 3 57 ∷ point 1 47 ∷ []

quorum-IsDealt : IsDealt prime (residue 42) quorum
quorum-IsDealt = record {
  threshold = 2;
  parties = 3;
  draw = drawn;
  shares = three;
  made = split-three;
  few_parties = omega arith;
  members = (tail (tail (head refl)), (head refl, tt));
  count = refl;
  distinct = ((omega arith, tt), (tt, tt));
}

-- The destination of the transfer is known.
abbrev policy : PolicyEngine
policy = record engine { known_destinations = (1, replicate 20 0xab) ∷ [] }

abbrev request : Request prime
request = record { raw_tx = transfer_raw; shares = quorum; expected = residue 42; now = 300 }

abbrev request_later : Request prime
request_later = record request { now = 400 }

-- The key 42 again, now with 42 + 9 x.
abbrev anew : List Share
anew = point 1 51 ∷ point 2 60 ∷ []

rotated : rotate_shares prime quorum (residue 42) 2 2 (λ i. residue 9) ≡ ok anew
unfolding split draws shares_from share_at eval_loop to_be_bytes from_be_bytes
rotated =
    rotate_shares-split prime prime_scalars prime_keys prime_ecdsa (residue 42) quorum 2 2
      (λ i. residue 9) quorum-IsDealt

rotate_shares-IsDealt_example :
    (rotate_shares prime quorum (residue 42) 2 2 (λ i. residue 9)
      ≡ split prime (residue 42) 2 2 (λ i. residue 9))
    × (reconstruct prime anew ≡ ok (residue 42))
    × (sign_with_shares prime anew (residue 42) (7 ∷ []) ≡ ok (42 ∷ 7 ∷ []))
rotate_shares-IsDealt_example =
    rotate_shares-IsDealt prime prime_scalars prime_keys prime_ecdsa (residue 42) quorum anew anew 2
      2 (λ i. residue 9) (7 ∷ []) quorum-IsDealt rotated (omega arith)
      (head refl, (tail (head refl), tt)) refl ((omega arith, tt), (tt, tt))

-- The policy lets the first request through.
signed-first :
    promised prime (residue 42) policy (request ∷ [])
    ≡ ok (42 ∷ prime.sha256 (canonical_bytes transfer)) ∷ []
unfolding key_signer evaluate window_total sum_u128 counts contains decode from_be_bytes to_be_bytes
signed-first = refl

serve-promised_example :
    (serve prime policy (request ∷ request_later ∷ [])).0
    ≡ promised prime (residue 42) policy (request ∷ request_later ∷ [])
serve-promised_example =
    serve-promised prime prime_scalars prime_keys prime_ecdsa (residue 42) policy 200
      (request ∷ request_later ∷ []) ((quorum-IsDealt, refl), ((quorum-IsDealt, refl), tt))
      (omega arith, (omega arith, (omega arith, tt))) (omega arith, (omega arith, tt))
