-- ===== src/Tests/Signing.antt =====
-- Shares and ceremonies on the small backend: key 42 split by 42 + 5 x, any two of three.
use fortresswallet.Base.{ℕ, ◌≡◌, refl, true, List, [], ◌∷◌, ◌++◌, replicate, All, ok, err}
use fortresswallet.Base.Bytes.{to_be_bytes, from_be_bytes}
use fortresswallet.Decoder.{DecodedTransaction, decode, encode_transfer}
use fortresswallet.Decoder.RoundTrip.{IsTransaction}
use fortresswallet.Policy.{new}
use fortresswallet.Crypto.Shamir.{
  Share, duplicate_share_index, wrong_share_count, split, reconstruct, reconstruct_and_verify,
  reconstruct_unverified, interpolate, lagrange_coefficient, lagrange_loop, check_shares, is_in,
  share_at, eval_loop, draws, shares_from,
}
use fortresswallet.Crypto.Shamir.Checks.{Quorum, reconstruct_and_verify_sound}
use fortresswallet.Ceremony.{rotate_shares, sign_with_shares}
use fortresswallet.Ceremony.{digest_of, sign_transaction, sign_transaction_with_policy}
use fortresswallet.Ceremony.Sound.{IsSignedBy, sign_with_shares_complete, sign_transaction_sound}
use fortresswallet.Ceremony.Guarded.{Meaning, sign_transaction_with_policy-Meaning}
use fortresswallet.Ceremony.Stall.{Request, IsUnsigned, serve, new-never_signs}
use fortresswallet.Tests.Toy.{toy, toy_ecdsa}
use fortresswallet.Tests.Decoding.{transfer, transfer_raw, transfer_raw-IsByte}
use fortresswallet.Tests.Spending.{config, engine}

abbrev pub share : ℕ → ℕ → Share
share i y = record { index = i; threshold = 2; value = replicate 31 0 ++ (y ∷ []) }

abbrev pub two_shares : List Share
two_shares = share 3 57 ∷ share 1 47 ∷ []

split-42 : split toy 42 2 3 (λ _. 5) ≡ ok (share 1 47 ∷ share 2 52 ∷ share 3 57 ∷ [])
unfolding split draws shares_from share_at eval_loop to_be_bytes from_be_bytes
split-42 = refl

reconstruct-two : reconstruct toy two_shares ≡ ok 42
unfolding reconstruct interpolate lagrange_coefficient lagrange_loop check_shares is_in to_be_bytes
    from_be_bytes
reconstruct-two = refl

verified-two : reconstruct_and_verify toy two_shares 42 ≡ ok 42
unfolding reconstruct_and_verify reconstruct interpolate lagrange_coefficient lagrange_loop
    check_shares is_in to_be_bytes from_be_bytes
verified-two = refl

repeated_index :
    reconstruct_unverified toy (share 1 47 ∷ share 1 47 ∷ []) ≡ err duplicate_share_index
unfolding reconstruct check_shares is_in
repeated_index = refl

too_few : reconstruct_unverified toy (share 1 47 ∷ []) ≡ err wrong_share_count
unfolding reconstruct
too_few = refl

reconstruct_and_verify_sound_example :
    Quorum two_shares × (reconstruct toy two_shares ≡ ok 42) × (toy.same_key 42 42 ≡ true)
reconstruct_and_verify_sound_example =
    reconstruct_and_verify_sound toy two_shares 42 42 verified-two

signed-two : sign_with_shares toy two_shares 42 (7 ∷ []) ≡ ok (42 ∷ 7 ∷ [])
signed-two = sign_with_shares_complete toy toy_ecdsa two_shares 42 (7 ∷ []) reconstruct-two

rotated :
    rotate_shares toy two_shares 42 2 3 (λ _. 5) ≡ ok (share 1 47 ∷ share 2 52 ∷ share 3 57 ∷ [])
unfolding rotate_shares reconstruct_and_verify reconstruct interpolate lagrange_coefficient
    lagrange_loop check_shares is_in split draws shares_from share_at eval_loop to_be_bytes
    from_be_bytes
rotated = refl

abbrev transfer_signature : List ℕ
transfer_signature = 42 ∷ digest_of toy transfer

sign_transaction-transfer : sign_transaction toy transfer_raw two_shares 42 ≡ ok transfer_signature
unfolding sign_transaction decode sign_with_shares reconstruct_and_verify reconstruct interpolate
    lagrange_coefficient lagrange_loop check_shares is_in to_be_bytes from_be_bytes
    fortresswallet.Decoder.canonical_bytes
sign_transaction-transfer = refl

sign_transaction_sound_example :
    (tx : DecodedTransaction) × (encode_transfer tx.chain_id tx.to tx.value ≡ transfer_raw)
    × IsTransaction tx
    × IsSignedBy toy two_shares 42 (digest_of toy tx) transfer_signature
sign_transaction_sound_example =
    sign_transaction_sound toy transfer_raw two_shares 42 transfer_signature transfer_raw-IsByte
      sign_transaction-transfer

sign_transaction_with_policy-Meaning_example :
    Meaning toy transfer_raw two_shares 42 300 engine
      (sign_transaction_with_policy toy transfer_raw two_shares 42 300 engine)
sign_transaction_with_policy-Meaning_example =
    sign_transaction_with_policy-Meaning toy transfer_raw two_shares 42 300 engine

abbrev requests : List (Request toy)
requests =
    record { raw_tx = transfer_raw; shares = two_shares; expected = 42; now = 300 }
    ∷ record { raw_tx = transfer_raw; shares = two_shares; expected = 42; now = 1000000 }
    ∷ []

new-never_signs_example :
    All (IsUnsigned toy) (serve toy (new config) requests).0
    × ((serve toy (new config) requests).1 ≡ new config)
new-never_signs_example = new-never_signs toy config requests
