-- ===== src/Tests/Decoding.antt =====
-- The decoder on concrete bytes.
use fortresswallet.Base.{ℕ, ◌≡◌, ◌↔◌, refl, List, [], ◌∷◌, ◌++◌, replicate, All, ok, err, arith}
use fortresswallet.Base.Bytes.{IsByte, to_be_bytes, from_be_bytes}
use fortresswallet.Decoder.{
  DecodedTransaction, truncated, unrecognized_calldata, unsupported_version, decode,
  encode_transfer,
}
use fortresswallet.Decoder.RoundTrip.{IsTransaction, decode-encode_transfer, encode_transfer-decode}
use fortresswallet.Decoder.Rejects.{Reason, decode-Reason}

abbrev pub transfer : DecodedTransaction
transfer = record { chain_id = 1; to = replicate 20 0xab; value = 42 }

abbrev pub transfer_raw : List ℕ
transfer_raw =
    1 ∷ 0 ∷ 0 ∷ 0 ∷ 0 ∷ 0 ∷ 0 ∷ 0 ∷ 1 ∷ (replicate 20 0xab ++ (replicate 15 0 ++ (42 ∷ 0 ∷ 0 ∷ [])))

transfer-decodes : decode transfer_raw ≡ ok transfer
unfolding decode from_be_bytes
transfer-decodes = refl

encode_transfer-transfer : encode_transfer 1 (replicate 20 0xab) 42 ≡ transfer_raw
unfolding encode_transfer to_be_bytes
encode_transfer-transfer = refl

pub transfer-IsTransaction : IsTransaction transfer
transfer-IsTransaction = omega arith

decode-encode_transfer_example : decode (encode_transfer 1 (replicate 20 0xab) 42) ≡ ok transfer
decode-encode_transfer_example = decode-encode_transfer transfer transfer-IsTransaction

pub transfer_raw-IsByte : All IsByte transfer_raw
transfer_raw-IsByte = omega arith

encode_transfer-decode_example :
    (encode_transfer 1 (replicate 20 0xab) 42 ≡ transfer_raw) × IsTransaction transfer
encode_transfer-decode_example =
    encode_transfer-decode transfer_raw transfer transfer_raw-IsByte transfer-decodes

decode-Reason_example :
    (decode (7 ∷ replicate 46 0) ≡ err (unsupported_version 7))
    ↔ Reason (unsupported_version 7) (7 ∷ replicate 46 0)
decode-Reason_example = decode-Reason (7 ∷ replicate 46 0) (unsupported_version 7) (omega arith)

calldata_refused :
    decode (1 ∷ (replicate 44 0 ++ (0 ∷ 2 ∷ 0xde ∷ 0xad ∷ []))) ≡ err unrecognized_calldata
unfolding decode from_be_bytes
calldata_refused = refl

short_refused : decode (1 ∷ 2 ∷ []) ≡ err truncated
unfolding decode
short_refused = refl
