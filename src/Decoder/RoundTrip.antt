-- ===== src/Decoder/RoundTrip.antt =====
-- `decode` and `encode_transfer` are inverse to each other: the wire format has exactly one
-- encoding of each transfer, and nothing else is accepted.
use fortresswallet.Base.{
  ℕ, ◌^◌, ◌≡◌, sym, ap, ◌∙◌, ◌<◌, inl, inr, List, [], ◌∷◌, append-nil, length, ok, All, arith,
  append_split,
}
use fortresswallet.Base.Bytes.{
  IsByte, IsU64, IsU128, IsBytes, to_be_bytes, from_be_bytes, to_be_bytes-IsBytes,
  length-to_be_bytes, from-to_be_bytes, to-from_be_bytes, from_be_bytes-lt,
}
use fortresswallet.Decoder.{
  DecodedTransaction, current_version, decode, encode_transfer, canonical_bytes,
}
use fortresswallet.Decoder.Frame.{frame, Fields, fields}
use fortresswallet.Decoder.Verdict.{verdict, decode-frame, decode_short, long_or_short}

-- The values that the fields' machine types hold.
pub record IsTransaction (tx : DecodedTransaction) : Type 0 where
  pub chain_id : IsU64 tx.chain_id
  pub to : IsBytes 20 tx.to
  pub value : IsU128 tx.value

encode_transfer-frame :
    (c : ℕ) (to : List ℕ) (v : ℕ)
    → encode_transfer c to v
      ≡ frame current_version (to_be_bytes 8 c) to (to_be_bytes 16 v) (to_be_bytes 2 0) []
unfolding encode_transfer
encode_transfer-frame c to v = rw (append-nil (to_be_bytes 2 0))

-- What `encode_transfer` writes for values of the fields' types, `decode` reads back.
pub decode-encode_transfer :
    (tx : DecodedTransaction)
    → IsTransaction tx
    → decode (encode_transfer tx.chain_id tx.to tx.value) ≡ ok tx
decode-encode_transfer tx h =
    let framed =
      decode-frame current_version (to_be_bytes 8 tx.chain_id) tx.to (to_be_bytes 16 tx.value)
        (to_be_bytes 2 0) [] (to_be_bytes-IsBytes 8 tx.chain_id) h.to
        (to_be_bytes-IsBytes 16 tx.value) (to_be_bytes-IsBytes 2 0) in
    let c = from-to_be_bytes 8 tx.chain_id h.chain_id in
    let v = from-to_be_bytes 16 tx.value h.value in
    let z = from-to_be_bytes 2 0 (omega arith) in rw encode_transfer-frame (framed ∙ rw (c, v, z))

-- An accepted verdict fixes the version, the length field and the calldata.
verdict_ok :
    (version : ℕ) (chain to value len calldata : List ℕ) (tx : DecodedTransaction)
    → verdict version chain to value len calldata ≡ ok tx
    → (version ≡ 1)
      × (from_be_bytes len ≡ 0)
      × (calldata ≡ [])
      × (tx ≡ record { chain_id = from_be_bytes chain; to = to; value = from_be_bytes value })
verdict_ok version chain to value len [] tx h = ground arith
verdict_ok version chain to value len (b ∷ bs) tx h = ground arith

accepted :
    (version : ℕ) (rest : List ℕ) (tx : DecodedTransaction)
    → decode (version ∷ rest) ≡ ok tx
    → Fields version rest
    → (encode_transfer tx.chain_id tx.to tx.value ≡ version ∷ rest) × IsTransaction tx
accepted version rest tx e f =
    let framed =
      decode-frame version f.chain f.to f.value f.len f.calldata f.chain_8 f.to_20 f.value_16
        f.len_2 in
    let (v1, l0, c0, t) =
      verdict_ok version f.chain f.to f.value f.len f.calldata tx
        (sym framed ∙ ap decode (sym f.whole) ∙ e) in
    let chain = to-from_be_bytes 8 f.chain f.chain_8 in
    let value = to-from_be_bytes 16 f.value f.value_16 in
    let len : to_be_bytes 2 0 ≡ f.len =
      ap (to_be_bytes 2) (sym l0) ∙ to-from_be_bytes 2 f.len f.len_2 in
    rw t (
      encode_transfer-frame (from_be_bytes f.chain) f.to (from_be_bytes f.value)
          ∙ rw (chain, value, len) (sym (f.whole ∙ rw (v1, c0))),
      record {
        chain_id = from_be_bytes-lt 8 f.chain f.chain_8;
        to = f.to_20;
        value = from_be_bytes-lt 16 f.value f.value_16;
      },
    )

-- Whatever `decode` accepts is, byte for byte, what `encode_transfer` writes for the transfer that
-- it returns, whose fields are within their types; so no two inputs decode to the same transfer.
pub encode_transfer-decode :
    (raw : List ℕ) (tx : DecodedTransaction)
    → All IsByte raw
    → decode raw ≡ ok tx
    → (encode_transfer tx.chain_id tx.to tx.value ≡ raw) × IsTransaction tx
encode_transfer-decode [] tx h e = unfold decode in cc
encode_transfer-decode (version ∷ rest) tx h e = elim (long_or_short (length rest)) [
  | inl short ↦ cc (decode_short version rest short)
  | inr long ↦ accepted version rest tx e (fields version rest h.1 long)
]

to_be_bytes_injective :
    (n a b : ℕ) → a < 256 ^ n → b < 256 ^ n → to_be_bytes n a ≡ to_be_bytes n b → a ≡ b
to_be_bytes_injective n a b ha hb e =
    sym (from-to_be_bytes n a ha) ∙ ap from_be_bytes e ∙ from-to_be_bytes n b hb

-- Two transactions whose fields are within their types and whose canonical bytes are equal are
-- equal: what is hashed and signed determines the transaction.
canonical_bytes_injective :
    (a b : DecodedTransaction)
    → IsTransaction a
    → IsTransaction b
    → canonical_bytes a ≡ canonical_bytes b
    → a ≡ b
unfolding canonical_bytes
canonical_bytes_injective a b ha hb e =
    let (chains, rest) =
      append_split 8 _ _ _ _ (length-to_be_bytes 8 a.chain_id) (length-to_be_bytes 8 b.chain_id)
        e in
    let (tos, values) = append_split 20 _ _ _ _ ha.to.1 hb.to.1 rest in
    let chain = to_be_bytes_injective 8 a.chain_id b.chain_id ha.chain_id hb.chain_id chains in
    let value = to_be_bytes_injective 16 a.value b.value ha.value hb.value values in
    ground (arith, chain, tos, value)
