-- ===== src/Evm.antt =====
-- crates/wallet-core/src/evm.rs: EVM transactions built and signed with shares.
pub mod Sender
pub mod Address
pub mod Entry
pub mod Guarded
pub mod Broadcast
use fortresswallet.Base.{
  ℕ, Bool, true, false, List, [], ◌∷◌, take, drop, ltb, if◌then◌else◌, Result, ok, err, ◌>>=◌, ◌>>◌,
  fail_if, map_err,
}
use fortresswallet.Decoder.Evm.{
  Rlp, UnsignedEip1559Tx, SignedEip1559Tx, encode_unsigned, encode_signed,
}
use fortresswallet.Crypto.{keccak256, Backend, PublicKey, to_uncompressed_sec1_bytes}
use fortresswallet.Crypto.Shamir.{Share}
use fortresswallet.Ceremony.{CeremonyError, sign_with_shares_recoverable}

-- 10,000 gwei, in wei.
abbrev pub max_fee_per_gas_ceiling : ℕ
max_fee_per_gas_ceiling = 10_000_000_000_000

-- The requested fee and the ceiling.
pub data EvmBuildError : Type 0 where
  fee_cap_exceeded : ℕ → ℕ → EvmBuildError

unfoldable pub build_unsigned_contract_call :
    ℕ → List ℕ → ℕ → List ℕ → ℕ → ℕ → ℕ → ℕ → Result UnsignedEip1559Tx EvmBuildError
build_unsigned_contract_call chain_id to value call_data nonce fee priority_fee gas_limit = do
  fail_if (ltb max_fee_per_gas_ceiling fee) (fee_cap_exceeded fee max_fee_per_gas_ceiling)
  ok (record {
    chain_id = chain_id;
    nonce = nonce;
    max_priority_fee_per_gas = priority_fee;
    max_fee_per_gas = fee;
    gas_limit = gas_limit;
    to = to;
    value = value;
    call_data = call_data;
  })

unfoldable pub build_unsigned_transfer :
    ℕ → List ℕ → ℕ → ℕ → ℕ → ℕ → ℕ → Result UnsignedEip1559Tx EvmBuildError
build_unsigned_transfer chain_id to value nonce fee priority_fee gas_limit = do
  fail_if (ltb max_fee_per_gas_ceiling fee) (fee_cap_exceeded fee max_fee_per_gas_ceiling)
  ok (record {
    chain_id = chain_id;
    nonce = nonce;
    max_priority_fee_per_gas = priority_fee;
    max_fee_per_gas = fee;
    gas_limit = gas_limit;
    to = to;
    value = value;
    call_data = [];
  })

pub data EvmCeremonyError : Type 0 where
  ceremony : CeremonyError → EvmCeremonyError
  unrepresentable_recovery_id : EvmCeremonyError

module _ (B : Backend) where
  unfoldable pub address_from_public_key : PublicKey B → List ℕ
  address_from_public_key public_key =
      let uncompressed = to_uncompressed_sec1_bytes B public_key in
      let hash = keccak256 B (drop 1 uncompressed) in drop 12 hash

  module _ (R : Rlp) where
    abbrev pub hash_for_signing : UnsignedEip1559Tx → List ℕ
    hash_for_signing tx = keccak256 B (encode_unsigned R tx)

    -- The transaction with its signature, the bytes of which are `r` and `s`.
    abbrev pub assemble : UnsignedEip1559Tx → B.Signature → B.RecoveryId → SignedEip1559Tx
    assemble tx signature recovery_id =
        let sig_bytes = B.signature_to_bytes signature in
        record {
          tx = tx;
          y_parity = if B.is_y_odd recovery_id then 1 else 0;
          r = take 32 sig_bytes;
          s = drop 32 sig_bytes;
        }

    unfoldable pub sign_and_encode :
        UnsignedEip1559Tx → List Share → PublicKey B → Result (List ℕ) EvmCeremonyError
    sign_and_encode tx shares expected = do
      let digest = hash_for_signing tx
      (signature, recovery_id) ←
          map_err ceremony (sign_with_shares_recoverable B shares expected digest)
      fail_if (B.is_x_reduced recovery_id) unrepresentable_recovery_id
      ok (encode_signed R (assemble tx signature recovery_id))

    abbrev pub sign_evm_transfer :
        UnsignedEip1559Tx → List Share → PublicKey B → Result (List ℕ) EvmCeremonyError
    sign_evm_transfer tx shares expected = sign_and_encode tx shares expected
