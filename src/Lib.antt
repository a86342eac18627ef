-- ===== src/Lib.antt =====
-- fortresswallet: a wallet whose signing key is held as Shamir shares. Bytes of a transaction go
-- through a strict decoder, the spending policy judges what was decoded, and only then are the
-- shares put together, for the time of one signature.
--
-- The parts and the files that model them:
-- * crates/wallet-decoder/src/lib.rs is Decoder: `decode` and `encode_transfer` on lists of
--   bytes. The children hold the verdict of every branch, the round trips and the reasons of the
--   errors.
-- * crates/wallet-core/src/policy.rs is Policy: the record PolicyEngine with its configuration,
--   history and known destinations, `evaluate`, which only reads it, and `record_approved`,
--   which returns the new engine. Policy/Clock has the standard library's time and u128
--   arithmetic. Times are nanoseconds from the earliest SystemTime, and `none` is a panic: the
--   workspace builds with overflow checks.
-- * crates/wallet-crypto/src/keys.rs is Crypto and src/shamir.rs is Crypto/Shamir. The crates
--   k256, sha2 and sha3 are the record Backend, a parameter of everything above them; EcdsaLaws,
--   ScalarLaws and KeyLaws say what of their documented behaviour some theorems need: that
--   scalars are a field, read back from their bytes. Random scalars are arguments. Field,
--   Polynomial, Weights and Interpolation carry the algebra of Lagrange interpolation; Recovered
--   applies it to a quorum, and Secrecy to one share less, with the polynomial that Fitting
--   builds, and Tampered to a quorum with one wrong share, under the laws KeyIdentityLaws.
-- * crates/wallet-storage/src/lib.rs is Storage: `seal` and `open` (here `open_key`) for keys,
--   `seal_share` and `open_share` for shares. Argon2id and XChaCha20-Poly1305 are the record
--   Vault with the laws VaultLaws. The saved files are in Storage/Files, over the record Disk
--   for the file system and `tempfile`, with the laws DiskLaws; a file that is dropped is
--   removed.
-- * crates/wallet-core/src/ceremony.rs and recovery.rs are Ceremony: `sign_with_shares` and its
--   variants in Ceremony/Signing, the two entry points `sign_transaction` and
--   `sign_transaction_with_policy` in Ceremony/Entry, `rotate_shares` in Ceremony/Signing. The
--   policy-guarded entry point mutates a PolicyEngine and is an action on it. Ceremony/Dealt
--   follows the shares of a key through signing and rotation. Ceremony/Refined is the abstract
--   specification, a signer that holds the key itself and forgets no approval, which the entry
--   point refines.
-- * crates/wallet-decoder/src/evm.rs is Decoder/Evm: the EIP-1559 format over the record Rlp for
--   the crate alloy-rlp, with the laws RlpLaws.
-- * crates/wallet-core/src/evm.rs is Evm: the building of transactions under the fee ceiling and
--   `sign_and_encode`, with the policy-guarded entry point in Evm/Entry. Evm/Address is the
--   checksummed form of an address, Evm/Sender what a node reads out of the bytes, over the
--   record Recovery of `k256` with the laws RecoveryLaws.
-- * crates/wallet-core/src/wallet.rs is Wallet: the directory of a wallet, over the Disk and the
--   record Folders for `join`, `create_dir_all` and `write`, with the laws FolderLaws. The salts
--   and nonces of the seals are arguments. Wallet/Quorum puts the shares of a created wallet to
--   use.
-- * crates/wallet-rpc/src/lib.rs is Rpc: values that one node claims, and the cross-check with
--   other nodes, which asks them in order. src/evm.rs is Rpc/Client, over the record Net for the
--   HTTP agent and serde_json, with the law NetLaws; its hexadecimal is Rpc/Encoding.
-- * crates/wallet-cli/src/hex.rs is Hex, on lists of bytes, and src/main.rs is Cli: every
--   command is an action on one world, which the Disk, the Net and the record Terminal share.
--   Cli/Send is the command that sends; Cli/Agreed and Cli/Sent say what it has checked. Cli/Run
--   is `run` and `main`.
-- * crates/wallet-ffi/src/lib.rs is Ffi: the checks of a request's parameters over the record
--   Host for paths, base64 and JSON, Ffi/Abi for contract calls, Ffi/Handlers for the handlers,
--   Ffi/Sending for the two that send, which share their common end, and Ffi/Entry for the
--   dispatch. Ffi/Text has the texts of answers and errors, over the
--   record Texts for the libraries' own, and Ffi/Boundary the functions that the host
--   calls, with the catch of panics: `invoke` of the model can panic as any call can.
--   Ffi/SentOver and Ffi/Asked say what the common parts of a transfer have checked,
--   Ffi/CoinSent and Ffi/TokenSent what the two transfers have.
-- * Base has the shared tests, lists, bytes, the Result with a `panic` beside `ok` and `err`,
--   the monad of actions, and JSON values. Tests runs the definitions on concrete values, over a
--   small backend whose scalars are the numbers modulo 257 and one with their field laws
--   (Tests/Prime), a small cipher, a small disk, a small framing and small networks.
--
-- Every loop of the modelled code runs over a list or a count. Only the digits of a number have
-- fuel, the most digits that its type can have: 32 hexadecimal ones for a u128, three, 20 and 39
-- decimal ones for a u8, a u64 and a u128.
--
-- Numbers are natural numbers, with the width of each operation written out where it matters:
-- sums of u128 are checked or saturate as in the source, the byte encodings have fixed lengths.
-- Where a theorem needs a value to fit its type, a hypothesis says so.
--
-- Not modelled: the pages of a secret, zeroizing and redaction, which change no value; the texts
-- of the command line's errors and prompts, most of them derived, and the details of a malformed
-- response; the parsing of command-line arguments; the set-up of TLS; and the memory behind the
-- pointers of the entry point for hosts, which `free_string` gives back.
pub mod Base
pub mod Hex
pub mod Decoder
pub mod Policy
pub mod Crypto
pub mod Storage
pub mod Ceremony
pub mod Wallet
pub mod Rpc
pub mod Evm
pub mod Cli
pub mod Ffi
pub mod Tests
