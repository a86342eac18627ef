-- ===== src/Evm/Address.antt =====
-- crates/wallet-core/src/evm.rs: the checksummed form of an address.
pub mod Checksum
use fortresswallet.Base.{ℕ, ◌+◌, ◌-◌, ◌/◌, ◌%◌, Bool, ◌&&◌, ◌||◌, List, [], ◌∷◌, leb, if◌then◌else◌}
use fortresswallet.Hex.{hex_digits}
use fortresswallet.Crypto.{keccak256, Backend}

abbrev pub is_ascii_alphabetic : ℕ → Bool
is_ascii_alphabetic c = leb b'A' c && leb c b'Z' || leb b'a' c && leb c b'z'

abbrev pub to_ascii_uppercase : ℕ → ℕ
to_ascii_uppercase c = if leb b'a' c && leb c b'z' then c - 32 else c

-- The high nibble and the low nibble of each byte.
unfoldable pub nibbles : List ℕ → List ℕ
nibbles [] = []
nibbles (byte ∷ bytes) = byte / 16 ∷ byte % 16 ∷ nibbles bytes

abbrev pub cased : ℕ → ℕ → ℕ
cased c hash_nibble = if is_ascii_alphabetic c && leb 8 hash_nibble then to_ascii_uppercase c else c

-- The loop over the digits. The hash of 32 bytes has a nibble for each of them.
unfoldable pub checksummed : List ℕ → List ℕ → List ℕ
checksummed [] hash_nibbles = []
checksummed (c ∷ digits) [] = c ∷ checksummed digits []
checksummed (c ∷ digits) (n ∷ hash_nibbles) = cased c n ∷ checksummed digits hash_nibbles

unfoldable pub to_checksummed_hex : Backend → List ℕ → List ℕ
unfolding nibbles checksummed
to_checksummed_hex B address =
    let lower = hex_digits address in b'0' ∷ b'x' ∷ checksummed lower (nibbles (keccak256 B lower))
