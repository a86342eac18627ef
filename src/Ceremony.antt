-- ===== src/Ceremony.antt =====
-- crates/wallet-core/src/ceremony.rs and recovery.rs: the threshold-signing ceremony, the entry
-- points over it, and the rotation of shares.
mod Signing
mod Entry
pub mod Sound
pub mod Guarded
pub mod Stall
pub mod Rotation
pub mod Dealt
pub mod Refined
unfoldable pub use Signing.*
unfoldable pub use Entry.*
