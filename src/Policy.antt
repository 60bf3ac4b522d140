-- ===== src/Policy.antt =====
-- src/common/wallet.c, the lexical part: the characters, numbers, derivation steps and key
-- placeholders of wallet policies, and the header of a serialized policy.
pub mod Reader
pub mod Text
pub mod Placeholder
pub mod Header
pub mod Stream
pub mod Number
pub mod Hex
pub mod Characters
pub mod Derivation
pub mod Serialized
pub mod WalletId
mod Tests
