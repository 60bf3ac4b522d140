-- ===== src/Rawtx.antt =====
-- src/handler/lib/psbt_parse_rawtx.c: a parser of raw transactions that takes them in parts, hashes
-- what the txid covers and picks one output.
pub mod State
pub mod Format
pub mod Consume
pub mod Varints
pub mod Hash
pub mod Inputs
pub mod Outputs
pub mod OutputList
pub mod Witnesses
pub mod Steps
pub mod Tx
mod Tests
pub mod Input
pub mod Output
pub mod Witness
pub mod Whole
