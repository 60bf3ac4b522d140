-- ===== src/Client.antt =====
-- src/handler/lib: what the device asks of the host while a command runs, and how it checks the
-- answers.
pub mod LeafHash
pub mod Preimage
pub mod Leaf
pub mod Stream
pub mod Sorted
use acre_ledger_app.Base.{ℕ, ◌+◌, Option, none, some, List, [], ◌∷◌, take, replicate}
use acre_ledger_app.Varint.{varint_write}
use acre_ledger_app.Dispatcher.{M, Context, Ret, ok, add_to_response}

-- src/handler/client_commands.h
abbrev pub ccmd_get_preimage : ℕ
ccmd_get_preimage = 0x40

abbrev pub ccmd_get_merkle_leaf_proof : ℕ
ccmd_get_merkle_leaf_proof = 0x41

abbrev pub ccmd_get_merkle_leaf_index : ℕ
ccmd_get_merkle_leaf_index = 0x42

abbrev pub ccmd_get_more_elements : ℕ
ccmd_get_more_elements = 0xa0

-- `len = varint_write(tmp, 0, value); dc->add_to_response(tmp, len);`
unfoldable pub add_varint : ℕ → M (Unit {0})
add_varint value dc = elim (varint_write (replicate 9 0) 0 value) [
  | none ↦ none
  | some (tmp, len) ↦ elim len [ none ↦ none | some n ↦ add_to_response (take n tmp) dc ]
]
