-- ===== src/Client/Leaf.antt =====
-- src/handler/lib: get_merkle_leaf_index.c, get_merkle_leaf_element.c, get_merkleized_map_value.c and
-- get_merkleized_map_value_hash.c: leaves by hash, by index and by key.
pub mod Sound
mod Tests
use acre_ledger_app.Base.{ℕ, ◌*◌, ◌%◌, ◌^◌, List, [], ◌∷◌, ◌++◌, Memory, Bool, not, ◌||◌, ◌==◌}
use acre_ledger_app.Merkle.{Hash, compute_element_hash}
use acre_ledger_app.Dispatcher.{M, ◌>>=◌, ◌>>◌, return, or_return, require, set_response}
use acre_ledger_app.Dispatcher.{
  process_interruption, sw_interrupted_execution, read_u8, read_varint,
}
use acre_ledger_app.Client.{ccmd_get_merkle_leaf_index}
use acre_ledger_app.Client.LeafHash.{same_bytes, call_get_merkle_leaf_hash}
use acre_ledger_app.Client.Preimage.{return_int, call_get_merkle_preimage}

module _ (sha256 : List ℕ → Hash) where
  unfoldable pub call_get_merkle_leaf_index : ℕ → Hash → Hash → M ℕ
  call_get_merkle_leaf_index size root leaf_hash = do
    set_response (ccmd_get_merkle_leaf_index ∷ (root ++ leaf_hash)) sw_interrupted_execution
    or_return process_interruption 3
    found ← or_return read_u8 1
    index ← or_return read_varint 1
    require (found == 0 || found == 1) 2
    require (not (found == 0)) 3
    returned ← or_return (call_get_merkle_leaf_hash sha256 root size (index % 2 ^ 32)) 4
    require (same_bytes leaf_hash returned) 5
    return_int index

  -- `map.size` and `map.keys_root` in place of `map`
  unfoldable pub find_key : ℕ → Hash → List ℕ → M ℕ
  find_key size keys_root key =
      or_return
        (call_get_merkle_leaf_index (size % 2 ^ 32) keys_root (compute_element_hash sha256 key)) 1

  unfoldable pub call_get_merkleized_map_value_hash : ℕ → Hash → Hash → List ℕ → M Hash
  call_get_merkleized_map_value_hash size keys_root values_root key = do
    index ← find_key size keys_root key
    call_get_merkle_leaf_hash sha256 values_root (size % 2 ^ 32) index

  module _ (refuses : List ℕ → List ℕ → Bool) where
    unfoldable pub call_get_merkle_leaf_element : Hash → ℕ → ℕ → Memory → ℕ → M (Memory × ℕ)
    call_get_merkle_leaf_element merkle_root tree_size leaf_index out_ptr out_ptr_len = do
      leaf_hash ← call_get_merkle_leaf_hash sha256 merkle_root tree_size leaf_index
      call_get_merkle_preimage refuses sha256 leaf_hash out_ptr out_ptr_len

    unfoldable pub call_get_merkleized_map_value :
        ℕ → Hash → Hash → List ℕ → Memory → ℕ → M (Memory × ℕ)
    call_get_merkleized_map_value size keys_root values_root key out out_len = do
      index ← find_key size keys_root key
      call_get_merkle_leaf_element values_root (size % 2 ^ 32) index out out_len
