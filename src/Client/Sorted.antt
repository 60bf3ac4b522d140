-- ===== src/Client/Sorted.antt =====
-- src/handler/lib/check_merkle_tree_sorted.c and get_merkleized_map.c: the elements of a Merkle tree
-- in order, and the commitment to a map whose keys are such a tree.
mod Tests
pub mod Order
pub mod Increasing
use acre_ledger_app.Base.{
  ℕ, zero, suc, ◌+◌, ◌*◌, ◌%◌, ◌^◌, Option, none, some, List, [], ◌∷◌, replicate,
}
use acre_ledger_app.Base.{
  load_bytes, length, Memory, Bool, true, false, not, ◌&&◌, ltb, ◌==◌, if◌then◌else◌,
}
use acre_ledger_app.Buffer
use acre_ledger_app.Buffer.{Buffer}
use acre_ledger_app.Merkle.{Hash}
use acre_ledger_app.Dispatcher.{M, ◌>>=◌, ◌>>◌, return, return_error, or_return, lift, require}
use acre_ledger_app.Client.Leaf.{call_get_merkle_leaf_element}

-- The sign of a comparison's result
pub data Sign : Type 0 where
  less equal greater : Sign

-- `memcmp` of the first `n` bytes
unfoldable pub memcmp : ℕ → List ℕ → List ℕ → Sign
memcmp zero xs ys = equal
memcmp (suc n) [] ys = equal
memcmp (suc n) (x ∷ xs) [] = equal
memcmp (suc n) (x ∷ xs) (y ∷ ys) =
    if ltb x y then less else if ltb y x then greater else memcmp n xs ys

-- The arrays with their lengths
unfoldable pub compare_byte_arrays : List ℕ → List ℕ → Sign
compare_byte_arrays array1 array2 =
    let array1_len : ℕ = length array1 in
    let array2_len : ℕ = length array2 in
    let min_len : ℕ = if ltb array1_len array2_len then array1_len else array2_len in
    elim (if min_len == 0 then equal else memcmp min_len array1 array2) [
      | equal ↦
          if ltb array1_len array2_len
          then less
          else if ltb array2_len array1_len
          then greater
          else equal
      | less ↦ less
      | greater ↦ greater
    ]

unfoldable pub is_less : Sign → Bool
is_less less = true
is_less equal = false
is_less greater = false

-- 34 + 32 * (MAX_TAPTREE_POLICY_DEPTH - 1)
abbrev pub max_check_merkle_tree_sorted_preimage_size : ℕ
max_check_merkle_tree_sorted_preimage_size = 34 + 32 * 8

-- `callback` takes the callback's state, the index and the element; `none` for NULL.
module _ {S : Type 0} (sha256 : List ℕ → Hash) (refuses : List ℕ → List ℕ → Bool) (root : Hash)
    (size : ℕ) (callback : Option (S → ℕ → Buffer → M S)) where
  unfoldable pub run_callback : S → ℕ → Buffer → M S
  run_callback s i buf = elim callback [ none ↦ return s | some f ↦ f s i buf ]

  -- The rounds of the loop that are left, from the index `cur_el_idx` on; `prev_el` are the bytes of
  -- the element before.
  unfoldable pub sorted_loop : ℕ → ℕ → List ℕ → S → M S
  sorted_loop zero cur_el_idx prev_el s = return s
  sorted_loop (suc n) cur_el_idx prev_el s =
      or_return
        (call_get_merkle_leaf_element sha256 refuses root size cur_el_idx
          (replicate max_check_merkle_tree_sorted_preimage_size 0)
          max_check_merkle_tree_sorted_preimage_size)
        1
      >>= λ r. lift (load_bytes r.0 0 r.1) >>= λ cur_el.
          require (not (ltb 0 cur_el_idx && not (is_less (compare_byte_arrays prev_el cur_el)))) 1
          >>= λ _. run_callback s cur_el_idx (Buffer.create r.0 r.1) >>= λ s'.
              sorted_loop n (cur_el_idx + 1) cur_el s'

  unfoldable pub call_check_merkle_tree_sorted_with_callback : S → M S
  call_check_merkle_tree_sorted_with_callback s = sorted_loop size 0 [] s

pub record MapCommitment : Type 0 where
  pub size : ℕ
  pub keys_root : Hash
  pub values_root : Hash

-- A read from a buffer that is not the context's; `-1` where it fails
unfoldable pub from_buffer : {A : Type 0} → Option (Bool × A × Buffer) → M (A × Buffer)
from_buffer o = do r ← lift o; require r.0 1; return (r.1, r.2)

bytes_or_fail : Option (List ℕ × Buffer) → M (List ℕ × Buffer)
bytes_or_fail none = return_error 1
bytes_or_fail (some r) = return r

unfoldable pub bytes_from_buffer : Option (Option (List ℕ × Buffer)) → M (List ℕ × Buffer)
unfolding bytes_or_fail
bytes_from_buffer o = do r ← lift o; bytes_or_fail r

-- The map commitment that is the element of a tree with an index, once its keys are known to be
-- sorted.
unfoldable pub call_get_merkleized_map_with_callback :
    {S : Type 0}
    → (List ℕ → Hash)
    → (List ℕ → List ℕ → Bool)
    → Hash
    → ℕ
    → ℕ
    → (MapCommitment → Option (S → ℕ → Buffer → M S))
    → S
    → M (S × MapCommitment)
call_get_merkleized_map_with_callback sha256 refuses root size index callback s = do
  r ← or_return (call_get_merkle_leaf_element sha256 refuses root size index (replicate 73 0) 73) 1
  (map_size, buf) ← from_buffer (Buffer.read_varint (Buffer.create r.0 r.1))
  (keys_root, buf) ← bytes_from_buffer (Buffer.read_bytes buf 32)
  (values_root, buf) ← bytes_from_buffer (Buffer.read_bytes buf 32)
  let map : MapCommitment = record {
    size = map_size;
    keys_root = keys_root;
    values_root = values_root;
  }
  s ←
      call_check_merkle_tree_sorted_with_callback sha256 refuses keys_root (map_size % 2 ^ 32)
        (callback map) s
  return (s, map)
