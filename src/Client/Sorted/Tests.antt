-- ===== src/Client/Sorted/Tests.antt =====
-- A run of `call_check_merkle_tree_sorted_with_callback`, and its theorem there.
use acre_ledger_app.Base.{ℕ, ◌≡◌, refl, some, List, [], ◌∷◌, ◌++◌, replicate, length, Bool, false}
use acre_ledger_app.Buffer
use acre_ledger_app.Bytes.{write_u16_be}
use acre_ledger_app.Varint.{varint_size, varint_write, varint_read}
use acre_ledger_app.Io
use acre_ledger_app.Apdu.{apdu_parser}
use acre_ledger_app.Merkle.{
  Hash, combine_hashes, ceil_lg_loop, ceil_lg, directions_loop, get_ith_direction,
}
use acre_ledger_app.Dispatcher
use acre_ledger_app.Dispatcher.{Context, ok, ◌>>=◌}
use acre_ledger_app.Client.{add_varint}
use acre_ledger_app.Client.LeafHash.{same_bytes, proof_step, proof_steps, proof_loop}
use acre_ledger_app.Client.LeafHash.{
  step_towards, sibling, continue_proof, call_get_merkle_leaf_hash,
}
use acre_ledger_app.Client.Preimage.{return_int, request_preimage, bytes_here, read_announced}
use acre_ledger_app.Client.Preimage.{fetch, merkle_preimage_loop, call_get_merkle_preimage}
use acre_ledger_app.Client.Leaf.{call_get_merkle_leaf_element}
use acre_ledger_app.Base.{◌↔◌}
use acre_ledger_app.Client.Sorted.Order.{Before, compare_byte_arrays_iff}
use acre_ledger_app.Client.Sorted.{
  less, memcmp, compare_byte_arrays, is_less, run_callback, sorted_loop,
}
use acre_ledger_app.Client.Sorted.{call_check_merkle_tree_sorted_with_callback}
use acre_ledger_app.Client.Sorted.Increasing.{note, IsSorted}
use acre_ledger_app.Client.Sorted.Increasing.{call_check_merkle_tree_sorted_with_callback-IsSorted}

-- A hash function for the run
abbrev toy_hash : List ℕ → Hash
toy_hash x = replicate 32 (length x)

abbrev accepts_all : List ℕ → List ℕ → Bool
accepts_all xs ys = false

abbrev proof_message : List ℕ
proof_message = 0xf8 ∷ 1 ∷ 0 ∷ 0 ∷ 66 ∷ (replicate 32 2 ++ (1 ∷ 1 ∷ replicate 32 2))

-- A tree of the two elements 7 and 9
abbrev start : Context
start = record {
  read_buffer = Buffer.create [] 0;
  io = record { apdu_buffer = replicate 260 0; output_len = 0; sent = [] };
  sw = 0;
  host =
      proof_message
      ∷ (0xf8 ∷ 1 ∷ 0 ∷ 0 ∷ 4 ∷ 2 ∷ 2 ∷ 0 ∷ 7 ∷ [])
      ∷ proof_message
      ∷ (0xf8 ∷ 1 ∷ 0 ∷ 0 ∷ 4 ∷ 2 ∷ 2 ∷ 0 ∷ 9 ∷ [])
      ∷ [];
}

abbrev two_elements : List (List ℕ)
two_elements = (9 ∷ []) ∷ (7 ∷ []) ∷ []

accepts :
    (last : Context) × (call_check_merkle_tree_sorted_with_callback toy_hash accepts_all
        (replicate 32 65)
        2
        (some note)
        []
        start
      ≡ some (ok two_elements, last))
unfolding call_check_merkle_tree_sorted_with_callback sorted_loop run_callback is_less
    compare_byte_arrays memcmp call_get_merkle_leaf_element call_get_merkle_preimage
    merkle_preimage_loop fetch read_announced bytes_here request_preimage return_int varint_read
    call_get_merkle_leaf_hash proof_loop continue_proof proof_steps proof_step step_towards sibling
    same_bytes add_varint varint_write varint_size ◌>>=◌ Dispatcher.return Dispatcher.return_error
    Dispatcher.lift Dispatcher.or_return Dispatcher.require Dispatcher.add_to_response
    Dispatcher.finalize_response Dispatcher.set_response Dispatcher.process_interruption
    Dispatcher.read_u8 Dispatcher.read_varint Dispatcher.read_bytes Dispatcher.can_read
    Io.add_to_response Io.add_to_response_rec Io.finalize_response Io.confirm_response apdu_parser
    write_u16_be Buffer.can_read Buffer.seek_cur Buffer.read_u8 Buffer.read_varint Buffer.read_bytes
    Buffer.write_bytes ceil_lg_loop ceil_lg directions_loop get_ith_direction combine_hashes
accepts = (_, refl)

call_check_merkle_tree_sorted_with_callback-IsSorted_example :
    IsSorted two_elements × (length two_elements ≡ 2)
call_check_merkle_tree_sorted_with_callback-IsSorted_example =
    call_check_merkle_tree_sorted_with_callback-IsSorted toy_hash accepts_all (replicate 32 65) 2
      start two_elements accepts.0 accepts.1

compare_byte_arrays_iff_example :
    (compare_byte_arrays (1 ∷ 2 ∷ []) (1 ∷ 3 ∷ []) ≡ less) ↔ Before (1 ∷ 2 ∷ []) (1 ∷ 3 ∷ [])
compare_byte_arrays_iff_example = compare_byte_arrays_iff (1 ∷ 2 ∷ []) (1 ∷ 3 ∷ [])
