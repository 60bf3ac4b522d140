-- ===== src/Client/Leaf/Tests.antt =====
-- A run of `call_get_merkle_leaf_index`, and its theorem there.
use acre_ledger_app.Base.{
  ℕ, ◌≡◌, refl, some, List, [], ◌∷◌, ◌++◌, replicate, length, take, ◌⊎◌, arith,
}
use acre_ledger_app.Buffer.{create, can_read, seek_cur, read_u8, read_bytes, read_varint}
use acre_ledger_app.Bytes.{write_u16_be}
use acre_ledger_app.Varint.{varint_size, varint_write, varint_read}
use acre_ledger_app.Io
use acre_ledger_app.Apdu.{apdu_parser}
use acre_ledger_app.Merkle.{
  Hash, combine_hashes, ceil_lg_loop, ceil_lg, directions_loop, get_ith_direction,
}
use acre_ledger_app.Merkle.Tree.{Tree, leaf, node, size, root, subtree, path}
use acre_ledger_app.Merkle.Climb.{SecondPreimage}
use acre_ledger_app.Dispatcher
use acre_ledger_app.Dispatcher.{Context, ok, ◌>>=◌}
use acre_ledger_app.Client.{add_varint}
use acre_ledger_app.Client.LeafHash.{same_bytes, proof_step, proof_steps, proof_loop}
use acre_ledger_app.Client.LeafHash.{
  step_towards, sibling, continue_proof, call_get_merkle_leaf_hash,
}
use acre_ledger_app.Client.Preimage.{return_int}
use acre_ledger_app.Client.Leaf.{call_get_merkle_leaf_index}
use acre_ledger_app.Client.Leaf.Sound.{call_get_merkle_leaf_index_sound}

-- A hash function for the run
abbrev toy_hash : List ℕ → Hash
toy_hash x = replicate 32 (length x)

abbrev two_leaves : Tree
two_leaves = node (leaf (replicate 32 1)) (leaf (replicate 32 2))

-- The host finds the second leaf, and proves it.
abbrev start : Context
start = record {
  read_buffer = create [] 0;
  io = record { apdu_buffer = replicate 260 0; output_len = 0; sent = [] };
  sw = 0;
  host =
      (0xf8 ∷ 1 ∷ 0 ∷ 0 ∷ 2 ∷ 1 ∷ 1 ∷ [])
      ∷ (0xf8 ∷ 1 ∷ 0 ∷ 0 ∷ 66 ∷ (replicate 32 2 ++ (1 ∷ 1 ∷ replicate 32 1)))
      ∷ [];
}

finds :
    (last : Context) × (call_get_merkle_leaf_index toy_hash
        (size two_leaves)
        (root toy_hash two_leaves)
        (replicate 32 2)
        start
      ≡ some (ok 1, last))
unfolding call_get_merkle_leaf_index return_int varint_read read_varint call_get_merkle_leaf_hash
    proof_loop continue_proof proof_steps proof_step step_towards sibling same_bytes add_varint
    varint_write varint_size ◌>>=◌ Dispatcher.return Dispatcher.return_error Dispatcher.lift
    Dispatcher.or_return Dispatcher.require Dispatcher.add_to_response Dispatcher.finalize_response
    Dispatcher.set_response Dispatcher.process_interruption Dispatcher.read_u8
    Dispatcher.read_varint Dispatcher.read_bytes Dispatcher.can_read Io.add_to_response
    Io.add_to_response_rec Io.finalize_response Io.confirm_response apdu_parser write_u16_be
    can_read seek_cur read_u8 read_bytes ceil_lg_loop ceil_lg directions_loop get_ith_direction
    combine_hashes root size
finds = (_, refl)

call_get_merkle_leaf_index_sound_example :
    (n : ℕ) × (w : Tree) × (subtree two_leaves (take n (path two_leaves 1)) ≡ some w)
    × ((replicate 32 2 ≡ root toy_hash w) ⊎ SecondPreimage toy_hash two_leaves)
unfolding size
call_get_merkle_leaf_index_sound_example =
    call_get_merkle_leaf_index_sound toy_hash (λ x. refl) two_leaves
      ((0, refl), omega arith, tt, tt) (refl, refl) (omega arith) (replicate 32 2) start 1 finds.0
      finds.1 (omega arith)
