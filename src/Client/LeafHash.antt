-- ===== src/Client/LeafHash.antt =====
-- src/handler/lib/get_merkle_leaf_hash.c: a leaf's hash from the host, with its Merkle proof.
pub mod Sound
mod Tests
use acre_ledger_app.Base.{ℕ, zero, suc, ◌+◌, ◌-◌, ◌*◌, Option, none, some, List, [], ◌∷◌, length}
use acre_ledger_app.Base.{Bool, true, false, not, ltb, ◌==◌, if◌then◌else◌, load_bytes}
use acre_ledger_app.Buffer
use acre_ledger_app.Buffer.{Buffer}
use acre_ledger_app.Merkle.{Hash, combine_hashes, get_ith_direction}
use acre_ledger_app.Dispatcher.{
  M, Context, Ret, ok, fail, ◌>>=◌, ◌>>◌, return, return_error, or_return, lift,
}
use acre_ledger_app.Dispatcher.{require, add_to_response, finalize_response, set_response}
use acre_ledger_app.Dispatcher.{process_interruption, sw_interrupted_execution}
use acre_ledger_app.Dispatcher.{read_u8, read_bytes, can_read}
use acre_ledger_app.Client.{ccmd_get_merkle_leaf_proof, ccmd_get_more_elements, add_varint}

-- `memcmp` of two hashes
unfoldable pub same_bytes : List ℕ → List ℕ → Bool
same_bytes [] [] = true
same_bytes [] (y ∷ ys) = false
same_bytes (x ∷ xs) [] = false
same_bytes (x ∷ xs) (y ∷ ys) = if x == y then same_bytes xs ys else false

-- A proof that is being verified: how far it is, and the hash so far.
pub record Proof : Type 0 where
  pub cur_step : ℕ
  pub cur_hash : Hash

module _ (sha256 : List ℕ → Hash) (tree_size leaf_index proof_size : ℕ) where
  -- The 32 bytes of the sibling, which are consumed
  unfoldable pub sibling : M Hash
  unfolding lift ◌>>=◌
  sibling dc =
      (lift (load_bytes dc.read_buffer.ptr dc.read_buffer.offset 32) >>= λ s dc'.
      some (ok s, record dc' { read_buffer = (Buffer.seek_cur dc'.read_buffer 32).1 }))
        dc

  -- The step, once the direction is known: from the left, from the right, or -1
  unfoldable pub step_towards : Proof → Option ℕ → M Proof
  unfolding sibling return return_error
  step_towards p none = return_error 1
  step_towards p (some d) =
      if d == 0
      then (do
        s ← sibling
        return
            (record { cur_step = p.cur_step + 1; cur_hash = combine_hashes sha256 p.cur_hash s }))
      else if d == 1
      then (do
        s ← sibling
        return
            (record { cur_step = p.cur_step + 1; cur_hash = combine_hashes sha256 s p.cur_hash }))
      else return_error 1

  -- One round of the inner loop. It runs at `cur_step < proof_size`.
  unfoldable pub proof_step : Proof → M Proof
  unfolding step_towards
  proof_step p = do
    direction ← lift (get_ith_direction tree_size leaf_index (proof_size - p.cur_step - 1))
    step_towards p direction

  -- The inner loop, over the elements of one message
  unfoldable pub proof_steps : ℕ → Proof → M Proof
  proof_steps zero p = return p
  proof_steps (suc n) p = proof_step p >>= λ p'. proof_steps n p'

  -- `CCMD_GET_MORE_ELEMENTS`, and the checks of the answer: how many siblings it brings
  unfoldable pub more_elements : Proof → M ℕ
  more_elements p = do
    set_response (ccmd_get_more_elements ∷ []) sw_interrupted_execution
    or_return process_interruption 1
    n_proof_elements ← or_return read_u8 1
    elements_len ← or_return read_u8 1
    or_return (can_read (n_proof_elements * elements_len)) 1
    require (elements_len == 32) 1
    require (not (ltb proof_size (p.cur_step + n_proof_elements))) 1
    return n_proof_elements

  -- `break`, or another round
  unfoldable pub continue_proof : Bool → Proof → (ℕ → M Hash) → M Hash
  continue_proof true p round = return p.cur_hash
  continue_proof false p round = more_elements p >>= round

  -- The outer loop. Each round but the last takes a message of the host, so one more round than there
  -- are messages is enough.
  unfoldable pub proof_loop : ℕ → ℕ → Proof → M Hash
  unfolding continue_proof
  proof_loop zero n_proof_elements p = λ dc. none
  proof_loop (suc fuel) n_proof_elements p = do
    p' ← proof_steps n_proof_elements p
    continue_proof (p'.cur_step == proof_size) p' (λ n. proof_loop fuel n p')

module _ (sha256 : List ℕ → Hash) where
  unfoldable pub call_get_merkle_leaf_hash : Hash → ℕ → ℕ → M Hash
  call_get_merkle_leaf_hash merkle_root tree_size leaf_index = do
    add_to_response (ccmd_get_merkle_leaf_proof ∷ [])
    add_to_response merkle_root
    add_varint tree_size
    add_varint leaf_index
    finalize_response sw_interrupted_execution
    or_return process_interruption 1
    cur_hash ← or_return (read_bytes 32) 1
    proof_size ← or_return read_u8 1
    n_proof_elements ← or_return read_u8 1
    require (not (ltb proof_size n_proof_elements)) 1
    or_return (can_read (32 * n_proof_elements)) 1
    root ← λ dc.
        proof_loop sha256 tree_size leaf_index proof_size (suc (length dc.host)) n_proof_elements
          (record { cur_step = 0; cur_hash = cur_hash }) dc
    require (same_bytes merkle_root root) 1
    return cur_hash
