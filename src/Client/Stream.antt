-- ===== src/Client/Stream.antt =====
-- src/handler/lib/stream_preimage.c and stream_merkle_leaf_element.c: a preimage, handed on in parts.
use acre_ledger_app.Base.{ℕ, zero, suc, ◌-◌, ◌%◌, ◌^◌, Option, none, some, List, ◌++◌, length, drop}
use acre_ledger_app.Base.{true, false, not, ltb, ◌==◌, if◌then◌else◌}
use acre_ledger_app.Buffer
use acre_ledger_app.Buffer.{Buffer, sub_size}
use acre_ledger_app.Merkle.{Hash}
use acre_ledger_app.Dispatcher.{M, ◌>>=◌, ◌>>◌, return, or_return, lift, require}
use acre_ledger_app.Client.LeafHash.{same_bytes, call_get_merkle_leaf_hash}
use acre_ledger_app.Client.Preimage.{return_int, request_preimage, bytes_here, read_announced}
use acre_ledger_app.Client.Preimage.{more_bytes}

-- `(int) preimage_len - 1`, as 32 bits. From the least `int` it overflows, which is undefined.
unfoldable pub minus_one : ℕ → Option ℕ
minus_one preimage_len = if preimage_len == 2 ^ 31 then none else some (preimage_len - 1)

-- The callbacks act on a state; `none` for NULL.
module _ {S : Type 0} (len_callback : Option (ℕ → S → S)) (callback : Buffer → S → S) where
  -- What the hash context has taken, and the callbacks' state
  pub record Streamed : Type 0 where
    pub hashed : List ℕ
    pub state : S

  -- The first part is handed on without its first byte.
  unfoldable pub first_part : ℕ → List ℕ → S → S
  first_part preimage_len bs s =
      callback (Buffer.create (drop 1 bs) (sub_size (length bs) 1))
        (elim len_callback [ none ↦ s | some f ↦ f (preimage_len - 1) s ])

  -- A round takes a message of the host.
  unfoldable pub stream_loop : ℕ → ℕ → Streamed → M Streamed
  stream_loop zero bytes_remaining p = λ dc. none
  stream_loop (suc fuel) bytes_remaining p = elim (ltb 0 bytes_remaining) [
    | true ↦ more_bytes 5 bytes_remaining >>= λ n. bytes_here n >>= λ bs.
        stream_loop fuel (bytes_remaining - n)
          (record { hashed = p.hashed ++ bs; state = callback (Buffer.create bs n) p.state })
    | false ↦ return p
  ]

  unfoldable pub call_stream_preimage : (List ℕ → Hash) → Hash → S → M (S × ℕ)
  call_stream_preimage sha256 hash s = do
    request_preimage hash
    announced ← read_announced
    let preimage_len : ℕ = announced.preimage_len % 2 ^ 32
    require (not (ltb preimage_len 1)) 3
    require (not (ltb preimage_len announced.partial_data_len)) 4
    bs ← bytes_here announced.partial_data_len
    p ← λ dc.
        stream_loop (suc (length dc.host)) (preimage_len - announced.partial_data_len)
          (record { hashed = bs; state = first_part preimage_len bs s }) dc
    require (same_bytes (sha256 p.hashed) hash) 9
    before ← lift (minus_one preimage_len)
    result ← return_int before
    return (p.state, result)

  unfoldable pub call_stream_merkle_leaf_element : (List ℕ → Hash) → Hash → ℕ → ℕ → S → M (S × ℕ)
  call_stream_merkle_leaf_element sha256 merkle_root tree_size leaf_index s = do
    leaf_hash ← or_return (call_get_merkle_leaf_hash sha256 merkle_root tree_size leaf_index) 1
    call_stream_preimage sha256 leaf_hash s
