-- ===== src/Client/Preimage.antt =====
-- src/handler/lib/get_preimage.c and get_merkle_preimage.c: a preimage of a hash from the host.
pub mod Sound
mod Tests
use acre_ledger_app.Base.{ℕ, zero, suc, ◌+◌, ◌-◌, ◌*◌, ◌%◌, ◌^◌, Option, none, some, List, [], ◌∷◌}
use acre_ledger_app.Base.{◌++◌, length, drop, Memory, load_bytes, Bool, true, false, not, ◌||◌}
use acre_ledger_app.Base.{ltb, ◌==◌, if◌then◌else◌}
use acre_ledger_app.Buffer
use acre_ledger_app.Buffer.{Buffer, sub_size}
use acre_ledger_app.Merkle.{Hash}
use acre_ledger_app.Dispatcher.{M, ◌>>=◌, ◌>>◌, return, return_error, or_return, lift, require}
use acre_ledger_app.Dispatcher.{add_to_response, finalize_response, set_response}
use acre_ledger_app.Dispatcher.{process_interruption, sw_interrupted_execution}
use acre_ledger_app.Dispatcher.{read_u8, read_varint, can_read}
use acre_ledger_app.Client.{ccmd_get_preimage, ccmd_get_more_elements}
use acre_ledger_app.Client.LeafHash.{same_bytes}

-- The conversion to `int` of a return value
unfoldable pub return_int : ℕ → M ℕ
unfolding return return_error
return_int n =
    if ltb (n % 2 ^ 32) (2 ^ 31) then return (n % 2 ^ 32) else return_error (2 ^ 32 - n % 2 ^ 32)

unfoldable pub request_preimage : Hash → M (Unit {0})
request_preimage hash = do
  add_to_response (ccmd_get_preimage ∷ [])
  add_to_response (0 ∷ [])
  add_to_response hash
  finalize_response sw_interrupted_execution
  or_return process_interruption 1

-- The `n` bytes at `read_buffer.ptr + read_buffer.offset`
unfoldable pub bytes_here : ℕ → M (List ℕ)
bytes_here n dc = lift (load_bytes dc.read_buffer.ptr dc.read_buffer.offset n) dc

-- Of the first answer: the length of the preimage, and how many of its bytes follow.
pub record Announced : Type 0 where
  pub preimage_len : ℕ
  pub partial_data_len : ℕ

unfoldable pub read_announced : M Announced
read_announced = do
  preimage_len ← or_return read_varint 2
  partial_data_len ← or_return read_u8 2
  or_return (can_read partial_data_len) 2
  return (record { preimage_len = preimage_len; partial_data_len = partial_data_len })

-- `CCMD_GET_MORE_ELEMENTS`, and the checks of the answer: how many bytes it brings. The errors are
-- numbered from `code` on.
unfoldable pub more_bytes : ℕ → ℕ → M ℕ
more_bytes code bytes_remaining = do
  set_response (ccmd_get_more_elements ∷ []) sw_interrupted_execution
  or_return process_interruption code
  n_bytes ← or_return read_u8 (code + 1)
  elements_len ← or_return read_u8 (code + 1)
  or_return (can_read (n_bytes * elements_len)) (code + 1)
  require (elements_len == 1) (code + 2)
  require (not (ltb bytes_remaining n_bytes)) (code + 3)
  return n_bytes

-- What a call has fetched: the output buffer, and the bytes that the hash context has taken.
pub record Fetched : Type 0 where
  pub buffer_out : Buffer
  pub hashed : List ℕ

-- `buffer_write_bytes`, whose result the code does not look at, beside the update of the hash
unfoldable pub fetch : List ℕ → List ℕ → Fetched → M Fetched
fetch to_hash to_write p = do
  written ← lift (Buffer.write_bytes p.buffer_out to_write)
  return (record { buffer_out = written.1; hashed = p.hashed ++ to_hash })

-- The loop of `call_get_preimage`. A round takes a message of the host.
unfoldable pub preimage_loop : ℕ → ℕ → Fetched → M Fetched
preimage_loop zero bytes_remaining p = λ dc. none
preimage_loop (suc fuel) bytes_remaining p = elim (ltb 0 bytes_remaining) [
  | true ↦ more_bytes 5 bytes_remaining >>= λ n.
      bytes_here n >>= λ bs. fetch bs bs p >>= preimage_loop fuel (bytes_remaining - n)
  | false ↦ return p
]

-- The result is the memory at `out`, and the return value.
unfoldable pub call_get_preimage : (List ℕ → Hash) → Hash → Memory → ℕ → M (Memory × ℕ)
call_get_preimage sha256 hash out out_len = do
  request_preimage hash
  announced ← read_announced
  let preimage_len : ℕ = announced.preimage_len % 2 ^ 32
  require (not (ltb preimage_len 1)) 3
  require (not (ltb preimage_len announced.partial_data_len)) 4
  bs ← bytes_here announced.partial_data_len
  p ← fetch bs bs (record { buffer_out = Buffer.create out out_len; hashed = [] })
  p ← λ dc. preimage_loop (suc (length dc.host)) (preimage_len - announced.partial_data_len) p dc
  require (same_bytes (sha256 p.hashed) hash) 9
  result ← return_int preimage_len
  return (p.buffer_out.ptr, result)

-- Whether `cx_hash_no_throw` refuses more bytes, on a context that has taken some
module _ (refuses : List ℕ → List ℕ → Bool) where
  -- The `n` bytes that lie now where those of the first answer began: `data_ptr` points into the
  -- APDU buffer, `start` bytes behind the header of a command.
  unfoldable pub stale_bytes : ℕ → ℕ → M (List ℕ)
  stale_bytes start n dc = lift (load_bytes dc.io.apdu_buffer (5 + start) n) dc

  -- The loop of `call_get_merkle_preimage`. It hashes the new bytes but writes those at `data_ptr`.
  unfoldable pub merkle_preimage_loop : ℕ → ℕ → ℕ → Fetched → M Fetched
  merkle_preimage_loop zero start bytes_remaining p = λ dc. none
  merkle_preimage_loop (suc fuel) start bytes_remaining p = elim (ltb 0 bytes_remaining) [
    | true ↦ more_bytes 6 bytes_remaining >>= λ n. bytes_here n >>= λ bs.
        require (not (refuses p.hashed bs)) 12 >>= λ _. stale_bytes start n >>= λ old.
        fetch bs old p >>= merkle_preimage_loop fuel start (sub_size bytes_remaining n)
    | false ↦ return p
  ]

  -- The result is the memory at `out_ptr`, and the return value.
  unfoldable pub call_get_merkle_preimage : (List ℕ → Hash) → Hash → Memory → ℕ → M (Memory × ℕ)
  call_get_merkle_preimage sha256 hash out_ptr out_ptr_len = do
    request_preimage hash
    announced ← read_announced
    let preimage_len : ℕ = announced.preimage_len
    let partial_data_len : ℕ = announced.partial_data_len
    require (not (preimage_len == 0 || partial_data_len == 0)) 3
    require (not (ltb out_ptr_len (preimage_len - 1))) 4
    require (not (ltb preimage_len partial_data_len)) 5
    bs ← bytes_here partial_data_len
    require (not (refuses [] bs)) 11
    p ←
        fetch bs (drop 1 bs)
          (record { buffer_out = Buffer.create out_ptr out_ptr_len; hashed = [] })
    p ← λ dc.
        merkle_preimage_loop (suc (length dc.host)) dc.read_buffer.offset
          (sub_size (preimage_len % 2 ^ 32) partial_data_len) p dc
    require (same_bytes (sha256 p.hashed) hash) 10
    result ← return_int (preimage_len - 1)
    return (p.buffer_out.ptr, result)
