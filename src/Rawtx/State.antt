-- ===== src/Rawtx/State.antt =====
-- The state of the parser of raw transactions, and the reads that its steps share.
use acre_ledger_app.Base.{ℕ, ◌^◌, Option, none, some, ◌>>=◌, List, ◌++◌, take, replicate}
use acre_ledger_app.Base.{Bool, true, false, Memory, ltb, if◌then◌else◌}
use acre_ledger_app.Varint.{varint_write}
use acre_ledger_app.Parser.{
  Buffers, StepResult, error, more_data, next, dbuffer_read_bytes, dbuffer_read_varint,
}

-- `txid_parser_outputs_t`, less the txid, which the caller computes at the end
pub record TxOutputs : Type 0 where
  pub vout_value : ℕ
  pub vout_scriptpubkey_len : ℕ
  pub vout_scriptpubkey : Memory

-- `parse_rawtx_state_t`, with the states of the parsers of inputs and outputs, which reach it by
-- `parent_state`. The members of the union are written before they are read, so each has a place of
-- its own. `hashed` is what the hash context has taken; `output_index` is `none` for -1.
pub record TxState : Type 0 where
  pub hashed : List ℕ
  pub is_segwit : Bool
  pub n_inputs : ℕ
  pub n_outputs : ℕ
  pub in_counter : ℕ
  pub input_cur_step : ℕ
  pub scriptsig_size : ℕ
  pub scriptsig_counter : ℕ
  pub out_counter : ℕ
  pub output_cur_step : ℕ
  pub scriptpubkey_size : ℕ
  pub scriptpubkey_counter : ℕ
  pub wit_counter : ℕ
  pub wit_stack_el_counter : ℕ
  pub cur_wit_stack_elements : ℕ
  pub cur_wit_elem_len : ℕ
  pub cur_wit_el_bytes_read : ℕ
  pub is_cur_wit_stack_elements_read : Bool
  pub is_cur_wit_elem_len_read : Bool
  pub output_index : Option ℕ
  pub outputs : TxOutputs

-- What a step leaves: its return value, the state, and the buffers.
abbrev pub Reply : Type 0
Reply = Option (StepResult × TxState × Buffers)

-- A step in terms of the bytes or the number that it reads. A read that fails is the return value 0.
unfoldable pub with_bytes : ℕ → TxState → Buffers → (List ℕ → Buffers → Reply) → Reply
with_bytes n state buffers f = dbuffer_read_bytes buffers n >>= λ r. elim r [
  | none ↦ some (more_data, state, buffers)
  | some (bytes, rest) ↦ f bytes rest
]

unfoldable pub with_varint : TxState → Buffers → (ℕ → Buffers → Reply) → Reply
with_varint state buffers f = dbuffer_read_varint buffers >>= λ r. elim r.0 [
  | false ↦ some (more_data, state, r.2)
  | true ↦ f r.1 r.2
]

-- `crypto_hash_update`
abbrev pub hash_update : List ℕ → TxState → TxState
hash_update bytes state = record state { hashed = state.hashed ++ bytes }

-- The bytes that `crypto_hash_update_varint` adds
unfoldable pub encode_varint : ℕ → Option (List ℕ)
encode_varint value = varint_write (replicate 9 0) 0 value >>= λ r. elim r.1 [
  | none ↦ none
  | some len ↦ some (take len r.0)
]

unfoldable pub hash_update_varint : ℕ → TxState → Option TxState
hash_update_varint value state = do bytes ← encode_varint value; some (hash_update bytes state)

-- Reads `n` bytes and hashes them.
unfoldable pub hash_bytes : ℕ → TxState → Buffers → Reply
hash_bytes n state buffers =
    with_bytes n state buffers λ bytes rest. some (next, hash_update bytes state, rest)

-- `MIN(32, remaining_len)` on the `int` with these 32 bits, as a `size_t`
unfoldable pub chunk_len : ℕ → ℕ
chunk_len remaining_len =
    if ltb remaining_len 32
    then remaining_len
    else if ltb remaining_len (2 ^ 31)
    then 32
    else remaining_len

-- The read of a chunk into `data[32]`
unfoldable pub with_chunk : ℕ → TxState → Buffers → (List ℕ → Buffers → Reply) → Reply
with_chunk remaining_len state buffers f =
    with_bytes (chunk_len remaining_len) state buffers
      λ bytes rest. if ltb 32 (chunk_len remaining_len) then none else f bytes rest

-- The conversion to `bool` of what `parser_run` returns
unfoldable pub to_bool : StepResult → Bool
to_bool (error k) = true
to_bool more_data = false
to_bool next = true
