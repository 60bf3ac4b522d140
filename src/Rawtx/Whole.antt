-- ===== src/Rawtx/Whole.antt =====
-- The steps of a whole raw transaction, and `call_psbt_parse_rawtx`.
use acre_ledger_app.Base.{ℕ, ◌%◌, ◌^◌, Option, none, some, ◌>>=◌, List, [], ◌∷◌, replicate, Memory}
use acre_ledger_app.Base.{Bool, true, false, not, ◌==◌, if◌then◌else◌}
use acre_ledger_app.Buffer
use acre_ledger_app.Buffer.{Buffer}
use acre_ledger_app.Merkle.{Hash}
use acre_ledger_app.Parser.{
  Buffers, StepResult, error, more_data, next, ParsingStep, ParserContext, parser_run,
}
use acre_ledger_app.Parser.{
  dbuffer_can_read, peek_first, dbuffer_read_u8, parser_consolidate_buffers,
}
use acre_ledger_app.Rawtx.State.{TxState, TxOutputs, with_varint, hash_update_varint, hash_bytes}
use acre_ledger_app.Rawtx.Input.{parse_rawtx_inputs_init, parse_rawtx_inputs}
use acre_ledger_app.Rawtx.Output.{parse_rawtx_outputs_init, parse_rawtx_outputs}
use acre_ledger_app.Rawtx.Witness.{parse_rawtx_witnesses_init, parse_rawtx_witnesses}
use acre_ledger_app.Dispatcher
use acre_ledger_app.Dispatcher.{M, or_return, lift, require, return}
use acre_ledger_app.Client.Leaf.{call_get_merkleized_map_value_hash}
use acre_ledger_app.Client.Stream.{call_stream_preimage}

unfoldable pub parse_rawtx_version : ParsingStep TxState
parse_rawtx_version = hash_bytes 4

-- The marker and the flag, which are skipped
unfoldable pub read_flag : ParsingStep TxState
read_flag state buffers = dbuffer_read_u8 buffers >>= λ marker. dbuffer_read_u8 marker.2 >>= λ flag.
    some (
      if not (flag.1 == 0x01)
      then (error 1, state, flag.2)
      else (next, record state { is_segwit = true }, flag.2))

unfoldable pub parse_rawtx_check_segwit : ParsingStep TxState
parse_rawtx_check_segwit state buffers =
    if not (dbuffer_can_read buffers 1)
    then some (more_data, state, buffers)
    else (peek_first buffers >>= λ first_byte.
        if not (first_byte == 0)
        then some (next, record state { is_segwit = false }, buffers)
        else if not (dbuffer_can_read buffers 2)
        then some (more_data, state, buffers)
        else read_flag state buffers)

unfoldable pub parse_rawtx_input_count : ParsingStep TxState
parse_rawtx_input_count state buffers = with_varint state buffers λ n rest.
    hash_update_varint n (record state { n_inputs = n % 2 ^ 32 }) >>= λ state.
    some (next, state, rest)

unfoldable pub parse_rawtx_output_count : ParsingStep TxState
parse_rawtx_output_count state buffers = with_varint state buffers λ n rest.
    hash_update_varint n (record state { n_outputs = n % 2 ^ 32 }) >>= λ state.
    some (next, state, rest)

unfoldable pub parse_rawtx_locktime : ParsingStep TxState
parse_rawtx_locktime = hash_bytes 4

abbrev pub parse_rawtx_steps : List (ParsingStep TxState)
parse_rawtx_steps =
    parse_rawtx_version ∷ parse_rawtx_check_segwit ∷ parse_rawtx_input_count
    ∷ parse_rawtx_inputs_init ∷ parse_rawtx_inputs ∷ parse_rawtx_output_count
    ∷ parse_rawtx_outputs_init ∷ parse_rawtx_outputs ∷ parse_rawtx_witnesses_init
    ∷ parse_rawtx_witnesses ∷ parse_rawtx_locktime ∷ []

-- `psbt_parse_rawtx_state_t`
pub record ParseState : Type 0 where
  pub store : Memory
  pub store_data_length : ℕ
  pub parser_context : ParserContext TxState
  pub parser_error : Bool

-- What is kept of the buffers once the parser has stopped
unfoldable pub keep_rest :
    ParseState → StepResult → ParserContext TxState → Buffers → Option ParseState
keep_rest state (error k) context buffers =
    some (record state { parser_context = context; parser_error = true })
keep_rest state more_data context buffers = parser_consolidate_buffers buffers 32 >>= λ r.
    some (record state {
      parser_context = context;
      store = r.1.buffer0.ptr;
      store_data_length = r.1.buffer0.size;
    })
keep_rest state next context buffers = some (record state { parser_context = context })

-- `none` is a callback that has left the memory.
unfoldable pub cb_process_data : Buffer → Option ParseState → Option ParseState
cb_process_data part none = none
cb_process_data part (some state) =
    if state.parser_error
    then some state
    else (parser_run parse_rawtx_steps state.parser_context
          (record { buffer0 = Buffer.create state.store state.store_data_length; buffer1 = part })
        >>= λ r. keep_rest state r.0 r.1 r.2)

-- The parser at the start. What the source leaves without a value is 0.
unfoldable pub fresh_state : Option ℕ → TxOutputs → TxState
fresh_state output_index outputs = record {
  hashed = [];
  is_segwit = false;
  n_inputs = 0;
  n_outputs = 0;
  in_counter = 0;
  input_cur_step = 0;
  scriptsig_size = 0;
  scriptsig_counter = 0;
  out_counter = 0;
  output_cur_step = 0;
  scriptpubkey_size = 0;
  scriptpubkey_counter = 0;
  wit_counter = 0;
  wit_stack_el_counter = 0;
  cur_wit_stack_elements = 0;
  cur_wit_elem_len = 0;
  cur_wit_el_bytes_read = 0;
  is_cur_wit_stack_elements_read = false;
  is_cur_wit_elem_len_read = false;
  output_index = output_index;
  outputs = outputs;
}

-- The outputs, and the txid. `size`, `keys_root` and `values_root` are the map's.
unfoldable pub call_psbt_parse_rawtx :
    (List ℕ → Hash) → ℕ → Hash → Hash → List ℕ → Option ℕ → TxOutputs → M (TxOutputs × Hash)
unfolding Dispatcher.◌>>=◌
call_psbt_parse_rawtx sha256 size keys_root values_root key output_index outputs =
    Dispatcher.◌>>=◌
      (or_return (call_get_merkleized_map_value_hash sha256 size keys_root values_root key) 1)
      λ value_hash.
        Dispatcher.◌>>=◌
          (or_return
            (call_stream_preimage none cb_process_data sha256 value_hash (
              some (record {
                store = replicate 32 0;
                store_data_length = 0;
                parser_context = record { cur_step = 0; state = fresh_state output_index outputs };
                parser_error = false;
              })))
            1)
          λ streamed. Dispatcher.◌>>=◌ (lift streamed.0) λ state.
            Dispatcher.◌>>=◌ (require (not state.parser_error) 1) λ _. return (
              state.parser_context.state.outputs,
              sha256 (sha256 state.parser_context.state.hashed),
            )
