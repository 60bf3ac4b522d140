-- ===== src/Rawtx/Output.antt =====
-- The steps that parse the outputs of a raw transaction.
use acre_ledger_app.Base.{
  ℕ, zero, suc, ◌+◌, ◌-◌, ◌%◌, ◌^◌, Option, none, some, ◌>>=◌, List, [], ◌∷◌,
}
use acre_ledger_app.Base.{Bool, true, false, ◌==◌, ltb, if◌then◌else◌, store_bytes}
use acre_ledger_app.Bytes.{read_u64_le}
use acre_ledger_app.Buffer.{add_size, sub_size}
use acre_ledger_app.Parser.{Buffers, error, more_data, next, ParsingStep, parser_run}
use acre_ledger_app.Rawtx.State.{TxState, TxOutputs, with_bytes, with_varint, hash_update}
use acre_ledger_app.Rawtx.State.{hash_update_varint, chunk_len, with_chunk, to_bool}

-- Whether the output that is being parsed is the one asked for
unfoldable pub is_relevant : TxState → Bool
is_relevant state = elim state.output_index [ none ↦ false | some i ↦ state.out_counter == i ]

unfoldable pub parse_rawtxoutput_value : ParsingStep TxState
parse_rawtxoutput_value state buffers = with_bytes 8 state buffers λ value_bytes rest.
    read_u64_le value_bytes 0 >>= λ value.
    let outputs : TxOutputs =
      if is_relevant state then record state.outputs { vout_value = value } else state.outputs in
    some (next, record (hash_update value_bytes state) { outputs = outputs }, rest)

unfoldable pub parse_rawtxoutput_scriptpubkey_size : ParsingStep TxState
parse_rawtxoutput_scriptpubkey_size state buffers =
    with_varint state buffers λ scriptpubkey_size rest.
      let size : ℕ = scriptpubkey_size % 2 ^ 32 in
      let outputs : TxOutputs =
        if is_relevant state
        then record state.outputs { vout_scriptpubkey_len = size }
        else state.outputs in
      (hash_update_varint scriptpubkey_size
          (record state { scriptpubkey_size = size; outputs = outputs })
        >>= λ state. some (next, state, rest))

unfoldable pub parse_rawtxoutput_scriptpubkey_init : ParsingStep TxState
parse_rawtxoutput_scriptpubkey_init state buffers =
    some (next, record state { scriptpubkey_counter = 0 }, buffers)

-- MAX_PREVOUT_SCRIPTPUBKEY_LEN
abbrev pub max_prevout_scriptpubkey_len : ℕ
max_prevout_scriptpubkey_len = 34

-- The copy of a chunk of the output asked for; the inner `none` is the return value -1.
unfoldable pub copy_script : TxState → List ℕ → Option (Option TxOutputs)
copy_script state bytes =
    if is_relevant state
    then (if ltb max_prevout_scriptpubkey_len state.outputs.vout_scriptpubkey_len
        then some none
        else (store_bytes state.outputs.vout_scriptpubkey state.scriptpubkey_counter bytes
            >>= λ memory. some (some (record state.outputs { vout_scriptpubkey = memory }))))
    else some (some state.outputs)

-- The loop. A round but the last reads at least one byte of those that remain.
unfoldable pub scriptpubkey_loop : ℕ → ParsingStep TxState
scriptpubkey_loop zero state buffers = none
scriptpubkey_loop (suc fuel) state buffers =
    let remaining_len : ℕ = sub_size state.scriptpubkey_size state.scriptpubkey_counter in
    with_chunk remaining_len state buffers λ bytes rest. copy_script state bytes >>= λ copied.
    elim copied [
      | none ↦ some (error 1, hash_update bytes state, rest)
      | some outputs ↦
          let state' : TxState = record (hash_update bytes state) {
            outputs = outputs;
            scriptpubkey_counter = add_size state.scriptpubkey_counter (chunk_len remaining_len);
          } in
          elim (state'.scriptpubkey_counter == state'.scriptpubkey_size) [
            | true ↦ some (next, state', rest)
            | false ↦ scriptpubkey_loop fuel state' rest
          ]
    ]

unfoldable pub parse_rawtxoutput_scriptpubkey : ParsingStep TxState
parse_rawtxoutput_scriptpubkey state buffers =
    scriptpubkey_loop (suc (sub_size state.scriptpubkey_size state.scriptpubkey_counter)) state
      buffers

abbrev pub parse_rawtxoutput_steps : List (ParsingStep TxState)
parse_rawtxoutput_steps =
    parse_rawtxoutput_value ∷ parse_rawtxoutput_scriptpubkey_size
    ∷ parse_rawtxoutput_scriptpubkey_init ∷ parse_rawtxoutput_scriptpubkey ∷ []

unfoldable pub parse_rawtx_outputs_init : ParsingStep TxState
parse_rawtx_outputs_init state buffers =
    some (next, record state { out_counter = 0; output_cur_step = 0 }, buffers)

-- One output, from the step that it had come to; the Boolean is `result`.
unfoldable pub run_output : TxState → Buffers → Option (Bool × TxState × Buffers)
run_output state buffers =
    parser_run parse_rawtxoutput_steps (record { cur_step = state.output_cur_step; state = state })
      buffers
    >>= λ r. some (to_bool r.0, record r.1.state { output_cur_step = r.1.cur_step }, r.2)

-- The rounds that are left
unfoldable pub outputs_loop : ℕ → ParsingStep TxState
outputs_loop zero state buffers = some (next, state, buffers)
outputs_loop (suc n) state buffers = run_output state buffers >>= λ r. elim r.0 [
  | false ↦ some (more_data, r.1, r.2)
  | true ↦
      outputs_loop n (record r.1 { out_counter = r.1.out_counter + 1; output_cur_step = 0 }) r.2
]

unfoldable pub parse_rawtx_outputs : ParsingStep TxState
parse_rawtx_outputs state buffers = outputs_loop (state.n_outputs - state.out_counter) state buffers
