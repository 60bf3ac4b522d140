-- ===== src/Rawtx/Input.antt =====
-- The steps that parse the inputs of a raw transaction.
use acre_ledger_app.Base.{
  ℕ, zero, suc, ◌+◌, ◌-◌, ◌%◌, ◌^◌, Option, none, some, ◌>>=◌, List, [], ◌∷◌,
}
use acre_ledger_app.Base.{Bool, true, false, ◌==◌}
use acre_ledger_app.Buffer.{add_size, sub_size}
use acre_ledger_app.Parser.{Buffers, more_data, next, ParsingStep, parser_run}
use acre_ledger_app.Rawtx.State.{TxState, with_varint, hash_update, hash_update_varint, hash_bytes}
use acre_ledger_app.Rawtx.State.{chunk_len, with_chunk, to_bool}

unfoldable pub parse_rawtxinput_txid : ParsingStep TxState
parse_rawtxinput_txid = hash_bytes 32

unfoldable pub parse_rawtxinput_vout : ParsingStep TxState
parse_rawtxinput_vout = hash_bytes 4

unfoldable pub parse_rawtxinput_scriptsig_size : ParsingStep TxState
parse_rawtxinput_scriptsig_size state buffers = with_varint state buffers λ scriptsig_size rest.
    hash_update_varint scriptsig_size (record state { scriptsig_size = scriptsig_size % 2 ^ 32 })
    >>= λ state. some (next, state, rest)

unfoldable pub parse_rawtxinput_scriptsig_init : ParsingStep TxState
parse_rawtxinput_scriptsig_init state buffers =
    some (next, record state { scriptsig_counter = 0 }, buffers)

-- The loop. A round but the last reads at least one byte of those that remain.
unfoldable pub scriptsig_loop : ℕ → ParsingStep TxState
scriptsig_loop zero state buffers = none
scriptsig_loop (suc fuel) state buffers =
    let remaining_len : ℕ = sub_size state.scriptsig_size state.scriptsig_counter in
    with_chunk remaining_len state buffers λ bytes rest.
      let state' : TxState = record (hash_update bytes state) {
        scriptsig_counter = add_size state.scriptsig_counter (chunk_len remaining_len);
      } in
      elim (state'.scriptsig_counter == state'.scriptsig_size) [
        | true ↦ some (next, state', rest)
        | false ↦ scriptsig_loop fuel state' rest
      ]

unfoldable pub parse_rawtxinput_scriptsig : ParsingStep TxState
parse_rawtxinput_scriptsig state buffers =
    scriptsig_loop (suc (sub_size state.scriptsig_size state.scriptsig_counter)) state buffers

unfoldable pub parse_rawtxinput_sequence : ParsingStep TxState
parse_rawtxinput_sequence = hash_bytes 4

abbrev pub parse_rawtxinput_steps : List (ParsingStep TxState)
parse_rawtxinput_steps =
    parse_rawtxinput_txid ∷ parse_rawtxinput_vout ∷ parse_rawtxinput_scriptsig_size
    ∷ parse_rawtxinput_scriptsig_init ∷ parse_rawtxinput_scriptsig ∷ parse_rawtxinput_sequence ∷ []

unfoldable pub parse_rawtx_inputs_init : ParsingStep TxState
parse_rawtx_inputs_init state buffers =
    some (next, record state { in_counter = 0; input_cur_step = 0 }, buffers)

-- One input, from the step that it had come to; the Boolean is `result`.
unfoldable pub run_input : TxState → Buffers → Option (Bool × TxState × Buffers)
run_input state buffers =
    parser_run parse_rawtxinput_steps (record { cur_step = state.input_cur_step; state = state })
      buffers
    >>= λ r. some (to_bool r.0, record r.1.state { input_cur_step = r.1.cur_step }, r.2)

-- The rounds that are left
unfoldable pub inputs_loop : ℕ → ParsingStep TxState
inputs_loop zero state buffers = some (next, state, buffers)
inputs_loop (suc n) state buffers = run_input state buffers >>= λ r. elim r.0 [
  | false ↦ some (more_data, r.1, r.2)
  | true ↦ inputs_loop n (record r.1 { in_counter = r.1.in_counter + 1; input_cur_step = 0 }) r.2
]

unfoldable pub parse_rawtx_inputs : ParsingStep TxState
parse_rawtx_inputs state buffers = inputs_loop (state.n_inputs - state.in_counter) state buffers
