-- ===== src/Rawtx/Witness.antt =====
-- The step that parses the witnesses of a raw transaction, of which no use is made.
use acre_ledger_app.Base.{
  ℕ, zero, suc, ◌+◌, ◌-◌, ◌%◌, ◌^◌, none, some, ◌>>=◌, true, false, ltb, not, if◌then◌else◌,
}
use acre_ledger_app.Buffer.{add_size, sub_size}
use acre_ledger_app.Parser.{error, more_data, next, ParsingStep}
use acre_ledger_app.Rawtx.State.{TxState, Reply, with_varint, chunk_len, with_chunk}

unfoldable pub parse_rawtx_witnesses_init : ParsingStep TxState
parse_rawtx_witnesses_init state buffers =
    some (next, record state { wit_counter = 0; is_cur_wit_stack_elements_read = false }, buffers)

-- What comes after a step that went well; else its reply
unfoldable pub and_next : Reply → ParsingStep TxState → Reply
and_next reply step = reply >>= λ r. elim r.0 [
  | error k ↦ some (error k, r.1, r.2)
  | more_data ↦ some (more_data, r.1, r.2)
  | next ↦ step r.1 r.2
]

-- The bytes of a stack element. A round reads at least one of those that remain.
unfoldable pub element_loop : ℕ → ParsingStep TxState
element_loop zero state buffers = none
element_loop (suc fuel) state buffers =
    elim (ltb state.cur_wit_el_bytes_read state.cur_wit_elem_len) [
      | false ↦ some (next, state, buffers)
      | true ↦
          let remaining_len : ℕ = sub_size state.cur_wit_elem_len state.cur_wit_el_bytes_read in
          with_chunk remaining_len state buffers λ bytes rest.
            element_loop fuel
              (record state {
                cur_wit_el_bytes_read =
                    add_size state.cur_wit_el_bytes_read (chunk_len remaining_len);
              })
              rest
    ]

unfoldable pub read_elem_len : ParsingStep TxState
read_elem_len state buffers =
    if state.is_cur_wit_elem_len_read
    then some (next, state, buffers)
    else with_varint state buffers λ len rest. some (
      next,
      record state {
        is_cur_wit_elem_len_read = true;
        cur_wit_elem_len = len % 2 ^ 32;
        cur_wit_el_bytes_read = 0;
      },
      rest,
    )

-- The stack elements that are left of a witness field
unfoldable pub stack_loop : ℕ → ParsingStep TxState
stack_loop zero state buffers = some (next, state, buffers)
stack_loop (suc n) state buffers = and_next (read_elem_len state buffers) λ state buffers.
    and_next
      (element_loop (suc (state.cur_wit_elem_len - state.cur_wit_el_bytes_read)) state buffers)
      λ state buffers.
        stack_loop n
          (record state {
            wit_stack_el_counter = state.wit_stack_el_counter + 1;
            is_cur_wit_elem_len_read = false;
          })
          buffers

unfoldable pub read_stack_elements : ParsingStep TxState
read_stack_elements state buffers =
    if state.is_cur_wit_stack_elements_read
    then some (next, state, buffers)
    else with_varint state buffers λ n rest. some (
      next,
      record state {
        is_cur_wit_stack_elements_read = true;
        cur_wit_stack_elements = n % 2 ^ 32;
        is_cur_wit_elem_len_read = false;
        wit_stack_el_counter = 0;
      },
      rest,
    )

-- The witness fields that are left
unfoldable pub witnesses_loop : ℕ → ParsingStep TxState
witnesses_loop zero state buffers = some (next, state, buffers)
witnesses_loop (suc n) state buffers = and_next (read_stack_elements state buffers) λ state buffers.
    and_next (stack_loop (state.cur_wit_stack_elements - state.wit_stack_el_counter) state buffers)
      λ state buffers.
        witnesses_loop n
          (record state {
            wit_counter = state.wit_counter + 1;
            is_cur_wit_stack_elements_read = false;
          })
          buffers

unfoldable pub parse_rawtx_witnesses : ParsingStep TxState
parse_rawtx_witnesses state buffers =
    if not state.is_segwit
    then some (next, state, buffers)
    else witnesses_loop (state.n_inputs - state.wit_counter) state buffers
