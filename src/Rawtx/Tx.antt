-- ===== src/Rawtx/Tx.antt =====
-- What the parser does on the bytes of a whole transaction.
use acre_ledger_app.Base.{ℕ, ◌+◌, ◌≤◌, ◌≡◌, refl, ap, ◌∙◌, sym, arith}
use acre_ledger_app.Base.{Option, some, List, [], ◌∷◌, ◌++◌, length, take, take-append, get_elem?}
use acre_ledger_app.Base.{false, append_assoc}
use mathlib.Core.Path.{subst}
use acre_ledger_app.Varint.Format.{varint_bytes}
use acre_ledger_app.Parser.{Buffers, next, ParsingStep, parser_run}
use acre_ledger_app.Rawtx.State.{TxState, TxOutputs}
use acre_ledger_app.Rawtx.Consume.{IsStream, RunsTo, runs_cons}
use acre_ledger_app.Rawtx.Hash.{Ends-next, hash_bytes-Ends, runs_step, runs_last, parser_run-start}
use acre_ledger_app.Rawtx.Format.{
  Tx, tx_bytes, marker_bytes, inputs_bytes, outputs_bytes, witnesses_bytes, txid_preimage, IsTx,
  concat_map, input_bytes, output_bytes,
}
use acre_ledger_app.Rawtx.Inputs.{AfterInputs}
use acre_ledger_app.Rawtx.OutputList.{AfterOutputs, AllFit, kept, kept-eq, seen}
use acre_ledger_app.Rawtx.Witnesses.{Passed}
use acre_ledger_app.Rawtx.Input.{parse_rawtx_inputs_init, parse_rawtx_inputs}
use acre_ledger_app.Rawtx.Output.{parse_rawtx_outputs_init, parse_rawtx_outputs}
use acre_ledger_app.Rawtx.Witness.{parse_rawtx_witnesses_init, parse_rawtx_witnesses}
use acre_ledger_app.Rawtx.Whole.{
  parse_rawtx_version, parse_rawtx_check_segwit, parse_rawtx_input_count, parse_rawtx_output_count,
  parse_rawtx_locktime, parse_rawtx_steps, fresh_state,
}
use acre_ledger_app.Rawtx.Format.{TxOut}
use acre_ledger_app.Rawtx.Steps.{
  has_witnesses, check_segwit-RunsTo, input_count-Ends, output_count-Ends,
  parse_rawtx_inputs-Consumes, parse_rawtx_outputs-Consumes, parse_rawtx_witnesses-Consumes,
}

-- The last steps
abbrev steps_from_witnesses : List (ParsingStep TxState)
steps_from_witnesses =
    parse_rawtx_witnesses_init ∷ parse_rawtx_witnesses ∷ parse_rawtx_locktime ∷ []

abbrev steps_from_outputs : List (ParsingStep TxState)
steps_from_outputs =
    parse_rawtx_output_count ∷ parse_rawtx_outputs_init ∷ parse_rawtx_outputs ∷ steps_from_witnesses

abbrev steps_from_inputs : List (ParsingStep TxState)
steps_from_inputs =
    parse_rawtx_input_count ∷ parse_rawtx_inputs_init ∷ parse_rawtx_inputs ∷ steps_from_outputs

-- The end of a transaction
pub record AfterTx (index : Option ℕ) (tx : Tx) (outputs : TxOutputs) (s : TxState) : Type 0 where
  pub hashed : s.hashed ≡ txid_preimage tx
  pub outputs_kept : s.outputs ≡ kept index 0 tx.outputs outputs

module _ (tx : Tx) (h : IsTx tx) (index : Option ℕ) (outputs : TxOutputs) where
  after_outputs-RunsTo :
      (s : TxState)
      → s.hashed ≡ tx.version ++ (inputs_bytes tx ++ outputs_bytes tx)
      → s.is_segwit ≡ has_witnesses tx.witnesses
      → s.n_inputs ≡ length tx.inputs
      → s.outputs ≡ kept index 0 tx.outputs outputs
      → RunsTo steps_from_witnesses
          (record { cur_step = 8; state = s })
          (witnesses_bytes tx.witnesses ++ tx.locktime)
          (AfterTx index tx outputs)
  unfolding parse_rawtx_witnesses_init parse_rawtx_locktime
  after_outputs-RunsTo s hashed segwit count kept_outputs =
      let s1 : TxState = record s { wit_counter = 0; is_cur_wit_stack_elements_read = false } in
      runs_step _ _ 8 s s1 [] _ _ (Ends-next s1) (
        runs_cons parse_rawtx_witnesses _ 9 s1 (witnesses_bytes tx.witnesses) tx.locktime
          (Passed s1) _
          (parse_rawtx_witnesses-Consumes (length tx.inputs) tx.witnesses s1 h.witnesses_ok segwit
            count refl refl)
          λ t p.
            runs_last _ 10 t _ tx.locktime _ (hash_bytes-Ends 4 tx.locktime t h.locktime_size)
              (record {
                hashed =
                    ap (λ (b : List ℕ). b ++ tx.locktime) (p.hashed ∙ hashed) ∙ simp (append_assoc);
                outputs_kept = p.untouched.outputs ∙ kept_outputs;
              }))

  after_inputs-RunsTo :
      (s : TxState)
      → AllFit index 0 tx.outputs
      → 34 ≤ length outputs.vout_scriptpubkey
      → s.hashed ≡ tx.version ++ inputs_bytes tx
      → s.is_segwit ≡ has_witnesses tx.witnesses
      → s.n_inputs ≡ length tx.inputs
      → s.output_index ≡ index
      → s.outputs ≡ outputs
      → RunsTo steps_from_outputs
          (record { cur_step = 5; state = s })
          (outputs_bytes tx ++ (witnesses_bytes tx.witnesses ++ tx.locktime))
          (AfterTx index tx outputs)
  unfolding parse_rawtx_outputs_init
  after_inputs-RunsTo s fit room hashed segwit count same_index same_outputs =
      let n : ℕ = length tx.outputs in
      let s1 : TxState = record s { hashed = s.hashed ++ varint_bytes n; n_outputs = n } in
      let s2 : TxState = record s1 { out_counter = 0; output_cur_step = 0 } in
      let more : List ℕ = witnesses_bytes tx.witnesses ++ tx.locktime in
      let fit' : AllFit s.output_index 0 tx.outputs =
        subst (λ (i : Option ℕ). AllFit i 0 tx.outputs) (sym same_index) fit in
      let room' : 34 ≤ length s.outputs.vout_scriptpubkey = rw same_outputs room in
      subst
        (λ (b : List ℕ).
          RunsTo steps_from_outputs (record { cur_step = 5; state = s }) b
            (AfterTx index tx outputs))
        (sym (append_assoc (varint_bytes n) (concat_map output_bytes tx.outputs) more))
        (runs_step _ _ 5 s s1 (varint_bytes n) _ _ (output_count-Ends n s h.few_outputs) (
          runs_step _ _ 6 s1 s2 [] _ _ (Ends-next s2) (
            runs_cons parse_rawtx_outputs _ 7 s2 (concat_map output_bytes tx.outputs) more
              (AfterOutputs s2 tx.outputs) _
              (parse_rawtx_outputs-Consumes tx s2 h fit' room' refl refl refl)
              λ t q.
                after_outputs-RunsTo t
                  (q.hashed
                    ∙ ap
                        (λ (b : List ℕ).
                          (b ++ varint_bytes n) ++ concat_map output_bytes tx.outputs)
                        hashed
                    ∙ simp (append_assoc))
                  (q.is_segwit ∙ segwit) (q.n_inputs ∙ count)
                  (q.outputs ∙ rw (same_index, same_outputs) refl))))

  parse_rawtx_steps-RunsTo :
      AllFit index 0 tx.outputs
      → 34 ≤ length outputs.vout_scriptpubkey
      → RunsTo parse_rawtx_steps
          (record { cur_step = 0; state = fresh_state index outputs })
          (tx_bytes tx)
          (AfterTx index tx outputs)
  unfolding parse_rawtx_version parse_rawtx_inputs_init fresh_state
  parse_rawtx_steps-RunsTo fit room =
      let n : ℕ = length tx.inputs in
      let s0 : TxState = fresh_state index outputs in
      let s1 : TxState = record s0 { hashed = tx.version } in
      let s2 : TxState = record s1 { is_segwit = has_witnesses tx.witnesses } in
      let s3 : TxState = record s2 { hashed = tx.version ++ varint_bytes n; n_inputs = n } in
      let s4 : TxState = record s3 { in_counter = 0; input_cur_step = 0 } in
      let more : List ℕ = outputs_bytes tx ++ (witnesses_bytes tx.witnesses ++ tx.locktime) in
      let body : List ℕ = concat_map input_bytes tx.inputs ++ more in
      runs_step parse_rawtx_version _ 0 s0 s1 tx.version _ _
        (hash_bytes-Ends 4 tx.version s0 h.version_size)
        (subst
          (λ (b : List ℕ).
            RunsTo (parse_rawtx_check_segwit ∷ steps_from_inputs)
              (record { cur_step = 1; state = s1 }) (marker_bytes tx.witnesses ++ b)
              (AfterTx index tx outputs))
          (sym (append_assoc (varint_bytes n) (concat_map input_bytes tx.inputs) more))
          (check_segwit-RunsTo tx.witnesses n _ s1 body _ h.some_input (
            runs_step parse_rawtx_input_count _ 2 s2 s3 (varint_bytes n) _ _
              (input_count-Ends n s2 h.few_inputs)
              (runs_step parse_rawtx_inputs_init _ 3 s3 s4 [] _ _ (Ends-next s4) (
                runs_cons parse_rawtx_inputs steps_from_outputs 4 s4
                  (concat_map input_bytes tx.inputs) more (AfterInputs s4 tx.inputs) _
                  (parse_rawtx_inputs-Consumes tx s4 h refl refl refl)
                  λ t q.
                    after_inputs-RunsTo t fit room
                      (q.hashed
                        ∙ append_assoc tx.version (varint_bytes n)
                            (concat_map input_bytes tx.inputs))
                      q.untouched.is_segwit q.untouched.n_inputs q.untouched.output_index
                      q.untouched.outputs)))))

-- On the bytes of a transaction with at least one input, in two valid buffers, however they are split
-- between the two and whatever follows them, the parser that is asked for output `i` ends well. It
-- has read exactly the transaction; it has hashed the transaction less the marker, the flag and the
-- witnesses; and it holds the amount of output `i`, the length of its script and the script itself.
-- The scripts are shorter than 2^31 bytes, and that of output `i` has 34 bytes at most.
pub parser_run-tx_bytes :
    (tx : Tx) (i : ℕ) (o : TxOut) (outputs : TxOutputs) (d : Buffers) (rest : List ℕ)
    → IsTx tx
    → get_elem? tx.outputs i ≡ some o
    → length o.script_pubkey ≤ 34
    → length outputs.vout_scriptpubkey ≡ 34
    → IsStream d (tx_bytes tx ++ rest)
    → (s : TxState) × (d' : Buffers) × (parser_run parse_rawtx_steps
          (record { cur_step = 0; state = fresh_state (some i) outputs })
          d
        ≡ some (next, record { cur_step = 11; state = s }, d'))
      × IsStream d' rest
      × (s.hashed ≡ txid_preimage tx)
      × (s.outputs.vout_value ≡ o.value)
      × (s.outputs.vout_scriptpubkey_len ≡ length o.script_pubkey)
      × (take (length o.script_pubkey) s.outputs.vout_scriptpubkey ≡ o.script_pubkey)
parser_run-tx_bytes tx i o outputs d rest h found short room v =
    let fit : AllFit (some i) 0 tx.outputs = λ k x at e.
      let same : i ≡ 0 + k = cc in
      let index : i ≡ k = omega arith in let this : x ≡ o = cc in rw this short in
    let (s, d', run, v', after) =
      parse_rawtx_steps-RunsTo tx h (some i) outputs fit (omega arith) d rest v in
    let all_kept : s.outputs ≡ seen outputs o =
      after.outputs_kept ∙ kept-eq i 0 i tx.outputs outputs o (omega arith) found in
    (
      s,
      d',
      parser_run-start parse_rawtx_steps 0 (fresh_state (some i) outputs) d refl ∙ run,
      v',
      after.hashed,
      ap (λ (t : TxOutputs). t.vout_value) all_kept,
      ap (λ (t : TxOutputs). t.vout_scriptpubkey_len) all_kept,
      ap (λ (t : TxOutputs). take (length o.script_pubkey) t.vout_scriptpubkey) all_kept
          ∙ take-append o.script_pubkey _,
    )
