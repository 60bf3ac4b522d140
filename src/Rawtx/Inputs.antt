-- ===== src/Rawtx/Inputs.antt =====
-- What the parser of inputs does on the bytes of a list of inputs.
use acre_ledger_app.Base.{
  ℕ, zero, suc, ◌+◌, ◌%◌, ◌^◌, ◌<◌, ◌≡◌, refl, ap, ◌∙◌, sym, arith, min, leb,
}
use acre_ledger_app.Base.{
  some, List, [], ◌∷◌, ◌++◌, length, take, drop, take-append-drop, length-drop, drop_all, take_all,
  All,
}
use acre_ledger_app.Base.{true, ◌==◌, append_assoc, append-nil, Bool-cases, inl, inr}
use mathlib.Core.Path.{subst}
use acre_ledger_app.Buffer.{add_size, sub_size}
use acre_ledger_app.Varint.Format.{varint_bytes}
use acre_ledger_app.Parser.{Buffers}
use acre_ledger_app.Rawtx.State.{TxState, chunk_len, to_bool}
use acre_ledger_app.Rawtx.Consume.{IsStream, Consumes, RunsTo}
use acre_ledger_app.Rawtx.Hash.{
  Ends, Ends-next, consumes_chunk, hash_bytes-Ends, varint_step-Ends, runs_step, runs_last,
  parser_run-start, Untouched, Untouched-same, Untouched-trans, chunk_len-min,
}
use acre_ledger_app.Rawtx.Format.{TxIn, input_bytes, concat_map, IsInput}
use acre_ledger_app.Rawtx.Input.{
  parse_rawtxinput_txid, parse_rawtxinput_vout, parse_rawtxinput_sequence, parse_rawtxinput_steps,
  run_input, inputs_loop, scriptsig_loop, parse_rawtxinput_scriptsig,
  parse_rawtxinput_scriptsig_size, parse_rawtxinput_scriptsig_init,
}

-- The state after the bytes of a script
abbrev after_script : TxState → List ℕ → TxState
after_script s bytes = record s { hashed = s.hashed ++ bytes; scriptsig_counter = s.scriptsig_size }

scriptsig_loop-Ends :
    (fuel : ℕ) (bytes : List ℕ) (s : TxState)
    → length bytes < fuel
    → s.scriptsig_counter + length bytes ≡ s.scriptsig_size
    → s.scriptsig_size < 2 ^ 31
    → Ends (scriptsig_loop fuel s) bytes (after_script s bytes)
unfolding scriptsig_loop
scriptsig_loop-Ends zero bytes s enough sum small = absurd (omega arith)
scriptsig_loop-Ends (suc fuel) bytes s enough sum small =
    let left : sub_size s.scriptsig_size s.scriptsig_counter ≡ length bytes = omega arith in
    let chunk : chunk_len (length bytes) ≡ min 32 (length bytes) = chunk_len-min _ (omega arith) in
    let c : ℕ = min 32 (length bytes) in
    let counter : add_size s.scriptsig_counter
          (chunk_len (sub_size s.scriptsig_size s.scriptsig_counter))
        ≡ s.scriptsig_counter + c =
      rw (left, chunk) (omega arith) in
    let counter0 : add_size s.scriptsig_counter c ≡ s.scriptsig_counter + c = omega arith in
    let s' : TxState = record s {
      hashed = s.hashed ++ take 32 bytes;
      scriptsig_counter = s.scriptsig_counter + c;
    } in
    let joined : (s.hashed ++ take 32 bytes) ++ drop 32 bytes ≡ s.hashed ++ bytes =
      append_assoc s.hashed (take 32 bytes) (drop 32 bytes)
      ∙ ap (λ (b : List ℕ). s.hashed ++ b) (take-append-drop 32 bytes) in
    let reached : ((s.scriptsig_counter + c) == s.scriptsig_size) ≡ leb (length bytes) 32 =
      ground arith in
    rw left (
      consumes_chunk bytes s _ _ (omega arith) (
        rw (chunk, counter0, reached)
          (elim (Bool-cases (leb (length bytes) 32)) [
            | inl e ↦
                let none_left = drop_all 32 bytes (ground arith) in
                let all_taken = take_all 32 bytes (ground arith) in
                let at_end : s.scriptsig_counter + c ≡ s.scriptsig_size = ground arith in
                rw (e, counter, none_left, all_taken, at_end) (Ends-next (after_script s bytes))
            | inr e ↦
                rw (e, counter)
                  (subst
                    (λ (h : List ℕ).
                      Ends (scriptsig_loop fuel s') (drop 32 bytes)
                        (record s { hashed = h; scriptsig_counter = s.scriptsig_size }))
                    joined
                    (scriptsig_loop-Ends fuel (drop 32 bytes) s'
                      (ground (arith, length-drop 32 bytes)) (ground (arith, length-drop 32 bytes))
                      small))
          ])))

parse_rawtxinput_scriptsig-Ends :
    (bytes : List ℕ) (s : TxState)
    → s.scriptsig_counter ≡ 0
    → s.scriptsig_size ≡ length bytes
    → length bytes < 2 ^ 31
    → Ends (parse_rawtxinput_scriptsig s) bytes (after_script s bytes)
unfolding parse_rawtxinput_scriptsig
parse_rawtxinput_scriptsig-Ends bytes s start size small =
    scriptsig_loop-Ends _ bytes s (omega arith) (omega arith) (omega arith)

parse_rawtxinput_scriptsig_size-Ends :
    (n : ℕ) (s : TxState)
    → n < 2 ^ 31
    → Ends
        (parse_rawtxinput_scriptsig_size s)
        (varint_bytes n)
        (record s { hashed = s.hashed ++ varint_bytes n; scriptsig_size = n })
unfolding parse_rawtxinput_scriptsig_size
parse_rawtxinput_scriptsig_size-Ends n s h =
    let e : n % 2 ^ 32 ≡ n = omega arith in
    subst
      (λ (k : ℕ).
        Ends (parse_rawtxinput_scriptsig_size s) (varint_bytes n)
          (record s { hashed = s.hashed ++ varint_bytes n; scriptsig_size = k }))
      e (varint_step-Ends n s (λ k. record s { scriptsig_size = k % 2 ^ 32 }) (omega arith))

-- The state after an input
abbrev pub after_input : TxState → TxIn → TxState
after_input s i = record s {
  hashed = s.hashed ++ input_bytes i;
  scriptsig_size = length i.script_sig;
  scriptsig_counter = length i.script_sig;
}

parse_rawtxinput_steps-RunsTo :
    (s : TxState) (i : TxIn)
    → IsInput i
    → RunsTo parse_rawtxinput_steps
        (record { cur_step = 0; state = s })
        (input_bytes i)
        (λ s'. s' ≡ after_input s i)
unfolding parse_rawtxinput_txid parse_rawtxinput_vout parse_rawtxinput_scriptsig_init
    parse_rawtxinput_sequence
parse_rawtxinput_steps-RunsTo s i h =
    let n : ℕ = length i.script_sig in
    let joined : ((((s.hashed ++ i.txid) ++ i.vout) ++ varint_bytes n) ++ i.script_sig)
          ++ i.sequence
        ≡ s.hashed ++ input_bytes i =
      simp (append_assoc) in
    runs_step _ _ 0 s _ i.txid _ _ (hash_bytes-Ends 32 i.txid s h.txid_size) (
      runs_step _ _ 1 _ _ i.vout _ _ (hash_bytes-Ends 4 i.vout _ h.vout_size) (
        runs_step _ _ 2 _ _ (varint_bytes n) _ _ (parse_rawtxinput_scriptsig_size-Ends n _ h.small)
          (runs_step _ _ 3 _ _ [] _ _ (Ends-next _) (
            runs_step _ _ 4 _ _ i.script_sig _ _
              (parse_rawtxinput_scriptsig-Ends i.script_sig _ refl refl h.small)
              (runs_last _ 5 _ _ i.sequence _ (hash_bytes-Ends 4 i.sequence _ h.sequence_size)
                (ap (λ (b : List ℕ). record (after_input s i) { hashed = b }) joined))))))

run_input-takes :
    (s : TxState) (i : TxIn) (d : Buffers) (rest : List ℕ)
    → IsInput i
    → s.input_cur_step ≡ 0
    → IsStream d (input_bytes i ++ rest)
    → (d' : Buffers) × (run_input s d
        ≡ some (true, record (after_input s i) { input_cur_step = 6 }, d'))
      × IsStream d' rest
unfolding run_input to_bool
run_input-takes s i d rest h start v =
    let (s', d', run, v', e) = parse_rawtxinput_steps-RunsTo s i h d rest v in
    (d', rw (parser_run-start parse_rawtxinput_steps s.input_cur_step s d start, run, e) refl, v')

-- The end of the inputs
pub record AfterInputs (s : TxState) (ins : List TxIn) (s' : TxState) : Type 0 where
  pub hashed : s'.hashed ≡ s.hashed ++ concat_map input_bytes ins
  pub untouched : Untouched s s'

pub inputs_loop-Consumes :
    (ins : List TxIn) (s : TxState)
    → All IsInput ins
    → s.input_cur_step ≡ 0
    → Consumes (inputs_loop (length ins) s) (concat_map input_bytes ins) (AfterInputs s ins)
unfolding inputs_loop
inputs_loop-Consumes [] s h start d rest v = (
  s,
  d,
  refl,
  v,
  record { hashed = sym (append-nil s.hashed); untouched = Untouched-same s s refl },
)
inputs_loop-Consumes (i ∷ ins) s h start d rest v =
    let (d1, run, v1) =
      run_input-takes s i d (concat_map input_bytes ins ++ rest) h.0 start
        (subst (IsStream d) (append_assoc (input_bytes i) (concat_map input_bytes ins) rest) v) in
    let s1 : TxState = record (after_input s i) {
      in_counter = s.in_counter + 1;
      input_cur_step = 0;
    } in
    let (s2, d2, run', v2, q) = inputs_loop-Consumes ins s1 h.1 refl d1 rest v1 in
    (
      s2,
      d2,
      rw run run',
      v2,
      record {
        hashed = q.hashed ∙ append_assoc s.hashed (input_bytes i) (concat_map input_bytes ins);
        untouched =
            Untouched-trans
              (record { is_segwit = refl; n_inputs = refl; output_index = refl; outputs = refl })
              q.untouched;
      },
    )
