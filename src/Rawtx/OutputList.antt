-- ===== src/Rawtx/OutputList.antt =====
-- What the parser of outputs does on one output, and on a list of them.
use acre_ledger_app.Base.{ℕ, zero, suc, ◌+◌, ◌%◌, ◌^◌, ◌≤◌, ◌<◌, ◌≡◌, refl, ap, ◌∙◌, sym, arith}
use acre_ledger_app.Base.{Option, none, some, List, [], ◌∷◌, ◌++◌, length, All}
use acre_ledger_app.Base.{
  Bool, get_elem?, true, false, ◌==◌, if◌then◌else◌, append_assoc, append-nil, Bool-cases, inl, inr,
}
use acre_ledger_app.Base.Blocks.{overwrite, length-overwrite}
use mathlib.Core.Path.{subst}
use acre_ledger_app.Bytes.Values.{le_bytes, length-le_bytes}
use acre_ledger_app.Varint.Format.{varint_bytes}
use acre_ledger_app.Parser.{Buffers}
use acre_ledger_app.Rawtx.State.{TxState, TxOutputs, to_bool}
use acre_ledger_app.Rawtx.Consume.{IsStream, Consumes, consumes_bytes, RunsTo}
use acre_ledger_app.Rawtx.Varints.{read_u64_le-le_bytes}
use acre_ledger_app.Rawtx.Hash.{
  Ends, Ends-next, consumes_nil, varint_step-Ends, runs_step, runs_last, parser_run-start,
}
use acre_ledger_app.Rawtx.Format.{TxOut, output_bytes, concat_map, IsOutput}
use acre_ledger_app.Rawtx.Output.{
  is_relevant, parse_rawtxoutput_value, parse_rawtxoutput_scriptpubkey_size,
  parse_rawtxoutput_scriptpubkey_init, parse_rawtxoutput_steps, run_output, outputs_loop,
}
use acre_ledger_app.Rawtx.Outputs.{parse_rawtxoutput_scriptpubkey-Ends}

parse_rawtxoutput_value-Ends :
    (v : ℕ) (s : TxState)
    → v < 2 ^ 64
    → Ends (parse_rawtxoutput_value s) (le_bytes 8 v) (record s {
      hashed = s.hashed ++ le_bytes 8 v;
      outputs = if is_relevant s then record s.outputs { vout_value = v } else s.outputs;
    })
unfolding parse_rawtxoutput_value
parse_rawtxoutput_value-Ends v s h = consumes_nil _ (
    consumes_bytes 8 (le_bytes 8 v) [] s _ _ (length-le_bytes 8 v)
      (rw (read_u64_le-le_bytes v h) (Ends-next _)))

parse_rawtxoutput_scriptpubkey_size-Ends :
    (n : ℕ) (s : TxState)
    → n < 2 ^ 31
    → Ends (parse_rawtxoutput_scriptpubkey_size s) (varint_bytes n) (record s {
      hashed = s.hashed ++ varint_bytes n;
      scriptpubkey_size = n;
      outputs = if is_relevant s then record s.outputs { vout_scriptpubkey_len = n } else s.outputs;
    })
unfolding parse_rawtxoutput_scriptpubkey_size
parse_rawtxoutput_scriptpubkey_size-Ends n s h =
    let e : n % 2 ^ 32 ≡ n = omega arith in
    subst
      (λ (k : ℕ). Ends (parse_rawtxoutput_scriptpubkey_size s) (varint_bytes n) (record s {
        hashed = s.hashed ++ varint_bytes n;
        scriptpubkey_size = k;
        outputs =
            if is_relevant s then record s.outputs { vout_scriptpubkey_len = k } else s.outputs;
      }))
      e
      (varint_step-Ends n s
        (λ k. record s {
          scriptpubkey_size = k % 2 ^ 32;
          outputs =
              if is_relevant s
              then record s.outputs { vout_scriptpubkey_len = k % 2 ^ 32 }
              else s.outputs;
        })
        (omega arith))

-- What is kept of the output that was asked for
abbrev pub seen : TxOutputs → TxOut → TxOutputs
seen outputs o = record {
  vout_value = o.value;
  vout_scriptpubkey_len = length o.script_pubkey;
  vout_scriptpubkey = overwrite outputs.vout_scriptpubkey 0 o.script_pubkey;
}

-- The state after an output
abbrev after_output : TxState → TxOut → TxState
after_output s o = record s {
  hashed = s.hashed ++ output_bytes o;
  scriptpubkey_size = length o.script_pubkey;
  scriptpubkey_counter = length o.script_pubkey;
  outputs = if is_relevant s then seen s.outputs o else s.outputs;
}

-- The script of the output that was asked for fits the memory.
abbrev pub Fits : TxState → TxOut → Type 0
Fits s o =
    is_relevant s ≡ true → (length o.script_pubkey ≤ 34) × (34 ≤ length s.outputs.vout_scriptpubkey)

parse_rawtxoutput_steps-RunsTo :
    (s : TxState) (o : TxOut)
    → IsOutput o
    → Fits s o
    → RunsTo parse_rawtxoutput_steps
        (record { cur_step = 0; state = s })
        (output_bytes o)
        (λ s'. s' ≡ after_output s o)
unfolding parse_rawtxoutput_scriptpubkey_init is_relevant
parse_rawtxoutput_steps-RunsTo s o h fits =
    let n : ℕ = length o.script_pubkey in
    let joined : ((s.hashed ++ le_bytes 8 o.value) ++ varint_bytes n) ++ o.script_pubkey
        ≡ s.hashed ++ output_bytes o =
      simp (append_assoc) in
    runs_step _ _ 0 s _ (le_bytes 8 o.value) _ _ (parse_rawtxoutput_value-Ends o.value s h.amount) (
      runs_step _ _ 1 _ _ (varint_bytes n) _ _
        (parse_rawtxoutput_scriptpubkey_size-Ends n _ h.small)
        (runs_step _ _ 2 _ _ [] _ _ (Ends-next _) (
          runs_last _ 3 _ _ o.script_pubkey _
            (parse_rawtxoutput_scriptpubkey-Ends o.script_pubkey _ refl refl h.small (record {
              short = λ e. let (small, _) = fits e in rw e small;
              room = λ e. let (small, room) = fits e in rw e (omega arith);
            }))
            (elim (Bool-cases (is_relevant s)) [
              | inl e ↦ rw (e, joined) refl
              | inr e ↦ rw (e, joined) refl
            ]))))

run_output-takes :
    (s : TxState) (o : TxOut) (d : Buffers) (rest : List ℕ)
    → IsOutput o
    → Fits s o
    → s.output_cur_step ≡ 0
    → IsStream d (output_bytes o ++ rest)
    → (d' : Buffers) × (run_output s d
        ≡ some (true, record (after_output s o) { output_cur_step = 4 }, d'))
      × IsStream d' rest
unfolding run_output to_bool
run_output-takes s o d rest h fits start v =
    let (s', d', run, v', e) = parse_rawtxoutput_steps-RunsTo s o h fits d rest v in
    (d', rw (parser_run-start parse_rawtxoutput_steps s.output_cur_step s d start, run, e) refl, v')

-- Whether the output with a number is the one asked for
abbrev is_asked : Option ℕ → ℕ → Bool
is_asked none j = false
is_asked (some i) j = j == i

-- What is kept of the outputs from a number on
abbrev pub kept : Option ℕ → ℕ → List TxOut → TxOutputs → TxOutputs
kept index j [] outputs = outputs
kept index j (o ∷ outs) outputs =
    kept index (j + 1) outs (if is_asked index j then seen outputs o else outputs)

kept_past : (i j : ℕ) (outs : List TxOut) (t : TxOutputs) → i < j → kept (some i) j outs t ≡ t
kept_past i j [] t h = refl
kept_past i j (o ∷ outs) t h =
    let e : (j == i) ≡ false = ground arith in rw e (kept_past i (j + 1) outs t (omega arith))

-- Of the output asked for, all is kept; of the others, nothing.
pub kept-eq :
    (k j i : ℕ) (outs : List TxOut) (t : TxOutputs) (o : TxOut)
    → i ≡ j + k
    → get_elem? outs k ≡ some o
    → kept (some i) j outs t ≡ seen t o
kept-eq k j i [] t o e found = cc
kept-eq zero j i (x ∷ outs) t o e found =
    let same : (j == i) ≡ true = ground arith in
    let here : x ≡ o = cc in rw (same, here) (kept_past i (j + 1) outs (seen t o) (omega arith))
kept-eq (suc k) j i (x ∷ outs) t o e found =
    let other : (j == i) ≡ false = ground arith in
    rw other (kept-eq k (j + 1) i outs t o (omega arith) found)

-- The end of the outputs
pub record AfterOutputs (s : TxState) (outs : List TxOut) (s' : TxState) : Type 0 where
  pub hashed : s'.hashed ≡ s.hashed ++ concat_map output_bytes outs
  pub is_segwit : s'.is_segwit ≡ s.is_segwit
  pub n_inputs : s'.n_inputs ≡ s.n_inputs
  pub outputs : s'.outputs ≡ kept s.output_index s.out_counter outs s.outputs

-- The output asked for, if it is among those from `j` on, has a script of 34 bytes at most.
abbrev pub AllFit : Option ℕ → ℕ → List TxOut → Type 0
AllFit index j outs =
    (k : ℕ) (o : TxOut)
    → get_elem? outs k ≡ some o
    → index ≡ some (j + k)
    → length o.script_pubkey ≤ 34

is_asked_index : (index : Option ℕ) (j : ℕ) → is_asked index j ≡ true → index ≡ some j
is_asked_index none j e = absurd (ground (arith, e))
is_asked_index (some i) j e = ap some (ground (arith, e))

asked-eq :
    (index : Option ℕ) (j : ℕ) → (elim index [ none ↦ false | some i ↦ j == i ]) ≡ is_asked index j
asked-eq none j = refl
asked-eq (some i) j = refl

is_relevant-eq : (s : TxState) → is_relevant s ≡ is_asked s.output_index s.out_counter
unfolding is_relevant
is_relevant-eq s = asked-eq s.output_index s.out_counter

AllFit-head :
    (s : TxState) (o : TxOut) (outs : List TxOut)
    → AllFit s.output_index s.out_counter (o ∷ outs)
    → 34 ≤ length s.outputs.vout_scriptpubkey
    → Fits s o
AllFit-head s o outs fit room e = (
  fit 0 o refl (
      is_asked_index s.output_index s.out_counter (sym (is_relevant-eq s) ∙ e)
      ∙ ap some (omega arith)),
  room,
)

AllFit-tail :
    (index : Option ℕ) (j : ℕ) (o : TxOut) (outs : List TxOut)
    → AllFit index j (o ∷ outs)
    → AllFit index (j + 1) outs
AllFit-tail index j o outs fit k x found at = fit (suc k) x found (at ∙ ap some (omega arith))

room_after :
    (s : TxState) (o : TxOut)
    → Fits s o
    → 34 ≤ length s.outputs.vout_scriptpubkey
    → 34 ≤ length (after_output s o).outputs.vout_scriptpubkey
room_after s o fits room = elim (Bool-cases (is_relevant s)) [
  | inl e ↦
      let (small, _) = fits e in
      rw e (
        omega (arith, length-overwrite s.outputs.vout_scriptpubkey 0 o.script_pubkey (omega arith)))
  | inr e ↦ rw e room
]

pub outputs_loop-Consumes :
    (outs : List TxOut) (s : TxState)
    → All IsOutput outs
    → AllFit s.output_index s.out_counter outs
    → 34 ≤ length s.outputs.vout_scriptpubkey
    → s.output_cur_step ≡ 0
    → Consumes (outputs_loop (length outs) s) (concat_map output_bytes outs) (AfterOutputs s outs)
unfolding outputs_loop
outputs_loop-Consumes [] s h fit room start d rest v = (
  s,
  d,
  refl,
  v,
  record { hashed = sym (append-nil s.hashed); is_segwit = refl; n_inputs = refl; outputs = refl },
)
outputs_loop-Consumes (o ∷ outs) s h fit room start d rest v =
    let fits = AllFit-head s o outs fit room in
    let (d1, run, v1) =
      run_output-takes s o d (concat_map output_bytes outs ++ rest) h.0 fits start (
        subst (IsStream d) (append_assoc (output_bytes o) (concat_map output_bytes outs) rest) v) in
    let s1 : TxState = record (after_output s o) {
      out_counter = s.out_counter + 1;
      output_cur_step = 0;
    } in
    let (s2, d2, run', v2, q) =
      outputs_loop-Consumes outs s1 h.1 (AllFit-tail s.output_index s.out_counter o outs fit)
        (room_after s o fits room) refl d1 rest v1 in
    (
      s2,
      d2,
      rw run run',
      v2,
      record {
        hashed = q.hashed ∙ append_assoc s.hashed (output_bytes o) (concat_map output_bytes outs);
        is_segwit = q.is_segwit;
        n_inputs = q.n_inputs;
        outputs =
            q.outputs
            ∙ ap
                (λ (b : Bool).
                  kept s.output_index (s.out_counter + 1) outs
                    (if b then seen s.outputs o else s.outputs))
                (is_relevant-eq s);
      },
    )
