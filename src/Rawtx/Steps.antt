-- ===== src/Rawtx/Steps.antt =====
-- What each of the last steps of the parser does on the part of a transaction that it is for.
use acre_ledger_app.Base.{ℕ, ◌-◌, ◌%◌, ◌^◌, ◌≤◌, ◌<◌, ◌≡◌, refl, ap, ◌∙◌, sym, arith}
use acre_ledger_app.Base.{Option, none, some, List, [], ◌∷◌, ◌++◌, length, leb}
use acre_ledger_app.Base.{Bool, true, false, not, ◌==◌, if◌then◌else◌, Bool-cases, inl, inr}
use mathlib.Core.Path.{subst}
use acre_ledger_app.Bytes.Values.{le_bytes}
use acre_ledger_app.Varint.Format.{varint_bytes}
use acre_ledger_app.Parser.{Buffers, next, ParsingStep, run_steps, dbuffer_read_u8}
use acre_ledger_app.Rawtx.State.{TxState}
use acre_ledger_app.Rawtx.Consume.{IsStream, read_bytes-next, Consumes, RunsTo}
use acre_ledger_app.Rawtx.Varints.{can_read-enough, peek_first-next}
use acre_ledger_app.Rawtx.Hash.{Ends, varint_step-Ends, runs_step, Untouched-same}
use acre_ledger_app.Rawtx.Format.{
  Tx, marker_bytes, witnesses_bytes, AreWitnesses, IsTx, concat_map, input_bytes, output_bytes,
}
use acre_ledger_app.Rawtx.Inputs.{AfterInputs, inputs_loop-Consumes}
use acre_ledger_app.Rawtx.OutputList.{AfterOutputs, AllFit, outputs_loop-Consumes}
use acre_ledger_app.Rawtx.Witnesses.{Passed, witnesses_loop-Consumes}
use acre_ledger_app.Rawtx.Input.{inputs_loop, parse_rawtx_inputs}
use acre_ledger_app.Rawtx.Output.{outputs_loop, parse_rawtx_outputs}
use acre_ledger_app.Rawtx.Witness.{witnesses_loop, parse_rawtx_witnesses}
use acre_ledger_app.Rawtx.Whole.{
  read_flag, parse_rawtx_check_segwit, parse_rawtx_input_count, parse_rawtx_output_count,
}

dbuffer_read_u8-next :
    (d : Buffers) (x : ℕ) (rest : List ℕ)
    → IsStream d (x ∷ rest)
    → (d' : Buffers) × (dbuffer_read_u8 d ≡ some (true, x, d')) × IsStream d' rest
unfolding dbuffer_read_u8
dbuffer_read_u8-next d x rest v =
    let (d', run, v') = read_bytes-next d (x ∷ []) rest v in (d', rw run refl, v')

check_segwit-some :
    (s : TxState)
    → Ends (parse_rawtx_check_segwit s) (0x00 ∷ 0x01 ∷ []) (record s { is_segwit = true })
unfolding parse_rawtx_check_segwit read_flag
check_segwit-some s d rest v =
    let one = can_read-enough d _ v 1 (omega arith) in
    let two = can_read-enough d _ v 2 (omega arith) in
    let (d1, run1, v1) = dbuffer_read_u8-next d 0x00 (0x01 ∷ rest) v in
    let (d2, run2, v2) = dbuffer_read_u8-next d1 0x01 rest v1 in
    (_, d2, rw (one, peek_first-next d 0x00 _ v, two, run1, run2) refl, v2, refl)

check_segwit-none :
    (s : TxState) (d : Buffers) (x : ℕ) (rest : List ℕ)
    → 0 < x
    → IsStream d (x ∷ rest)
    → parse_rawtx_check_segwit s d ≡ some (next, record s { is_segwit = false }, d)
unfolding parse_rawtx_check_segwit
check_segwit-none s d x rest h v =
    let one = can_read-enough d _ v 1 (omega arith) in
    let positive : (x == 0) ≡ false = ground arith in
    rw (one, peek_first-next d x rest v, positive) refl

varint_bytes-head : (n : ℕ) → 0 < n → (x : ℕ) × (xs : List ℕ) × (varint_bytes n ≡ x ∷ xs) × (0 < x)
unfolding varint_bytes
varint_bytes-head n h = elim (Bool-cases (leb n 0xfc)) [
  | inl a ↦ (n, [], rw a refl, h)
  | inr a ↦ elim (Bool-cases (leb n 0xffff)) [
    | inl b ↦ (0xfd, le_bytes 2 n, rw (a, b) refl, omega arith)
    | inr b ↦ elim (Bool-cases (leb n 0xffff_ffff)) [
      | inl c ↦ (0xfe, le_bytes 4 n, rw (a, b, c) refl, omega arith)
      | inr c ↦ (0xff, le_bytes 8 n, rw (a, b, c) refl, omega arith)
    ]
  ]
]

abbrev pub has_witnesses : Option (List (List (List ℕ))) → Bool
has_witnesses none = false
has_witnesses (some stacks) = true

-- The marker, if any, before the number of inputs
pub check_segwit-RunsTo :
    (w : Option (List (List (List ℕ)))) (n : ℕ) (fs : List (ParsingStep TxState)) (s : TxState)
    (more : List ℕ)
    → (Q : TxState → Type 0) → 0 < n
    → RunsTo fs
        (record { cur_step = 2; state = record s { is_segwit = has_witnesses w } })
        (varint_bytes n ++ more)
        Q
    → RunsTo
        (parse_rawtx_check_segwit ∷ fs)
        (record { cur_step = 1; state = s })
        (marker_bytes w ++ (varint_bytes n ++ more))
        Q
unfolding run_steps
check_segwit-RunsTo none n fs s more Q h after d rest v =
    let (x, xs, e, positive) = varint_bytes-head n h in
    let v' : IsStream d (x ∷ (xs ++ more ++ rest)) =
      subst (λ (b : List ℕ). IsStream d (b ++ more ++ rest)) e v in
    let (s', d', run, v2, q) = after d rest v in
    (
      s',
      d',
      rw (check_segwit-none s d x _ positive v') (
          run ∙ ap (λ (k : ℕ). some (next, record { cur_step = k; state = s' }, d')) (omega arith)),
      v2,
      q,
    )
check_segwit-RunsTo (some stacks) n fs s more Q h after d rest v =
    runs_step parse_rawtx_check_segwit fs 1 s _ (0x00 ∷ 0x01 ∷ []) _ Q (check_segwit-some s) after d
      rest v

pub input_count-Ends :
    (n : ℕ) (s : TxState)
    → n < 2 ^ 32
    → Ends
        (parse_rawtx_input_count s)
        (varint_bytes n)
        (record s { hashed = s.hashed ++ varint_bytes n; n_inputs = n })
unfolding parse_rawtx_input_count
input_count-Ends n s h =
    let e : n % 2 ^ 32 ≡ n = omega arith in
    subst
      (λ (k : ℕ).
        Ends (parse_rawtx_input_count s) (varint_bytes n)
          (record s { hashed = s.hashed ++ varint_bytes n; n_inputs = k }))
      e (varint_step-Ends n s (λ k. record s { n_inputs = k % 2 ^ 32 }) (omega arith))

pub output_count-Ends :
    (n : ℕ) (s : TxState)
    → n < 2 ^ 32
    → Ends
        (parse_rawtx_output_count s)
        (varint_bytes n)
        (record s { hashed = s.hashed ++ varint_bytes n; n_outputs = n })
unfolding parse_rawtx_output_count
output_count-Ends n s h =
    let e : n % 2 ^ 32 ≡ n = omega arith in
    subst
      (λ (k : ℕ).
        Ends (parse_rawtx_output_count s) (varint_bytes n)
          (record s { hashed = s.hashed ++ varint_bytes n; n_outputs = k }))
      e (varint_step-Ends n s (λ k. record s { n_outputs = k % 2 ^ 32 }) (omega arith))

pub parse_rawtx_inputs-Consumes :
    (tx : Tx) (s : TxState)
    → IsTx tx
    → s.n_inputs ≡ length tx.inputs
    → s.in_counter ≡ 0
    → s.input_cur_step ≡ 0
    → Consumes (parse_rawtx_inputs s) (concat_map input_bytes tx.inputs) (AfterInputs s tx.inputs)
unfolding parse_rawtx_inputs
parse_rawtx_inputs-Consumes tx s h n counter start =
    let rounds : s.n_inputs - s.in_counter ≡ length tx.inputs = omega arith in
    subst
      (λ (k : ℕ).
        Consumes (λ d. inputs_loop k s d) (concat_map input_bytes tx.inputs)
          (AfterInputs s tx.inputs))
      (sym rounds) (inputs_loop-Consumes tx.inputs s h.inputs_ok start)

pub parse_rawtx_outputs-Consumes :
    (tx : Tx) (s : TxState)
    → IsTx tx
    → AllFit s.output_index s.out_counter tx.outputs
    → 34 ≤ length s.outputs.vout_scriptpubkey
    → s.n_outputs ≡ length tx.outputs
    → s.out_counter ≡ 0
    → s.output_cur_step ≡ 0
    → Consumes
        (parse_rawtx_outputs s)
        (concat_map output_bytes tx.outputs)
        (AfterOutputs s tx.outputs)
unfolding parse_rawtx_outputs
parse_rawtx_outputs-Consumes tx s h fit room n counter start =
    let rounds : s.n_outputs - s.out_counter ≡ length tx.outputs = omega arith in
    subst
      (λ (k : ℕ).
        Consumes (λ d. outputs_loop k s d) (concat_map output_bytes tx.outputs)
          (AfterOutputs s tx.outputs))
      (sym rounds) (outputs_loop-Consumes tx.outputs s h.outputs_ok fit room start)

pub parse_rawtx_witnesses-Consumes :
    (n : ℕ) (w : Option (List (List (List ℕ)))) (s : TxState)
    → AreWitnesses n w
    → s.is_segwit ≡ has_witnesses w
    → s.n_inputs ≡ n
    → s.wit_counter ≡ 0
    → s.is_cur_wit_stack_elements_read ≡ false
    → Consumes (parse_rawtx_witnesses s) (witnesses_bytes w) (Passed s)
unfolding parse_rawtx_witnesses
parse_rawtx_witnesses-Consumes n none s h segwit count counter unread d rest v = (
  s,
  d,
  rw (parse_rawtx_witnesses, segwit) refl,
  v,
  record { hashed = refl; untouched = Untouched-same s s refl },
)
parse_rawtx_witnesses-Consumes n (some stacks) s h segwit count counter unread d rest v =
    let rounds : s.n_inputs - s.wit_counter ≡ length stacks = omega (arith, h.0) in
    let (s', d', run, v', p) = witnesses_loop-Consumes stacks s h.1 unread d rest v in
    (
      s',
      d',
      ap
            (λ (b : Bool).
              if not b then some (next, s, d) else witnesses_loop (s.n_inputs - s.wit_counter) s d)
            segwit
          ∙ (ap (λ (k : ℕ). witnesses_loop k s d) rounds ∙ run),
      v',
      p,
    )
