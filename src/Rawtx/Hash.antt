-- ===== src/Rawtx/Hash.antt =====
-- The hashed varints, and the chunks in which scripts are read.
use acre_ledger_app.Base.{ℕ, ◌+◌, ◌^◌, ◌≤◌, ◌<◌, ◌≡◌, refl, ap, ◌∙◌, sym, arith, min}
use acre_ledger_app.Base.{
  some, ◌>>=◌, List, [], ◌∷◌, ◌++◌, length, take, drop, take-append, take-append-drop, length-take,
}
use acre_ledger_app.Base.{false, ltb, append-nil, replicate}
use mathlib.Core.Path.{subst}
use acre_ledger_app.Varint.{varint_size}
use acre_ledger_app.Varint.Format.{varint_bytes, length-varint_bytes, varint_write-eq-overwrite}
use acre_ledger_app.Parser.{Buffers, next, ParsingStep, parser_run, run_steps}
use acre_ledger_app.Rawtx.State.{
  TxState, Reply, encode_varint, hash_update, hash_update_varint, hash_bytes,
}
use acre_ledger_app.Rawtx.State.{with_varint, chunk_len, with_chunk}
use acre_ledger_app.Rawtx.Consume.{
  Consumes, consumes_next, consumes_bytes, RunsTo, runs_nil, runs_cons,
}
use acre_ledger_app.Rawtx.Varints.{consumes_varint}

varint_size-small : (v : ℕ) → varint_size v ≤ 9
unfolding varint_size
varint_size-small v = ground arith

pub encode_varint-eq : (v : ℕ) → encode_varint v ≡ some (varint_bytes v)
unfolding encode_varint
encode_varint-eq v =
    let fits : 0 + varint_size v ≤ length {A = ℕ} (replicate 9 0) =
      omega (arith, varint_size-small v) in
    rw (varint_write-eq-overwrite (replicate 9 0) 0 v fits, sym (length-varint_bytes v))
      (ap some (take-append (varint_bytes v) _))

pub hash_update_varint-eq :
    (v : ℕ) (s : TxState) → hash_update_varint v s ≡ some (hash_update (varint_bytes v) s)
unfolding hash_update_varint
hash_update_varint-eq v s = rw (encode_varint-eq v) refl

-- Ending in a known state
abbrev pub Ends : (Buffers → Reply) → List ℕ → TxState → Type 0
Ends f bytes t = Consumes f bytes (λ s. s ≡ t)

pub Ends-next : (s : TxState) → Ends (λ d. some (next, s, d)) [] s
Ends-next s = consumes_next s (λ s'. s' ≡ s) refl

pub consumes_nil :
    {f : Buffers → Reply} (bytes : List ℕ) {Q : TxState → Type 0}
    → Consumes f (bytes ++ []) Q
    → Consumes f bytes Q
consumes_nil {f = f} bytes {Q = Q} h = subst (λ (b : List ℕ). Consumes f b Q) (append-nil bytes) h

pub hash_bytes-Ends :
    (n : ℕ) (bytes : List ℕ) (s : TxState)
    → length bytes ≡ n
    → Ends (hash_bytes n s) bytes (hash_update bytes s)
unfolding hash_bytes
hash_bytes-Ends n bytes s len = consumes_nil _ (
    consumes_bytes n bytes [] s (λ bytes rest. some (next, hash_update bytes s, rest)) _ len
      (Ends-next (hash_update bytes s)))

-- A varint that is read, put into the state, and hashed
pub varint_step-Ends :
    (v : ℕ) (s : TxState) (t : ℕ → TxState)
    → v < 2 ^ 64
    → Ends
        (λ d. with_varint s d λ n rest. hash_update_varint n (t n) >>= λ s'. some (next, s', rest))
        (varint_bytes v)
        (hash_update (varint_bytes v) (t v))
varint_step-Ends v s t h = consumes_nil _ (
    consumes_varint v [] s (λ n rest. hash_update_varint n (t n) >>= λ s'. some (next, s', rest)) _
      h (rw (hash_update_varint-eq v (t v)) (Ends-next _)))

pub runs_step :
    (f : ParsingStep TxState) (fs : List (ParsingStep TxState)) (k : ℕ) (s t : TxState)
    (bytes more : List ℕ)
    → (Q : TxState → Type 0) → Ends (f s) bytes t
    → RunsTo fs (record { cur_step = k + 1; state = t }) more Q
    → RunsTo (f ∷ fs) (record { cur_step = k; state = s }) (bytes ++ more) Q
runs_step f fs k s t bytes more Q first after =
    runs_cons f fs k s bytes more (λ s'. s' ≡ t) Q first
      λ s' e.
        subst (λ (x : TxState). RunsTo fs (record { cur_step = k + 1; state = x }) more Q) (sym e)
          after

pub runs_last :
    (f : ParsingStep TxState) (k : ℕ) (s t : TxState) (bytes : List ℕ) (Q : TxState → Type 0)
    → Ends (f s) bytes t
    → Q t
    → RunsTo (f ∷ []) (record { cur_step = k; state = s }) bytes Q
runs_last f k s t bytes Q first q =
    subst (λ (b : List ℕ). RunsTo (f ∷ []) (record { cur_step = k; state = s }) b Q)
      (append-nil bytes) (runs_step f [] k s t bytes [] Q first (runs_nil (k + 1) t Q q))

pub chunk_len-min : (n : ℕ) → n < 2 ^ 31 → chunk_len n ≡ min 32 n
unfolding chunk_len
chunk_len-min n h = ground arith

pub consumes_chunk :
    (bytes : List ℕ) (s : TxState) (f : List ℕ → Buffers → Reply) (Q : TxState → Type 0)
    → length bytes < 2 ^ 31
    → Consumes (f (take 32 bytes)) (drop 32 bytes) Q
    → Consumes (λ d. with_chunk (length bytes) s d f) bytes Q
unfolding with_chunk
consumes_chunk bytes s f Q small after =
    let chunk : length (take 32 bytes) ≡ chunk_len (length bytes) =
      length-take 32 bytes ∙ sym (chunk_len-min (length bytes) small) in
    let fits : ltb 32 (chunk_len (length bytes)) ≡ false =
      rw (chunk_len-min (length bytes) small) (ground arith) in
    subst (λ (b : List ℕ). Consumes (λ d. with_chunk (length bytes) s d f) b Q)
      (take-append-drop 32 bytes)
      (consumes_bytes (chunk_len (length bytes)) (take 32 bytes) (drop 32 bytes) s _ Q chunk
        (rw fits after))

-- What the parsers of inputs and of witnesses leave as it was
pub record Untouched (s s' : TxState) : Type 0 where
  pub is_segwit : s'.is_segwit ≡ s.is_segwit
  pub n_inputs : s'.n_inputs ≡ s.n_inputs
  pub output_index : s'.output_index ≡ s.output_index
  pub outputs : s'.outputs ≡ s.outputs

pub Untouched-same : (s s' : TxState) → s' ≡ s → Untouched s s'
Untouched-same s s' e = record {
  is_segwit = ap (λ (t : TxState). t.is_segwit) e;
  n_inputs = ap (λ (t : TxState). t.n_inputs) e;
  output_index = ap (λ (t : TxState). t.output_index) e;
  outputs = ap (λ (t : TxState). t.outputs) e;
}

pub Untouched-trans : {a b c : TxState} → Untouched a b → Untouched b c → Untouched a c
Untouched-trans u v = record {
  is_segwit = v.is_segwit ∙ u.is_segwit;
  n_inputs = v.n_inputs ∙ u.n_inputs;
  output_index = v.output_index ∙ u.output_index;
  outputs = v.outputs ∙ u.outputs;
}

pub parser_run-start :
    (steps : List (ParsingStep TxState)) (k : ℕ) (s : TxState) (d : Buffers)
    → k ≡ 0
    → parser_run steps (record { cur_step = k; state = s }) d
      ≡ run_steps steps (record { cur_step = 0; state = s }) d
unfolding parser_run
parser_run-start steps k s d e =
    ap (λ (n : ℕ). run_steps (drop n steps) (record { cur_step = n; state = s }) d) e
