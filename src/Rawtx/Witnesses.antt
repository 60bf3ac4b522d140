-- ===== src/Rawtx/Witnesses.antt =====
-- What the parser of witnesses does: it reads them all, and keeps and hashes nothing.
use acre_ledger_app.Base.{
  ℕ, zero, suc, ◌+◌, ◌-◌, ◌%◌, ◌^◌, ◌<◌, ◌≡◌, refl, ap, ◌∙◌, sym, arith, min,
}
use acre_ledger_app.Base.{some, List, [], ◌∷◌, ◌++◌, length, drop, length-drop, All}
use acre_ledger_app.Base.{Bool, true, false, ltb, if◌then◌else◌, append_assoc}
use mathlib.Core.Path.{subst}
use acre_ledger_app.Buffer.{add_size, sub_size}
use acre_ledger_app.Varint.Format.{varint_bytes}
use acre_ledger_app.Parser.{Buffers, next, ParsingStep}
use acre_ledger_app.Rawtx.State.{TxState, Reply, chunk_len}
use acre_ledger_app.Rawtx.Consume.{IsStream, Consumes, consumes_next}
use acre_ledger_app.Rawtx.Varints.{consumes_varint}
use acre_ledger_app.Rawtx.Hash.{
  Ends, Ends-next, consumes_nil, consumes_chunk, chunk_len-min, Untouched, Untouched-same,
  Untouched-trans,
}
use acre_ledger_app.Rawtx.Format.{concat_map, var_bytes, witness_bytes, IsElement, IsWitness}
use acre_ledger_app.Rawtx.Witness.{
  and_next, element_loop, read_elem_len, stack_loop, read_stack_elements, witnesses_loop,
}

consumes_then :
    (f : Buffers → Reply) (step : ParsingStep TxState) (t : TxState) (bytes more : List ℕ)
    (Q : TxState → Type 0)
    → Ends f bytes t
    → Consumes (step t) more Q
    → Consumes (λ d. and_next (f d) step) (bytes ++ more) Q
unfolding and_next
consumes_then f step t bytes more Q first after d rest v =
    let (s1, d1, run, v1, e) =
      first d (more ++ rest) (subst (IsStream d) (append_assoc bytes more rest) v) in
    let (s2, d2, run', v2, q) = after d1 rest v1 in (s2, d2, rw (run, e) run', v2, q)

element_loop-Ends :
    (fuel : ℕ) (bytes : List ℕ) (s : TxState)
    → length bytes < fuel
    → s.cur_wit_el_bytes_read + length bytes ≡ s.cur_wit_elem_len
    → s.cur_wit_elem_len < 2 ^ 31
    → Ends (element_loop fuel s) bytes (record s { cur_wit_el_bytes_read = s.cur_wit_elem_len })
unfolding element_loop
element_loop-Ends zero bytes s enough sum small = absurd (omega arith)
element_loop-Ends (suc fuel) [] s enough sum small =
    let all_read : ltb s.cur_wit_el_bytes_read s.cur_wit_elem_len ≡ false = ground arith in
    let same : s.cur_wit_el_bytes_read ≡ s.cur_wit_elem_len = omega arith in
    rw (element_loop, all_read)
      (subst (Ends (λ d. some (next, s, d)) [])
        (ap (λ (n : ℕ). record s { cur_wit_el_bytes_read = n }) same) (Ends-next s))
element_loop-Ends (suc fuel) (b ∷ bs) s enough sum small =
    let more : ltb s.cur_wit_el_bytes_read s.cur_wit_elem_len ≡ true = ground arith in
    let bytes : List ℕ = b ∷ bs in
    let left : sub_size s.cur_wit_elem_len s.cur_wit_el_bytes_read ≡ length bytes = omega arith in
    let chunk : chunk_len (length bytes) ≡ min 32 (length bytes) =
      chunk_len-min (length bytes) (omega arith) in
    let counter : add_size s.cur_wit_el_bytes_read
          (chunk_len (sub_size s.cur_wit_elem_len s.cur_wit_el_bytes_read))
        ≡ s.cur_wit_el_bytes_read + min 32 (length bytes) =
      rw (left, chunk) (omega arith) in
    let s' : TxState = record s {
      cur_wit_el_bytes_read = s.cur_wit_el_bytes_read + min 32 (length bytes);
    } in
    let after : Ends (element_loop fuel s') (drop 32 bytes)
        (record s { cur_wit_el_bytes_read = s.cur_wit_elem_len }) =
      element_loop-Ends fuel (drop 32 bytes) s' (ground (arith, length-drop 32 bytes))
        (ground (arith, length-drop 32 bytes)) small in
    rw (element_loop, more, counter, left) (consumes_chunk bytes s _ _ (omega arith) after)

-- What the witnesses leave: all that is kept of a transaction
pub record Passed (s s' : TxState) : Type 0 where
  pub hashed : s'.hashed ≡ s.hashed
  pub untouched : Untouched s s'

Passed-trans : {a b c : TxState} → Passed a b → Passed b c → Passed a c
Passed-trans u v = record {
  hashed = v.hashed ∙ u.hashed;
  untouched = Untouched-trans u.untouched v.untouched;
}

consumes_map :
    (f : Buffers → Reply) (bytes : List ℕ) (P Q : TxState → Type 0)
    → ((s : TxState) → P s → Q s)
    → Consumes f bytes P
    → Consumes f bytes Q
consumes_map f bytes P Q weaken h d rest v =
    let (s, d', run, v', p) = h d rest v in (s, d', run, v', weaken s p)

consumes_else :
    (b : Bool) (f g : Buffers → Reply) (bytes : List ℕ) (Q : TxState → Type 0)
    → b ≡ false
    → Consumes g bytes Q
    → Consumes (λ d. if b then f d else g d) bytes Q
consumes_else true f g bytes Q e h = absurd (ground (arith, e))
consumes_else false f g bytes Q e h = h

read_elem_len-Ends :
    (n : ℕ) (s : TxState)
    → n < 2 ^ 31
    → s.is_cur_wit_elem_len_read ≡ false
    → Ends (read_elem_len s) (varint_bytes n) (record s {
      is_cur_wit_elem_len_read = true;
      cur_wit_elem_len = n;
      cur_wit_el_bytes_read = 0;
    })
unfolding read_elem_len
read_elem_len-Ends n s small unread =
    let e : n % 2 ^ 32 ≡ n = omega arith in
    consumes_else s.is_cur_wit_elem_len_read _ _ (varint_bytes n) _ unread
      (consumes_nil _ (consumes_varint n [] s _ _ (omega arith) (rw e (Ends-next _))))

stack_loop-Consumes :
    (stack : List (List ℕ)) (s : TxState)
    → All IsElement stack
    → s.is_cur_wit_elem_len_read ≡ false
    → Consumes (stack_loop (length stack) s) (concat_map var_bytes stack) (Passed s)
unfolding stack_loop
stack_loop-Consumes [] s h unread =
    consumes_next s (Passed s) (record { hashed = refl; untouched = Untouched-same s s refl })
stack_loop-Consumes (e ∷ stack) s h unread =
    let n : ℕ = length e in
    let s1 : TxState = record s {
      is_cur_wit_elem_len_read = true;
      cur_wit_elem_len = n;
      cur_wit_el_bytes_read = 0;
    } in
    let s2 : TxState = record s1 { cur_wit_el_bytes_read = n } in
    let s3 : TxState = record s2 {
      wit_stack_el_counter = s.wit_stack_el_counter + 1;
      is_cur_wit_elem_len_read = false;
    } in
    let step : Passed s s3 = record {
      hashed = refl;
      untouched = record { is_segwit = refl; n_inputs = refl; output_index = refl; outputs = refl };
    } in
    subst (λ (b : List ℕ). Consumes (stack_loop (suc (length stack)) s) b (Passed s))
      (sym (append_assoc (varint_bytes n) e (concat_map var_bytes stack)))
      (consumes_then (read_elem_len s) _ s1 (varint_bytes n) _ (Passed s)
        (read_elem_len-Ends n s h.0 unread)
        (consumes_then _ _ s2 e (concat_map var_bytes stack) (Passed s)
          (element_loop-Ends (suc (n - 0)) e s1 (omega arith) (omega arith) h.0)
          (consumes_map _ _ (Passed s3) (Passed s) (λ t q. Passed-trans step q)
            (stack_loop-Consumes stack s3 h.1 refl))))

read_stack_elements-Ends :
    (n : ℕ) (s : TxState)
    → n < 2 ^ 32
    → s.is_cur_wit_stack_elements_read ≡ false
    → Ends (read_stack_elements s) (varint_bytes n) (record s {
      is_cur_wit_stack_elements_read = true;
      cur_wit_stack_elements = n;
      is_cur_wit_elem_len_read = false;
      wit_stack_el_counter = 0;
    })
unfolding read_stack_elements
read_stack_elements-Ends n s small unread =
    let e : n % 2 ^ 32 ≡ n = omega arith in
    consumes_else s.is_cur_wit_stack_elements_read _ _ (varint_bytes n) _ unread
      (consumes_nil _ (consumes_varint n [] s _ _ (omega arith) (rw e (Ends-next _))))

consumes_and :
    (f : Buffers → Reply) (step : ParsingStep TxState) (bytes more : List ℕ)
    (P Q : TxState → Type 0)
    → Consumes f bytes P
    → ((t : TxState) → P t → Consumes (step t) more Q)
    → Consumes (λ d. and_next (f d) step) (bytes ++ more) Q
unfolding and_next
consumes_and f step bytes more P Q first after d rest v =
    let (s1, d1, run, v1, p) =
      first d (more ++ rest) (subst (IsStream d) (append_assoc bytes more rest) v) in
    let (s2, d2, run', v2, q) = after s1 p d1 rest v1 in (s2, d2, rw run run', v2, q)

pub witnesses_loop-Consumes :
    (stacks : List (List (List ℕ))) (s : TxState)
    → All IsWitness stacks
    → s.is_cur_wit_stack_elements_read ≡ false
    → Consumes (witnesses_loop (length stacks) s) (concat_map witness_bytes stacks) (Passed s)
unfolding witnesses_loop
witnesses_loop-Consumes [] s h unread =
    consumes_next s (Passed s) (record { hashed = refl; untouched = Untouched-same s s refl })
witnesses_loop-Consumes (stack ∷ stacks) s h unread =
    let n : ℕ = length stack in
    let count : n - 0 ≡ n = omega arith in
    let s1 : TxState = record s {
      is_cur_wit_stack_elements_read = true;
      cur_wit_stack_elements = n;
      is_cur_wit_elem_len_read = false;
      wit_stack_el_counter = 0;
    } in
    subst (λ (b : List ℕ). Consumes (witnesses_loop (suc (length stacks)) s) b (Passed s))
      (sym (
        append_assoc (varint_bytes n) (concat_map var_bytes stack)
          (concat_map witness_bytes stacks)))
      (consumes_then (read_stack_elements s) _ s1 (varint_bytes n) _ (Passed s)
        (read_stack_elements-Ends n s h.0.few unread)
        (consumes_and _ _ (concat_map var_bytes stack) (concat_map witness_bytes stacks) (Passed s1)
          (Passed s) (rw count (stack_loop-Consumes stack s1 h.0.elements refl))
          λ t p.
            let t' : TxState = record t {
              wit_counter = t.wit_counter + 1;
              is_cur_wit_stack_elements_read = false;
            } in
            let step : Passed s t' = record {
              hashed = p.hashed;
              untouched = record {
                is_segwit = p.untouched.is_segwit;
                n_inputs = p.untouched.n_inputs;
                output_index = p.untouched.output_index;
                outputs = p.untouched.outputs;
              };
            } in
            consumes_map _ _ (Passed t') (Passed s) (λ u q. Passed-trans step q)
              (witnesses_loop-Consumes stacks t' h.1 refl)))
