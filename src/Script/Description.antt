-- ===== src/Script/Description.antt =====
-- `format_opscript_script` reads only the script, and writes only its buffer.
use acre_ledger_app.Base.{ℕ, zero, suc, ◌+◌, ◌-◌, ◌*◌, ◌≤◌, ◌<◌, ◌≡◌, refl, ◌∙◌, arith}
use acre_ledger_app.Base.{some, ◌++◌, length, replicate, All}
use acre_ledger_app.Base.{
  Bool, true, false, not, ◌&&◌, ◌||◌, ltb, leb, ◌==◌, if◌then◌else◌, Memory, load, store_bytes,
}
use acre_ledger_app.Base.Blocks.{store_bytes-eq-overwrite, length-overwrite}
use acre_ledger_app.Bytes.{IsByte}
use acre_ledger_app.Script.OpReturn.{
  Attempt, ◌>>=◌, return, lift, require, Out, put, op_return_text, read_length, run_opcode,
  check_minimal, put_push, opcode_round, opcode_loop, max_description, terminate, describe,
  format_opscript_script,
}
use acre_ledger_app.Script.Bounds.{
  Safe, Within, Safe-bind, Safe-then, Safe-require, Safe-weaken, Safe-load, Safe-lift,
  Safe-store_at, Safe-put, Safe-put_number, Safe-put_hex, weaken,
}

Safe-if :
    {A : Type 0} (P : A → Type 0) (b : Bool) (x y : Attempt A)
    → (b ≡ true → Safe P x)
    → (b ≡ false → Safe P y)
    → Safe P (if b then x else y)
Safe-if P true x y f g = f refl
Safe-if P false x y f g = g refl

-- What an opcode leaves: an opcode that pushes bytes writes nothing by itself, and another one two
-- characters at most.
record Ran (offset n : ℕ) (r : ℕ × ℕ × Out) : Type 0 where
  forward : offset ≤ r.0
  other : r.1 ≡ 0 → Within (n + 2) r.2
  push : 0 < r.1 → Within n r.2

-- Where the pushed bytes stand, and how many they are
abbrev Pushes : ℕ → ℕ × ℕ → Type 0
Pushes offset r = (offset ≤ r.0) × (75 < r.1)

Safe-read_length :
    (script : Memory) (script_len offset : ℕ)
    → All IsByte script
    → script_len ≤ length script
    → Safe (Pushes offset) (read_length script script_len offset)
unfolding read_length
Safe-read_length script script_len offset bytes inside =
    Safe-then (Pushes offset) (ltb offset script_len) _ λ e.
      Safe-bind IsByte (Pushes offset) (lift (load script offset)) _
        (Safe-load script offset bytes (ground (arith, e)))
        λ b byte.
          Safe-then (Pushes offset) (ltb 75 b) (return (offset + 1, b))
            λ f. (omega arith, ground (arith, f))

Safe-run_opcode :
    (script : Memory) (script_len opcode offset n : ℕ) (out : Out)
    → All IsByte script
    → script_len ≤ length script
    → Within n out
    → n < 183
    → Safe (Ran offset n) (run_opcode script script_len opcode offset out)
unfolding run_opcode
Safe-run_opcode script script_len opcode offset n out bytes inside h room =
    let quiet : (o : Out) → Within (n + 2) o → Ran offset n (offset, 0, o) =
      λ o w. record { forward = omega arith; other = λ e. w; push = λ e. absurd (omega arith) } in
    Safe-if (Ran offset n) (ltb 0x60 opcode || opcode == 0x50 || opcode == 0x4d || opcode == 0x4e) _
      _ (λ e. tt)
      λ _.
        Safe-if (Ran offset n) (opcode == 0) _ _
          (λ e.
            Safe-bind (Within (n + 1)) (Ran offset n) _ _ (Safe-put 48 n out h (omega arith))
              λ o w. quiet o (weaken (n + 1) (n + 2) o (omega arith) w))
          λ _.
            Safe-if (Ran offset n) (leb 1 opcode && leb opcode 75) _ _
              (λ e. record {
                forward = omega arith;
                other = λ z. absurd (ground (arith, e, z));
                push = λ z. h;
              })
              λ _.
                Safe-if (Ran offset n) (opcode == 0x4c) _ _
                  (λ e.
                    Safe-bind (Pushes offset) (Ran offset n) _ _
                      (Safe-read_length script script_len offset bytes inside)
                      λ r p. record {
                        forward = p.0;
                        other = λ z. absurd (omega (arith, p.1));
                        push = λ z. h;
                      })
                  λ _.
                    Safe-if (Ran offset n) (opcode == 0x4f) _ _
                      (λ e.
                        Safe-bind (Within (n + 1)) (Ran offset n) _ _
                          (Safe-put 45 n out h (omega arith))
                          λ o1 w1.
                            Safe-bind (Within (n + 1 + 1)) (Ran offset n) _ _
                              (Safe-put 49 (n + 1) o1 w1 (omega arith))
                              λ o2 w2. quiet o2 (weaken (n + 1 + 1) (n + 2) o2 (omega arith) w2))
                      λ _.
                        Safe-if (Ran offset n) (leb 0x51 opcode && leb opcode 0x60) _ _
                          (λ e.
                            Safe-bind (Within (n + 2)) (Ran offset n) _ _
                              (Safe-put_number (opcode - 0x50) n out h (omega arith)) quiet)
                          λ _. tt

Safe-check_minimal :
    (script : Memory) (offset k : ℕ)
    → All IsByte script
    → offset + k ≤ length script
    → Safe (λ _. Unit {0}) (check_minimal script offset k)
unfolding check_minimal
Safe-check_minimal script offset k bytes inside =
    Safe-if (λ _. Unit {0}) (k == 1) _ _
      (λ e.
        Safe-bind IsByte (λ _. Unit {0}) _ _ (Safe-load script offset bytes (ground (arith, e)))
          λ b byte.
            Safe-weaken (require (not (b == 0x81 || (leb 1 b && leb b 16)))) _ (λ _. Unit {0})
              (λ _ _. tt) (Safe-require (not (b == 0x81 || (leb 1 b && leb b 16)))))
      λ e. tt

-- The pushed bytes, after what the opcode has written
Safe-put_push :
    (script : Memory) (offset n : ℕ) (r : ℕ × ℕ × Out)
    → All IsByte script
    → Ran offset n r
    → r.0 + r.1 ≤ length script
    → n + 2 + 2 * r.1 < 185
    → Safe (Within (n + 2 + 2 * r.1)) (put_push script r.0 r.1 r.2)
unfolding put_push
Safe-put_push script offset n r bytes ran inside room =
    Safe-if (Within (n + 2 + 2 * r.1)) (ltb 0 r.1) _ _
      (λ e.
        Safe-bind (Within (n + 1)) (Within (n + 2 + 2 * r.1)) _ _
          (Safe-put 48 n r.2 (ran.push (ground (arith, e))) (omega arith))
          λ o1 w1.
            Safe-bind (Within (n + 1 + 1)) (Within (n + 2 + 2 * r.1)) _ _
              (Safe-put 120 (n + 1) o1 w1 (omega arith))
              λ o2 w2.
                Safe-put_hex script r.0 r.1 (n + 2) o2 bytes inside
                  (weaken (n + 1 + 1) (n + 2) o2 (omega arith) w2) room)
      λ e. weaken (n + 2) (n + 2 + 2 * r.1) r.2 (omega arith) (ran.other (ground (arith, e)))

-- After a number of opcodes: what is written is bounded by what is read.
record Written (script_len opcodes : ℕ) (r : ℕ × Out) : Type 0 where
  started : 1 ≤ r.0
  inside : r.0 ≤ script_len
  bounded : Within (8 + 2 * r.0 + opcodes) r.1

Safe-opcode_round :
    (script : Memory) (script_len opcodes offset : ℕ) (out : Out)
    → All IsByte script
    → script_len ≤ length script
    → script_len ≤ 83
    → opcodes < 5
    → offset < script_len
    → Written script_len opcodes (offset, out)
    → Safe (Written script_len (opcodes + 1)) (opcode_round script script_len offset out)
unfolding opcode_round
Safe-opcode_round script script_len opcodes offset out bytes inside short few here w =
    let n : ℕ = 8 + 2 * offset + opcodes in
    let P : ℕ × Out → Type 0 = Written script_len (opcodes + 1) in
    Safe-bind IsByte P _ _ (Safe-load script offset bytes (omega arith)) λ opcode _.
      Safe-bind (Ran (offset + 1) n) P _ _
        (Safe-run_opcode script script_len opcode (offset + 1) n out bytes inside w.bounded
          (omega arith))
        λ r ran. Safe-then P (leb (r.0 + r.1) script_len) _ λ e.
          let fits : r.0 + r.1 ≤ script_len = ground (arith, e) in
          let done : Out → Attempt (ℕ × Out) = λ o. return (r.0 + r.1, o) in
          let space : Out → Attempt (ℕ × Out) = λ o. put 32 o >>= done in
          Safe-bind (λ _. Unit {0}) P (check_minimal script r.0 r.1)
            (λ _. put_push script r.0 r.1 r.2 >>= space)
            (Safe-check_minimal script r.0 r.1 bytes (omega arith))
            λ _ _.
              Safe-bind (Within (n + 2 + 2 * r.1)) P (put_push script r.0 r.1 r.2) space
                (Safe-put_push script (offset + 1) n r bytes ran (omega arith)
                  (omega (arith, ran.forward)))
                λ o1 w1.
                  Safe-bind (Within (n + 2 + 2 * r.1 + 1)) P (put 32 o1) done
                    (Safe-put 32 (n + 2 + 2 * r.1) o1 w1 (omega (arith, ran.forward)))
                    λ o2 w2. record {
                      started = omega (arith, ran.forward);
                      inside = fits;
                      bounded =
                          weaken (n + 2 + 2 * r.1 + 1) (8 + 2 * (r.0 + r.1) + (opcodes + 1)) o2
                            (omega (arith, ran.forward)) w2;
                    }

Safe-opcode_loop :
    (pushes opcodes : ℕ) (script : Memory) (script_len offset : ℕ) (out : Out)
    → All IsByte script
    → script_len ≤ length script
    → script_len ≤ 83
    → opcodes + pushes ≡ 5
    → Written script_len opcodes (offset, out)
    → Safe (Written script_len 5) (opcode_loop pushes script script_len offset out)
unfolding opcode_loop
Safe-opcode_loop zero opcodes script script_len offset out bytes inside short count w = record {
  started = w.started;
  inside = w.inside;
  bounded = weaken (8 + 2 * offset + opcodes) (8 + 2 * offset + 5) out (omega arith) w.bounded;
}
Safe-opcode_loop (suc pushes) opcodes script script_len offset out bytes inside short count w =
    Safe-if (Written script_len 5) (ltb offset script_len) _ _
      (λ e.
        Safe-bind (Written script_len (opcodes + 1)) (Written script_len 5) _ _
          (Safe-opcode_round script script_len opcodes offset out bytes inside short (omega arith)
            (ground (arith, e)) w)
          λ r w'.
            Safe-opcode_loop pushes (opcodes + 1) script script_len r.0 r.1 bytes inside short
              (omega arith) w')
      λ e. record {
        started = w.started;
        inside = w.inside;
        bounded =
            weaken (8 + 2 * offset + opcodes) (8 + 2 * offset + 5) out (omega arith) w.bounded;
      }

-- The description: its length with the terminating zero, and the buffer
pub record IsDescription (r : ℕ × Memory) : Type 0 where
  pub positive : 10 ≤ r.0
  pub short : r.0 ≤ 180
  pub size : length r.1 ≡ 185
  pub terminated : load r.1 (r.0 - 1) ≡ some 0

Safe-terminate : (out : Out) → Within 180 out → Safe IsDescription (terminate out)
unfolding terminate
Safe-terminate out w =
    Safe-bind (λ (m : Memory). (length m ≡ length out.memory) × (load m (out.out_ctr - 1) ≡ some 0))
      IsDescription _ _
      (Safe-store_at out.memory (out.out_ctr - 1) 0 (omega (arith, w.size, w.below)))
      λ m p. record {
        positive = w.positive;
        short = w.below;
        size = p.0 ∙ w.size;
        terminated = p.1;
      }

Safe-start :
    (out : Memory)
    → length out ≡ 185
    → Safe
        (λ (m : Memory). length m ≡ 185)
        (lift (store_bytes out 0 (op_return_text ++ replicate (max_description - 10) 0)))
Safe-start out size =
    let fits : 0 + length (op_return_text ++ replicate (max_description - 10) 0) ≤ length out =
      omega (arith, size) in
    Safe-lift (λ (m : Memory). length m ≡ 185) _ _
      (store_bytes-eq-overwrite out 0 (op_return_text ++ replicate (max_description - 10) 0) fits)
      (length-overwrite out 0 (op_return_text ++ replicate (max_description - 10) 0) fits ∙ size)

Safe-describe :
    (script : Memory) (script_len : ℕ) (out : Memory)
    → All IsByte script
    → 1 ≤ script_len
    → script_len ≤ length script
    → script_len ≤ 83
    → length out ≡ 185
    → Safe IsDescription (describe script script_len out)
unfolding describe
Safe-describe script script_len out bytes some_byte inside short size =
    Safe-bind (λ (m : Memory). length m ≡ 185) IsDescription _ _ (Safe-start out size)
      λ m len.
        let start : Out = record { memory = m; out_ctr = 10 } in
        let begin : Within 10 start = record {
          size = len;
          positive = omega arith;
          below = omega arith;
        } in
        Safe-if IsDescription (script_len == 1) _ _
          (λ e. Safe-terminate start (weaken 10 180 start (omega arith) begin))
          λ e.
            Safe-bind (Written script_len 5) IsDescription (opcode_loop 5 script script_len 1 start)
              _
              (Safe-opcode_loop 5 0 script script_len 1 start bytes inside short refl
                (record { started = omega arith; inside = some_byte; bounded = begin }))
              λ r w. Safe-then IsDescription (leb script_len r.0) (terminate r.1) λ _.
                Safe-terminate r.1
                  (weaken (8 + 2 * r.0 + 5) 180 r.1 (omega (arith, w.inside)) w.bounded)

-- On any script of `script_len` bytes and a buffer of 185 bytes, `format_opscript_script` reads only
-- the script and writes only the buffer. Where it succeeds, the length that it returns is at least 10
-- and at most 180, and the last byte of that length is 0.
pub format_opscript_script_in_bounds :
    (script : Memory) (script_len : ℕ) (out : Memory)
    → All IsByte script
    → script_len ≤ length script
    → length out ≡ 185
    → Safe IsDescription (format_opscript_script script script_len out)
unfolding format_opscript_script
format_opscript_script_in_bounds script script_len out bytes inside size =
    Safe-if IsDescription (script_len == 0) _ _ (λ e. tt)
      λ e. Safe-bind IsByte IsDescription _ _ (Safe-load script 0 bytes (ground (arith, e))) λ b _.
        Safe-then IsDescription (b == 0x6a) _ λ _.
          Safe-then IsDescription (leb script_len 83) _ λ f.
            Safe-describe script script_len out bytes (ground (arith, e)) inside (ground (arith, f))
              size
