-- ===== src/Bip32/Short.antt =====
-- `bip32_path_read` on an input that is too short.
use acre_ledger_app.Base.{
  ℕ, zero, suc, ◌+◌, ◌*◌, ◌≤◌, ◌<◌, ◌≡◌, refl, arith, none, [], ◌∷◌, length, Memory, load,
}
use acre_ledger_app.Base.{ltb, false, Option-cases, inl, inr, dec_lt}
use acre_ledger_app.Bytes.{read_u32_be}
use acre_ledger_app.Bip32.{path_steps, bip32_path_read}

load-beyond : (m : Memory) (i : ℕ) → length m ≤ i → load m i ≡ none
load-beyond [] i h = refl
load-beyond (x ∷ m) zero h = absurd (omega arith)
load-beyond (x ∷ m) (suc i) h = load-beyond m i (omega arith)

read_u32_be-fault : (m : Memory) (offset : ℕ) → length m < offset + 4 → read_u32_be m offset ≡ none
unfolding read_u32_be
read_u32_be-fault m offset h = elim (Option-cases (load m (offset + 0))) [
  | inl e ↦ rw e refl
  | inr (a, e) ↦ elim (Option-cases (load m (offset + 1))) [
    | inl f ↦ rw (e, f) refl
    | inr (b, f) ↦ elim (Option-cases (load m (offset + 2))) [
      | inl g ↦ rw (e, f, g) refl
      | inr (c, g) ↦ rw (e, f, g, load-beyond m (offset + 3) (omega arith)) refl
    ]
  ]
]

path_steps-fault :
    (n : ℕ) (m : Memory) (offset : ℕ)
    → offset ≤ length m
    → length m < offset + 4 * n
    → path_steps n m (length m) offset ≡ none
unfolding path_steps
path_steps-fault zero m offset h k = absurd (omega arith)
path_steps-fault (suc n) m offset h k =
    let inside : ltb (length m) offset ≡ false = ground arith in
    elim (dec_lt (length m) (offset + 4)) [
      | yes short ↦ rw (inside, read_u32_be-fault m offset short) refl
      | no long ↦ elim (Option-cases (read_u32_be m offset)) [
        | inl e ↦ rw (inside, e) refl
        | inr (v, e) ↦
            rw (inside, e, path_steps-fault n m (offset + 4) (omega arith) (omega arith)) refl
      ]
    ]

-- Where the input has fewer than four bytes for each of the steps asked for, up to 8 steps,
-- `bip32_path_read` never returns false: it reads outside the input.
pub bip32_path_read-fault :
    (input : Memory) (out_len : ℕ)
    → out_len ≤ 8
    → length input < 4 * out_len
    → bip32_path_read input (length input) out_len ≡ none
unfolding bip32_path_read
bip32_path_read-fault input out_len few short =
    let allowed : ltb 8 out_len ≡ false = ground arith in
    rw allowed (path_steps-fault out_len input 0 (omega arith) (omega arith))
