-- ===== src/Bytes/Words.antt =====
-- What each function of read.c and write.c does, on memory that holds the bytes.
use acre_ledger_app.Base.{ℕ, zero, suc, ◌+◌, ◌/◌, ◌%◌, ◌^◌, ◌<◌, bit_or, ◌≡◌, refl, ◌∙◌}
use acre_ledger_app.Base.{[], ◌∷◌, arith, drop}
use acre_ledger_app.Base.{Memory, load}
use acre_ledger_app.Base.Bits.{shl, bit_or-shl, bit_or_comm}
use acre_ledger_app.Bytes.{IsByte}
use acre_ledger_app.Bytes.Values.{le_value, be_value}
use native.Mathlib.Nat.{div-add-mod, zero-add, suc-add}

-- `|` of words with no bit in common, the lower one on the right, or on the left
or_below : (k x y : ℕ) → x % 2 ^ k ≡ 0 → y < 2 ^ k → bit_or x y ≡ x + y
or_below k x y hx hy =
    let e : shl (x / 2 ^ k) k ≡ x = omega (arith, div-add-mod x (2 ^ k)) in
    rw e at (bit_or-shl k (x / 2 ^ k) y hy)

or_above : (k x y : ℕ) → x < 2 ^ k → y % 2 ^ k ≡ 0 → bit_or x y ≡ x + y
or_above k x y hx hy = bit_or_comm x y ∙ omega (arith, or_below k y x hy hx)

pub load-at : (m : Memory) (off i : ℕ) → load m (off + i) ≡ load (drop off m) i
load-at [] zero i = refl
load-at [] (suc off) i = refl
load-at (x ∷ m) zero i = rw zero-add
load-at (x ∷ m) (suc off) i = rw suc-add (load-at m off i)

pub or_u16_be : (a b : ℕ) → IsByte a → IsByte b → bit_or (shl a 8) (shl b 0) ≡ be_value (a ∷ b ∷ [])
unfolding be_value le_value
or_u16_be a b ha hb = rw (or_below 8 (shl a 8) (shl b 0) (omega arith) (omega arith)) (omega arith)

pub or_u32_be :
    (a b c d : ℕ)
    → IsByte a
    → IsByte b
    → IsByte c
    → IsByte d
    → bit_or (bit_or (bit_or (shl a 24) (shl b 16)) (shl c 8)) (shl d 0)
      ≡ be_value (a ∷ b ∷ c ∷ d ∷ [])
unfolding be_value le_value
or_u32_be a b c d ha hb hc hd =
    rw
      (
        or_below 24 (shl a 24) (shl b 16) (omega arith) (omega arith),
        or_below 16 (shl a 24 + shl b 16) (shl c 8) (omega arith) (omega arith),
        or_below 8 (shl a 24 + shl b 16 + shl c 8) (shl d 0) (omega arith) (omega arith),
      )
      (omega arith)

pub or_u64_be :
    (a b c d e f g h : ℕ)
    → IsByte a
    → IsByte b
    → IsByte c
    → IsByte d
    → IsByte e
    → IsByte f
    → IsByte g
    → IsByte h
    → bit_or
        (bit_or
          (bit_or
            (bit_or
              (bit_or (bit_or (bit_or (shl a 56) (shl b 48)) (shl c 40)) (shl d 32))
              (shl e 24))
            (shl f 16))
          (shl g 8))
        (shl h 0)
      ≡ be_value (a ∷ b ∷ c ∷ d ∷ e ∷ f ∷ g ∷ h ∷ [])
unfolding be_value le_value
or_u64_be a b c d e f g h ha hb hc hd he hf hg hh =
    rw
      (
        or_below 56 (shl a 56) (shl b 48) (omega arith) (omega arith),
        or_below 48 (shl a 56 + shl b 48) (shl c 40) (omega arith) (omega arith),
        or_below 40 (shl a 56 + shl b 48 + shl c 40) (shl d 32) (omega arith) (omega arith),
        or_below 32 (shl a 56 + shl b 48 + shl c 40 + shl d 32) (shl e 24) (omega arith)
            (omega arith),
        or_below 24 (shl a 56 + shl b 48 + shl c 40 + shl d 32 + shl e 24) (shl f 16) (omega arith)
            (omega arith),
        or_below 16 (shl a 56 + shl b 48 + shl c 40 + shl d 32 + shl e 24 + shl f 16) (shl g 8)
            (omega arith) (omega arith),
        or_below 8 (shl a 56 + shl b 48 + shl c 40 + shl d 32 + shl e 24 + shl f 16 + shl g 8)
            (shl h 0) (omega arith) (omega arith),
      )
      (omega arith)

pub or_u16_le : (a b : ℕ) → IsByte a → IsByte b → bit_or (shl a 0) (shl b 8) ≡ le_value (a ∷ b ∷ [])
unfolding le_value
or_u16_le a b ha hb = rw (or_above 8 (shl a 0) (shl b 8) (omega arith) (omega arith)) (omega arith)

pub or_u32_le :
    (a b c d : ℕ)
    → IsByte a
    → IsByte b
    → IsByte c
    → IsByte d
    → bit_or (bit_or (bit_or (shl a 0) (shl b 8)) (shl c 16)) (shl d 24)
      ≡ le_value (a ∷ b ∷ c ∷ d ∷ [])
unfolding le_value
or_u32_le a b c d ha hb hc hd =
    rw
      (
        or_above 8 (shl a 0) (shl b 8) (omega arith) (omega arith),
        or_above 16 (shl a 0 + shl b 8) (shl c 16) (omega arith) (omega arith),
        or_above 24 (shl a 0 + shl b 8 + shl c 16) (shl d 24) (omega arith) (omega arith),
      )
      (omega arith)

pub or_u64_le :
    (a b c d e f g h : ℕ)
    → IsByte a
    → IsByte b
    → IsByte c
    → IsByte d
    → IsByte e
    → IsByte f
    → IsByte g
    → IsByte h
    → bit_or
        (bit_or
          (bit_or
            (bit_or (bit_or (bit_or (bit_or (shl a 0) (shl b 8)) (shl c 16)) (shl d 24)) (shl e 32))
            (shl f 40))
          (shl g 48))
        (shl h 56)
      ≡ le_value (a ∷ b ∷ c ∷ d ∷ e ∷ f ∷ g ∷ h ∷ [])
unfolding le_value
or_u64_le a b c d e f g h ha hb hc hd he hf hg hh =
    rw
      (
        or_above 8 (shl a 0) (shl b 8) (omega arith) (omega arith),
        or_above 16 (shl a 0 + shl b 8) (shl c 16) (omega arith) (omega arith),
        or_above 24 (shl a 0 + shl b 8 + shl c 16) (shl d 24) (omega arith) (omega arith),
        or_above 32 (shl a 0 + shl b 8 + shl c 16 + shl d 24) (shl e 32) (omega arith)
            (omega arith),
        or_above 40 (shl a 0 + shl b 8 + shl c 16 + shl d 24 + shl e 32) (shl f 40) (omega arith)
            (omega arith),
        or_above 48 (shl a 0 + shl b 8 + shl c 16 + shl d 24 + shl e 32 + shl f 40) (shl g 48)
            (omega arith) (omega arith),
        or_above 56 (shl a 0 + shl b 8 + shl c 16 + shl d 24 + shl e 32 + shl f 40 + shl g 48)
            (shl h 56) (omega arith) (omega arith),
      )
      (omega arith)
