-- ===== src/Merkle/CeilLg.antt =====
-- `ceil_lg`: the result up to 2 ^ 31, and the endless loop beyond.
use acre_ledger_app.Base.{ℕ, zero, suc, ◌+◌, ◌*◌, ◌%◌, ◌^◌, ◌≤◌, ◌<◌, ◌≡◌, refl, ap, ◌∙◌, arith}
use acre_ledger_app.Base.{none, some, lt→ltb}
use acre_ledger_app.Merkle.{ceil_lg_loop, ceil_lg}
use native.Mathlib.Nat.{pow-suc, one-le-pow}

le-mul_pow : (t d : ℕ) → t ≤ t * 2 ^ d
le-mul_pow t d = let h : 1 ≤ 2 ^ d = one-le-pow d 2 (omega arith) in grind arith

ceil_lg_loop-round :
    (fuel n r t : ℕ)
    → t < n
    → ceil_lg_loop (suc fuel) n r t ≡ ceil_lg_loop fuel n ((r + 1) % 2 ^ 8) (2 * t % 2 ^ 32)
unfolding ceil_lg_loop
ceil_lg_loop-round fuel n r t h = rw (lt→ltb t n h, ceil_lg_loop)

-- The loop from `t` is `2 ^ r`, where `2 ^ d` is the least power that is at least `n`.
ceil_lg_loop-eq :
    (d fuel n r t : ℕ)
    → d < fuel
    → r + d ≤ 31
    → n ≤ t * 2 ^ d
    → t * 2 ^ d < 2 * n
    → n ≤ 2 ^ 31
    → ceil_lg_loop fuel n r t ≡ some (r + d)
unfolding ceil_lg_loop
ceil_lg_loop-eq d zero n r t hf hr hi lo big = absurd (omega arith)
ceil_lg_loop-eq zero (suc fuel) n r t hf hr hi lo big = ground arith
ceil_lg_loop-eq (suc d) (suc fuel) n r t hf hr hi lo big =
    let e : t * 2 ^ suc d ≡ 2 * t * 2 ^ d = omega (arith, ap (λ (k : ℕ). t * k) (pow-suc 2 d)) in
    let below : t < n = omega (arith, le-mul_pow t d) in
    let word : 2 * t % 2 ^ 32 ≡ 2 * t = omega arith in
    let count : (r + 1) % 2 ^ 8 ≡ r + 1 = omega arith in
    let sum : r + 1 + d ≡ r + suc d = omega arith in
    ceil_lg_loop-round fuel n r t below
    ∙ rw (word, count)
        (ceil_lg_loop-eq d fuel n (r + 1) (2 * t) (omega arith) (omega arith) (omega arith)
            (omega arith) big
          ∙ ap some sum)

-- For 2 ^ d the least power of two that is at least `n`, up to 2 ^ 31, `ceil_lg` ends with `d`.
pub ceil_lg-eq : (d n : ℕ) → d ≤ 31 → n ≤ 2 ^ d → 2 ^ d < 2 * n → n ≤ 2 ^ 31 → ceil_lg n ≡ some d
unfolding ceil_lg
ceil_lg-eq d n h hi lo big =
    ceil_lg_loop-eq d 32 n 0 1 (omega arith) (omega arith) (omega arith) (omega arith) big
    ∙ ap some (omega arith)

-- From 0 the loop stays at 0.
zero_never_ends : (fuel n r : ℕ) → 0 < n → ceil_lg_loop fuel n r 0 ≡ none
unfolding ceil_lg_loop
zero_never_ends zero n r h = refl
zero_never_ends (suc fuel) n r h =
    ceil_lg_loop-round fuel n r 0 h ∙ zero_never_ends fuel n ((r + 1) % 2 ^ 8) h

-- Above 2 ^ 31 the doubling passes 2 ^ 31 and wraps to 0 before it reaches `n`.
above_never_ends :
    (d fuel n r t : ℕ) → t * 2 ^ d ≡ 2 ^ 31 → 2 ^ 31 < n → ceil_lg_loop fuel n r t ≡ none
unfolding ceil_lg_loop
above_never_ends d zero n r t e big = refl
above_never_ends zero (suc fuel) n r t e big =
    let word : 2 * t % 2 ^ 32 ≡ 0 = omega arith in
    ceil_lg_loop-round fuel n r t (omega arith)
    ∙ rw word (zero_never_ends fuel n ((r + 1) % 2 ^ 8) (omega arith))
above_never_ends (suc d) (suc fuel) n r t e big =
    let e' : t * 2 ^ suc d ≡ 2 * t * 2 ^ d = omega (arith, ap (λ (k : ℕ). t * k) (pow-suc 2 d)) in
    let half : t ≤ 2 ^ 30 = omega (arith, le-mul_pow t d) in
    let word : 2 * t % 2 ^ 32 ≡ 2 * t = omega arith in
    ceil_lg_loop-round fuel n r t (omega arith)
    ∙ rw word (above_never_ends d fuel n ((r + 1) % 2 ^ 8) (2 * t) (omega arith) big)

-- On a uint32_t above 2 ^ 31 the loop of `ceil_lg` does not end: no number of rounds is enough.
pub ceil_lg_loop-never_ends : (fuel n : ℕ) → 2 ^ 31 < n → ceil_lg_loop fuel n 0 1 ≡ none
ceil_lg_loop-never_ends fuel n big = above_never_ends 31 fuel n 0 1 (omega arith) big
