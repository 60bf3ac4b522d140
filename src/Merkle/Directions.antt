-- ===== src/Merkle/Directions.antt =====
-- `merkle_get_ith_direction` computes the path to a leaf of the Merkle tree.
use acre_ledger_app.Base.{
  ℕ, zero, suc, ◌+◌, ◌-◌, ◌%◌, ◌^◌, ◌≤◌, ◌<◌, ◌≡◌, ◌≢◌, refl, ap, ◌∙◌, sym, arith,
}
use acre_ledger_app.Base.{Option, some, true, false, ◌==◌, bit_and, List, ◌∷◌}
use acre_ledger_app.Base.{get_elem?, Bool-cases, inl, inr, dec_lt}
use acre_ledger_app.Base.Bits.{bit_and-pow_low, bit_and-pow_high}
use acre_ledger_app.Buffer.{sub_size}
use acre_ledger_app.Merkle.{ceil_lg, directions_loop, get_ith_direction}
use acre_ledger_app.Merkle.CeilLg.{ceil_lg-eq}
use acre_ledger_app.Merkle.Tree.{
  Tree, leaf, node, size, IsMerkle, path, one-le-size, path-left, path-right,
}
use native.Mathlib.Nat.{pow-suc, one-le-pow}

-- Powers of two in order
pub pow-lt_exponent : (k f : ℕ) → 2 ^ k < 2 ^ f → k < f
pow-lt_exponent zero zero h = absurd (omega arith)
pow-lt_exponent zero (suc f) h = omega arith
pow-lt_exponent (suc k) zero h = absurd (omega (arith, one-le-pow (suc k) 2 (omega arith)))
pow-lt_exponent (suc k) (suc f) h =
    omega (arith, pow-lt_exponent k f (omega (arith, pow-suc 2 k, pow-suc 2 f)))

pub pow-le_pow : (k f : ℕ) → k ≤ f → 2 ^ k ≤ 2 ^ f
pow-le_pow zero f h = one-le-pow f 2 (omega arith)
pow-le_pow (suc k) zero h = absurd (omega arith)
pow-le_pow (suc k) (suc f) h = omega (arith, pow-le_pow k f (omega arith), pow-suc 2 k, pow-suc 2 f)

-- One round at a node whose left subtree has `M` leaves: the answer if the node is the one asked
-- for, else on to the child.
module _ (fuel s d M index i n : ℕ) (h : 1 < s) (depth : ceil_lg s ≡ some d) where
  go_left :
      2 ^ (d - 1) % 2 ^ 32 ≡ M
      → bit_and index M ≡ 0
      → directions_loop (suc fuel) s index i n ≡ elim (n == i) [
        | true ↦ some (some 0)
        | false ↦ directions_loop fuel M index i ((n + 1) % 2 ^ 8)
      ]
  unfolding directions_loop
  go_left mask bit = ground (arith, depth, mask, bit)

  go_right :
      2 ^ (d - 1) % 2 ^ 32 ≡ M
      → bit_and index M ≢ 0
      → directions_loop (suc fuel) s index i n ≡ elim (n == i) [
        | true ↦ some (some 1)
        | false ↦ directions_loop fuel (sub_size s M) (sub_size index M) i ((n + 1) % 2 ^ 8)
      ]
  unfolding directions_loop
  go_right mask bit = ground (arith, depth, mask, bit)

-- The element at the place where a round stands, and those behind it
here_elem : (x : ℕ) (xs : List ℕ) (i n : ℕ) → n ≡ i → get_elem? (x ∷ xs) (i - n) ≡ some x
here_elem x xs i n e = let z : i - n ≡ 0 = omega arith in rw z

later_elem :
    (x : ℕ) (xs : List ℕ) (i n : ℕ)
    → n < i
    → get_elem? (x ∷ xs) (i - n) ≡ get_elem? xs (i - (n + 1))
later_elem x xs i n h = let z : i - n ≡ suc (i - (n + 1)) = omega arith in rw z

-- What a round leaves: found here, or found by the loop on the child.
found :
    (x : ℕ) (xs : List ℕ) (i n : ℕ) (rest : Option (Option ℕ))
    → n ≤ i
    → (n < i → rest ≡ some (get_elem? xs (i - (n + 1))))
    → elim (n == i) [ true ↦ some (some x) | false ↦ rest ] ≡ some (get_elem? (x ∷ xs) (i - n))
found x xs i n rest h later = elim (Bool-cases (n == i)) [
  | inl e ↦ rw e (ap some (sym (here_elem x xs i n (ground arith))))
  | inr e ↦
      let lt : n < i = ground arith in rw e (later lt ∙ ap some (sym (later_elem x xs i n lt)))
]

directions_loop-path :
    (t : Tree) (f index i n : ℕ)
    → IsMerkle t
    → size t ≤ 2 ^ f
    → f ≤ 31
    → index < size t
    → n ≤ i
    → n + f ≤ 200
    → directions_loop (suc f) (size t) index i n ≡ some (get_elem? (path t index) (i - n))
unfolding size path
directions_loop-path (leaf h) f index i n m fits small inside le count =
    unfold directions_loop in refl
directions_loop-path (node l r) zero index i n m fits small inside le count =
    absurd (omega (arith, one-le-size l, one-le-size r))
directions_loop-path (node l r) (suc f) index i n ((k, e), smaller, ml, mr) fits small inside le
      count =
    elim (dec_lt index (size l)) [
      | yes left ↦
          go_left (suc f) (size l + size r) (suc k) (size l) index i n two depth mask
            (rw e (bit_and-pow_low k index (rw e at left)))
          ∙ found 0 (path l index) i n _ le (λ lt. rw next (
              directions_loop-path l f index i (n + 1) ml half (omega arith) left (omega arith)
                (omega arith)))
          ∙ ap (λ (p : List ℕ). some (get_elem? p (i - n))) (sym (path-left l r index left))
      | no right ↦
          go_right (suc f) (size l + size r) (suc k) (size l) index i n two depth mask (high right)
          ∙ found 1 (path r (index - size l)) i n _ le (λ lt.
            rw (rest_size, rest_index right, next)
              (directions_loop-path r f (index - size l) i (n + 1) mr (omega arith) (omega arith)
                (omega arith) (omega arith) (omega arith)))
          ∙ ap (λ (p : List ℕ). some (get_elem? p (i - n)))
              (sym (path-right l r index (omega arith)))
    ]
  where
    two : 1 < size l + size r
    two = omega (arith, one-le-size l, one-le-size r)

    below : k < suc f
    below = pow-lt_exponent k (suc f) (omega (arith, one-le-size r))

    depth : ceil_lg (size l + size r) ≡ some (suc k)
    depth =
        ceil_lg-eq (suc k) (size l + size r) (omega (arith, below)) (omega (arith, pow-suc 2 k))
          (omega (arith, pow-suc 2 k, one-le-size r)) (omega (arith, pow-le_pow (suc f) 31 small))

    mask : 2 ^ (suc k - 1) % 2 ^ 32 ≡ size l
    mask =
        let p : suc k - 1 ≡ k = omega arith in
        rw p (omega (arith, pow-le_pow k 31 (omega (arith, below))))

    big : size l + size r ≤ 2 ^ 31
    big = omega (arith, pow-le_pow (suc f) 31 small)

    half : size l ≤ 2 ^ f
    half = rw e (pow-le_pow k f (omega (arith, below)))

    next : (n + 1) % 2 ^ 8 ≡ n + 1
    next = omega arith

    rest_size : sub_size (size l + size r) (size l) ≡ size r
    rest_size = omega (arith, big)

    rest_index : ¬ (index < size l) → sub_size index (size l) ≡ index - size l
    rest_index right = omega (arith, big)

    high : ¬ (index < size l) → bit_and index (size l) ≢ 0
    high right = rw e (
        omega (
          arith,
          one-le-pow k 2 (omega arith),
          bit_and-pow_high k index (omega arith) (omega (arith, pow-suc 2 k)),
        ))

in_range :
    (s index i : ℕ)
    → 1 < s
    → index < s
    → get_ith_direction s index i ≡ directions_loop 32 s index i 0
unfolding get_ith_direction
in_range s index i h inside = ground arith

-- Within 2 ^ 31 leaves, the answer is the `i`-th step of the way to the leaf, and -1 from the depth
-- of the leaf on.
pub get_ith_direction-path :
    (t : Tree) (index i : ℕ)
    → IsMerkle t
    → size t ≤ 2 ^ 31
    → index < size t
    → get_ith_direction (size t) index i ≡ some (get_elem? (path t index) i)
get_ith_direction-path (leaf h) index i m fits inside = unfold size path get_ith_direction in refl
get_ith_direction-path (node l r) index i m fits inside =
    let all : i - 0 ≡ i = omega arith in
    in_range (size (node l r)) index i
      (unfold size in (omega (arith, one-le-size l, one-le-size r))) inside
    ∙ directions_loop-path (node l r) 31 index i 0 m fits (omega arith) inside (omega arith)
        (omega arith)
    ∙ ap (λ (k : ℕ). some (get_elem? (path (node l r) index) k)) all
