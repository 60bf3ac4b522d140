-- ===== src/Merkle.antt =====
-- src/common/merkle.c and merkle.h: the hashes of a Merkle tree's nodes, and the path to a leaf.
-- SHA-256 is the argument `sha256`.
pub mod Tree
pub mod CeilLg
pub mod Directions
pub mod Climb
mod Tests
use acre_ledger_app.Base.{ℕ, zero, suc, ◌+◌, ◌-◌, ◌*◌, ◌%◌, ◌^◌, Bool, true, false, ◌||◌, bit_and}
use acre_ledger_app.Base.{
  Option, none, some, ◌>>=◌, List, [], ◌∷◌, ◌++◌, ltb, leb, ◌==◌, if◌then◌else◌,
}
use acre_ledger_app.Buffer.{sub_size}

-- A byte string of 32 bytes where the source has `uint8_t [32]`.
abbrev pub Hash : Type 0
Hash = List ℕ

unfoldable pub compute_element_hash : (List ℕ → Hash) → List ℕ → Hash
compute_element_hash sha256 input = sha256 (0x00 ∷ input)

unfoldable pub combine_hashes : (List ℕ → Hash) → Hash → Hash → Hash
combine_hashes sha256 left right = sha256 (0x01 ∷ (left ++ right))

-- `while (t < n) { t = 2 * t; ++r; }` over uint32_t and uint8_t; `none` is a loop that has not ended.
unfoldable pub ceil_lg_loop : ℕ → ℕ → ℕ → ℕ → Option ℕ
ceil_lg_loop zero n r t = none
ceil_lg_loop (suc fuel) n r t = elim (ltb t n) [
  | true ↦ ceil_lg_loop fuel n ((r + 1) % 2 ^ 8) (2 * t % 2 ^ 32)
  | false ↦ some r
]

-- 32 rounds are enough up to 2 ^ 31, and beyond no number is (`CeilLg`).
unfoldable pub ceil_lg : ℕ → Option ℕ
ceil_lg n = ceil_lg_loop 32 n 0 1

-- The loop of `merkle_get_ith_direction`. The inner `none` is the return value -1.
unfoldable pub directions_loop : ℕ → ℕ → ℕ → ℕ → ℕ → Option (Option ℕ)
directions_loop zero size index i n_directions = none
directions_loop (suc fuel) size index i n_directions = elim (ltb 1 size) [
  | true ↦ ceil_lg size >>= λ depth.
      let mask : ℕ = 2 ^ (depth - 1) % 2 ^ 32 in
      let is_right_child : ℕ = if bit_and index mask == 0 then 0 else 1 in
      elim (n_directions == i) [
        | true ↦ some (some is_right_child)
        | false ↦
            directions_loop fuel (if is_right_child == 1 then sub_size size mask else mask)
              (if is_right_child == 1 then sub_size index mask else index) i
              ((n_directions + 1) % 2 ^ 8)
      ]
  | false ↦ some none
]

unfoldable pub get_ith_direction : ℕ → ℕ → ℕ → Option (Option ℕ)
get_ith_direction size index i =
    if leb size 1 || leb size index then some none else directions_loop 32 size index i 0
