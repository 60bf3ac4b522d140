-- ===== src/Miniscript/Amount.antt =====
-- src/common/wallet.c: `sumcheck` and `maxcheck`, and the table that a thresh node is counted with.
use acre_ledger_app.Base.{ℕ, ◌+◌, Option, none, some, List, [], ◌∷◌}
use acre_ledger_app.Base.{ltb, leb, if◌then◌else◌, get_elem?}

-- An `int16_t` that is -1, which is `none`, or not negative. To store it in a `uint16_t` and read it
-- back changes nothing.
abbrev pub Amount : Type 0
Amount = Option ℕ

abbrev pub int16_max : ℕ
int16_max = 32767

unfoldable pub sumcheck : Amount → Amount → Amount
sumcheck (some a) (some b) = some (if ltb int16_max (a + b) then int16_max else a + b)
sumcheck _ _ = none

unfoldable pub maxcheck : Amount → Amount → Amount
maxcheck none b = b
maxcheck (some a) none = some a
maxcheck (some a) (some b) = some (if ltb b a then a else b)

-- The entries of `next_sats` behind that of `prev`
unfoldable pub next_tail : Amount → Amount → Amount → List Amount → List Amount
next_tail sat dsat prev [] = sumcheck prev sat ∷ []
next_tail sat dsat prev (c ∷ sats) =
    maxcheck (sumcheck c dsat) (sumcheck prev sat) ∷ next_tail sat dsat c sats

-- A round of the loop over the children: the first `sats_size` entries of `sats`
unfoldable pub next_sats : Amount → Amount → List Amount → List Amount
next_sats sat dsat [] = []
next_sats sat dsat (c ∷ sats) = sumcheck c dsat ∷ next_tail sat dsat c sats

unfoldable pub sats_loop : List (Amount × Amount) → List Amount → List Amount
sats_loop [] sats = sats
sats_loop (t ∷ ts) sats = sats_loop ts (next_sats t.0 t.1 sats)

abbrev pub max_n_in_thresh : ℕ
max_n_in_thresh = 128

-- `sats[k]`: behind the first `sats_size` entries the array is 0. `none` is an access outside it.
unfoldable pub read_sats : List Amount → ℕ → Option Amount
read_sats sats k = elim (get_elem? sats k) [
  | some a ↦ some a
  | none ↦ if leb k (max_n_in_thresh + 1) then some (some 0) else none
]
