-- ===== src/Bitvector/Tests.antt =====
-- src/common/bitvector.h: a flag in the second of three bytes.
use acre_ledger_app.Base.{ℕ, ◌≡◌, refl, arith, some, [], ◌∷◌, true, Memory, ◌==◌, if◌then◌else◌}
use acre_ledger_app.Bytes.Check.{are_bytes-IsByte}
use acre_ledger_app.Bitvector.{bitvector_get, bitvector_set}
use acre_ledger_app.Bitvector.Flags.{bitvector_get-bitvector_set}

abbrev flags : Memory
flags = 0x81 ∷ 0x7f ∷ 0x00 ∷ []

bitvector_get-bitvector_set_example :
    (vec' : Memory) × (bitvector_set flags 8 true ≡ some vec')
    × ((j : ℕ) → bitvector_get vec' j ≡ (if 8 == j then some true else bitvector_get flags j))
bitvector_get-bitvector_set_example =
    bitvector_get-bitvector_set flags 8 true (are_bytes-IsByte flags refl) (omega arith)
