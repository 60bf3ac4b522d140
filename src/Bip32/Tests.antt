-- ===== src/Bip32/Tests.antt =====
-- The theorems on paths, at a path of two steps.
use acre_ledger_app.Base.{ℕ, ◌+◌, ◌^◌, ◌≡◌, none, some, List, [], ◌∷◌, ◌++◌, length, arith}
use acre_ledger_app.Bip32.{bip32_path_read}
use acre_ledger_app.Bip32.Words.{words, bip32_path_read-words}
use acre_ledger_app.Bip32.Short.{bip32_path_read-fault}

abbrev two_steps : List ℕ
two_steps = (2 ^ 31 + 44) ∷ 2 ^ 31 ∷ []

abbrev short_input : List ℕ
short_input = 1 ∷ 2 ∷ 3 ∷ 4 ∷ 5 ∷ []

bip32_path_read-words_example :
    bip32_path_read (words two_steps ++ (7 ∷ [])) 9 (length two_steps) ≡ some (some two_steps)
bip32_path_read-words_example =
    bip32_path_read-words two_steps (7 ∷ []) 9 (omega arith, (omega arith, tt)) (omega arith, tt)
      (omega arith) (omega arith)

bip32_path_read-fault_example : bip32_path_read short_input (length short_input) 2 ≡ none
bip32_path_read-fault_example = bip32_path_read-fault short_input 2 (omega arith) (omega arith)
