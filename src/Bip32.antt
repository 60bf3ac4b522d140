-- ===== src/Bip32.antt =====
-- src/common/bip32.c: derivation paths of BIP-32.
pub mod Words
pub mod Short
mod Tests
use acre_ledger_app.Base.{
  ℕ, zero, suc, ◌+◌, ◌*◌, ◌-◌, ◌^◌, Option, none, some, ◌>>=◌, List, [], ◌∷◌, drop, length, map,
}
use acre_ledger_app.Base.{
  Bool, true, false, not, ◌||◌, ltb, ◌==◌, if◌then◌else◌, Memory, load, bit_xor,
}
use acre_ledger_app.Bytes.{read_u32_be}
use acre_ledger_app.Buffer
use acre_ledger_app.Buffer.{Buffer, add_size, sub_size}

abbrev pub max_bip32_path_steps : ℕ
max_bip32_path_steps = 8

abbrev pub bip32_first_hardened_child : ℕ
bip32_first_hardened_child = 2 ^ 31

-- The loop of `bip32_path_read`, for the steps that are left. The inner `none` is the result false.
unfoldable pub path_steps : ℕ → Memory → ℕ → ℕ → Option (Option (List ℕ))
path_steps zero input in_len offset = some (some [])
path_steps (suc n) input in_len offset =
    if ltb in_len offset
    then some none
    else (read_u32_be input offset >>= λ v. path_steps n input in_len (offset + 4) >>= λ r. elim r [
      | none ↦ some none
      | some vs ↦ some (some (v ∷ vs))
    ])

unfoldable pub bip32_path_read : Memory → ℕ → ℕ → Option (Option (List ℕ))
bip32_path_read input in_len out_len =
    if ltb max_bip32_path_steps out_len then some none else path_steps out_len input in_len 0

-- `buffer_read_bip32_path` of buffer.c. The result of `buffer_seek_cur` is not looked at.
unfoldable pub buffer_read_bip32_path : Buffer → ℕ → Option (Option (List ℕ × Buffer))
buffer_read_bip32_path buffer out_len =
    bip32_path_read (drop buffer.offset buffer.ptr) (sub_size buffer.size buffer.offset) out_len
    >>= λ r. elim r [
      | none ↦ some none
      | some out ↦ some (some (out, (Buffer.seek_cur buffer (4 * out_len)).1))
    ]

-- `coin_type == (expected_coin_types[i] ^ H)` for some `i`
unfoldable pub is_coin_type_valid : ℕ → List ℕ → Bool
is_coin_type_valid coin_type [] = false
is_coin_type_valid coin_type (c ∷ cs) =
    if coin_type == bit_xor c bip32_first_hardened_child
    then true
    else is_coin_type_valid coin_type cs

-- The arrays with their lengths; the outer `none` is an access outside the path.
unfoldable pub is_pubkey_path_standard : List ℕ → ℕ → List ℕ → Option Bool
is_pubkey_path_standard bip32_path expected_purpose expected_coin_types =
    if ltb (length bip32_path) 2 || ltb 3 (length bip32_path)
    then some false
    else (load bip32_path 0 >>= λ purpose.
        if not (purpose == bit_xor expected_purpose bip32_first_hardened_child)
        then some false
        else (load bip32_path 1 >>= λ coin_type.
            if ltb coin_type bip32_first_hardened_child
            then some false
            else if ltb 0 (length expected_coin_types)
            then (if is_coin_type_valid coin_type expected_coin_types
                then check_account bip32_path
                else some false)
            else check_account bip32_path))
  where
    check_account : List ℕ → Option Bool
    check_account bip32_path =
        if length bip32_path == 2
        then some true
        else (load bip32_path 2 >>= λ account_number.
            some (not (ltb 100 (bit_xor account_number bip32_first_hardened_child))))
