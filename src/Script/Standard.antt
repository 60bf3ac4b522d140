-- ===== src/Script/Standard.antt =====
-- The standard output scripts as Bitcoin builds them, and that `get_script_type` knows them.
use acre_ledger_app.Base.{
  ℕ, zero, suc, ◌+◌, ◌≡◌, refl, List, [], ◌∷◌, ◌++◌, length, some, arith, length-append,
}
use acre_ledger_app.Base.{load}
use acre_ledger_app.Script
use acre_ledger_app.Script.{ScriptType, get_script_type}
use acre_ledger_app.Script.{holds_at, and_then, is_p2pkh, is_p2sh, is_program, is_segwit, or_else}

pub data Standard : Type 0 where
  pay_to_pubkey_hash pay_to_script_hash pay_to_witness_pubkey_hash : Standard
  pay_to_witness_script_hash pay_to_taproot : Standard

unfoldable pub type_of : Standard → ScriptType
type_of pay_to_pubkey_hash = Script.p2pkh
type_of pay_to_script_hash = Script.p2sh
type_of pay_to_witness_pubkey_hash = Script.p2wpkh
type_of pay_to_witness_script_hash = Script.p2wsh
type_of pay_to_taproot = Script.p2tr

abbrev pub hash_size : Standard → ℕ
hash_size pay_to_pubkey_hash = 20
hash_size pay_to_script_hash = 20
hash_size pay_to_witness_pubkey_hash = 20
hash_size pay_to_witness_script_hash = 32
hash_size pay_to_taproot = 32

-- The script of an output that pays to a hash (for Taproot, to a key)
unfoldable pub script_of : Standard → List ℕ → List ℕ
script_of pay_to_pubkey_hash h = 0x76 ∷ 0xa9 ∷ 0x14 ∷ (h ++ (0x88 ∷ 0xac ∷ []))
script_of pay_to_script_hash h = 0xa9 ∷ 0x14 ∷ (h ++ (0x87 ∷ []))
script_of pay_to_witness_pubkey_hash h = 0x00 ∷ 0x14 ∷ h
script_of pay_to_witness_script_hash h = 0x00 ∷ 0x20 ∷ h
script_of pay_to_taproot h = 0x51 ∷ 0x20 ∷ h

load-behind : (xs ys : List ℕ) (i k : ℕ) → i ≡ length xs + k → load (xs ++ ys) i ≡ load ys k
load-behind [] ys i k e = let z : i ≡ k = omega arith in rw z refl
load-behind (x ∷ xs) ys zero k e = absurd (omega arith)
load-behind (x ∷ xs) ys (suc i) k e = load-behind xs ys i k (omega arith)

-- `get_script_type` gives every standard output script its type, whatever the hash in it, without a
-- read outside the script.
pub get_script_type-script_of :
    (s : Standard) (h : List ℕ)
    → length h ≡ hash_size s
    → get_script_type (script_of s h) (length (script_of s h)) ≡ some (some (type_of s))
unfolding get_script_type script_of type_of is_p2pkh is_p2sh is_program holds_at and_then or_else
get_script_type-script_of pay_to_pubkey_hash h e =
    let tail : List ℕ = 0x88 ∷ 0xac ∷ [] in
    let n : length (h ++ tail) ≡ 22 = omega (arith, length-append h tail) in
    rw (n, load-behind h tail 20 0 (omega arith), load-behind h tail 21 1 (omega arith)) refl
get_script_type-script_of pay_to_script_hash h e =
    let tail : List ℕ = 0x87 ∷ [] in
    let n : length (h ++ tail) ≡ 21 = omega (arith, length-append h tail) in
    rw (n, load-behind h tail 20 0 (omega arith)) refl
get_script_type-script_of pay_to_witness_pubkey_hash h e = rw e refl
get_script_type-script_of pay_to_witness_script_hash h e = rw e refl
get_script_type-script_of pay_to_taproot h e = rw e refl
