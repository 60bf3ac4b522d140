-- ===== src/Policy/Text.antt =====
-- Characters, words and numbers in the text of a wallet policy. A `char` is its code; whether it is
-- signed makes no difference to the comparisons with letters and digits.
use acre_ledger_app.Base
use acre_ledger_app.Base.{
  ℕ, zero, suc, ◌+◌, ◌-◌, ◌*◌, ◌%◌, ◌^◌, Option, none, some, List, [], ◌∷◌, bit_or, length,
}
use acre_ledger_app.Base.{Bool, true, false, not, ◌&&◌, ◌||◌, ◌==◌, ltb, leb, if◌then◌else◌}
use acre_ledger_app.Buffer
use acre_ledger_app.Buffer.{Buffer, add_size, sub_size}
use acre_ledger_app.Policy.Reader.{
  Reader, ◌>>=◌, return, fail, fault, peek, can_read, seek_cur, read_u8, require,
}

-- '0' and '9', 'a' and 'z', 'A' and 'Z', 'f', '_', and the apostrophe
unfoldable pub is_digit : ℕ → Bool
is_digit c = leb 48 c && leb c 57

unfoldable pub is_alpha : ℕ → Bool
is_alpha c = (leb 97 c && leb c 122) || (leb 65 c && leb c 90)

unfoldable pub is_alphanumeric : ℕ → Bool
is_alphanumeric c = is_alpha c || is_digit c

unfoldable pub is_lowercase_hex : ℕ → Bool
is_lowercase_hex c = is_digit c || (leb 97 c && leb c 102)

unfoldable pub lowercase_hex_to_int : ℕ → ℕ
lowercase_hex_to_int c = (if is_digit c then c - 48 else c + 10 - 97) % 2 ^ 8

abbrev is_expected : Option ℕ → ℕ → Bool
is_expected none expected = false
is_expected (some c) expected = c == expected

unfoldable pub consume_character : ℕ → Reader Bool
consume_character expected = do
  c ← peek
  if is_expected c expected then (do _ ← seek_cur 1; return true) else return false

-- The loop, from the character with number `i` on
unfoldable pub matches_at : ℕ → List ℕ → Reader Bool
matches_at i [] = return true
matches_at i (c ∷ expected) = do
  next ← λ buffer. Base.◌>>=◌ (Buffer.peek_n buffer i) λ r. some (some (r, buffer))
  if is_expected next c then matches_at (i + 1) expected else return false

unfoldable pub consume_characters : List ℕ → Reader Bool
consume_characters expected = do
  found ← matches_at 0 expected
  if found then (do _ ← seek_cur (length expected); return true) else return false

-- The digit that comes next, if any
abbrev next_digit : Option ℕ → Option ℕ
next_digit none = none
next_digit (some c) = if is_digit c then some c else none

-- The loop, with `result` and `digits_read`. Each round takes a character.
unfoldable pub decimal_loop : ℕ → ℕ → ℕ → Reader (ℕ × ℕ)
decimal_loop zero result digits_read = fault
decimal_loop (suc fuel) result digits_read = do
  c ← peek
  elim (next_digit c) [
    | none ↦ return (result, digits_read)
    | some c ↦
        if digits_read + 1 == 2 && result == 0
        then fail
        else if ltb ((10 * result + (c - 48)) % 2 ^ 32) result
        then fail
        else (do
          _ ← seek_cur 1
          decimal_loop fuel ((10 * result + (c - 48)) % 2 ^ 32) (digits_read + 1))
  ]

-- `size_t` has 32 bits on the device, as `*out` has.
unfoldable pub parse_unsigned_decimal : Reader ℕ
parse_unsigned_decimal buffer =
    (do
      r ← decimal_loop (suc (sub_size buffer.size buffer.offset)) 0 0
      if r.1 == 0 then fail else return r.0)
      buffer

-- The loop, for the bytes that are left
unfoldable pub hex_loop : ℕ → Reader (List ℕ)
hex_loop zero = return []
hex_loop (suc n) = do
  c1 ← read_u8
  c2 ← read_u8
  _ ← require (is_lowercase_hex c1 && is_lowercase_hex c2)
  rest ← hex_loop n
  return (((16 * lowercase_hex_to_int c1 + lowercase_hex_to_int c2) % 2 ^ 8) ∷ rest)

unfoldable pub buffer_read_hex_hash : ℕ → Reader (List ℕ)
buffer_read_hex_hash n = do
  enough ← can_read ((2 * n) % 2 ^ 32)
  if enough then hex_loop n else fail

abbrev pub first_hardened_child : ℕ
first_hardened_child = 0x8000_0000

unfoldable pub buffer_read_derivation_step : Reader ℕ
buffer_read_derivation_step = do
  der_step ← parse_unsigned_decimal
  _ ← require (ltb der_step first_hardened_child)
  hardened ← consume_character 39
  return (if hardened then bit_or der_step first_hardened_child else der_step)
