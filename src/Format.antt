-- ===== src/Format.antt =====
-- src/common/format.c: bytes in hexadecimal, for the screen.
pub mod Hex
mod Tests
use acre_ledger_app.Base.{
  ℕ, zero, suc, ◌+◌, ◌*◌, ◌/◌, ◌%◌, ◌^◌, Option, none, some, ◌>>=◌, List, [], ◌∷◌,
}
use acre_ledger_app.Base.{Memory, load, store, bit_and, leb, ltb, if◌then◌else◌}

-- "0123456789abcdef" and the terminating zero
abbrev hex : Memory
hex = 48 ∷ 49 ∷ 50 ∷ 51 ∷ 52 ∷ 53 ∷ 54 ∷ 55 ∷ 56 ∷ 57 ∷ 97 ∷ 98 ∷ 99 ∷ 100 ∷ 101 ∷ 102 ∷ 0 ∷ []

-- The loop, with `in_len - i` and `i`; `out` stands `written` bytes behind its start. Returns
-- `written` and what `out` points into.
unfoldable pub write_digits : Memory → ℕ → ℕ → ℕ → ℕ → Memory → Option (ℕ × Memory)
write_digits input out_len zero i written out = some (written, out)
write_digits input out_len (suc left) i written out =
    if leb ((i * 2 + (2 + 1)) % 2 ^ 32) out_len
    then (do
      byte ← load input i
      high ← load hex (bit_and byte 0xf0 / 16)
      out ← store out written high
      low ← load hex (bit_and byte 0x0f)
      out ← store out (written + 1) low
      write_digits input out_len left (i + 1) (written + 2) out)
    else some (written, out)

-- The inner `none` is -1, and `none` an access outside the memory.
unfoldable pub format_hex : Memory → ℕ → Memory → ℕ → Option (Option (ℕ × Memory))
format_hex input in_len out out_len =
    if ltb out_len ((2 * in_len + 1) % 2 ^ 32) then some none else (do
      r ← write_digits input out_len in_len 0 0 out
      out ← store r.1 r.0 0
      some (some (r.0 + 1, out)))
