-- ===== src/Io.antt =====
-- src/boilerplate/io.c: the response under construction in `G_io_apdu_buffer`.
pub mod Response
mod Tests
use acre_ledger_app.Base.{ℕ, zero, suc, ◌+◌, ◌-◌, ◌%◌, ◌^◌, Option, none, some, ◌>>=◌, List, take}
use acre_ledger_app.Base.{
  Memory, load_bytes, store_bytes, ltb, leb, if◌then◌else◌, true, false, ◌++◌, [], ◌∷◌,
}
use acre_ledger_app.Bytes.{write_u16_be}
use acre_ledger_app.Buffer.{add_size, sub_size}

-- 5 + 255 bytes
abbrev pub io_apdu_buffer_size : ℕ
io_apdu_buffer_size = 260

abbrev pub sw_wrong_response_length : ℕ
sw_wrong_response_length = 0xb000

-- `G_io_apdu_buffer` and `G_output_len`, and the messages that `io_exchange` has sent, in order.
pub record Io : Type 0 where
  pub apdu_buffer : Memory
  pub output_len : ℕ
  pub sent : List (List ℕ)

unfoldable pub finalize_response : ℕ → Io → Option Io
finalize_response sw io =
    if leb (io_apdu_buffer_size - 2) io.output_len
    then (do
      buf ← write_u16_be io.apdu_buffer (io_apdu_buffer_size - 2) sw_wrong_response_length
      some (record io { apdu_buffer = buf; output_len = io_apdu_buffer_size }))
    else (do
      buf ← write_u16_be io.apdu_buffer io.output_len sw
      some (record io { apdu_buffer = buf; output_len = add_size io.output_len 2 }))

-- The first argument bounds the depth of the recursion; `none` stands for one that does not end too.
unfoldable pub add_to_response_rec : ℕ → Memory → ℕ → Io → Option Io
add_to_response_rec zero rdata rdata_len io = none
add_to_response_rec (suc fuel) rdata rdata_len io =
    elim (leb (io_apdu_buffer_size - 2) io.output_len) [
      | true ↦ do
        buf ← write_u16_be io.apdu_buffer (io_apdu_buffer_size - 2) sw_wrong_response_length
        some (record io { apdu_buffer = buf; output_len = io_apdu_buffer_size })
      | false ↦ elim (ltb (io_apdu_buffer_size - 2) (add_size io.output_len rdata_len)) [
        | true ↦ do
          io ← add_to_response_rec fuel rdata (sub_size (io_apdu_buffer_size - 2) rdata_len) io
          finalize_response sw_wrong_response_length io
        | false ↦ do
          bytes ← load_bytes rdata 0 rdata_len
          buf ← store_bytes io.apdu_buffer io.output_len bytes
          some (record io { apdu_buffer = buf; output_len = add_size io.output_len rdata_len })
      ]
    ]

-- Where the recursion ends, it makes one call of itself at most (`Response`).
unfoldable pub add_to_response : Memory → ℕ → Io → Option Io
add_to_response = add_to_response_rec 2

unfoldable pub reset_response : Io → Io
reset_response io = record io { output_len = 0 }

-- `io_exchange` sends the first `output_len` bytes of the buffer.
unfoldable pub confirm_response : Io → Io
confirm_response io = record io {
  sent = io.sent ++ (take io.output_len io.apdu_buffer ∷ []);
  output_len = 0;
}

unfoldable pub send_sw : ℕ → Io → Option Io
send_sw sw io = do io ← finalize_response sw (reset_response io); some (confirm_response io)
