-- ===== src/Io/Response.antt =====
-- `io_add_to_response`: what fits is appended; what does not is cut or recurs for ever.
use acre_ledger_app.Base.{ℕ, zero, suc, ◌+◌, ◌-◌, ◌≤◌, ◌<◌, ◌≡◌, refl, arith, none, some}
use acre_ledger_app.Base.{List, length, Memory, load_bytes, store_bytes}
use acre_ledger_app.Base.Blocks.{overwrite, store_bytes-eq-overwrite, load_bytes-all}
use acre_ledger_app.Io.{Io, add_to_response_rec, add_to_response}
use acre_ledger_app.Buffer.{sub_size, add_size}

-- In a buffer of 260 bytes that has fewer than 258 in the response, where the data fit before the
-- status word, they are appended to the response, and nothing else of the buffer changes.
pub add_to_response-fits :
    (rdata : List ℕ) (io : Io)
    → length io.apdu_buffer ≡ 260
    → io.output_len < 258
    → io.output_len + length rdata ≤ 258
    → add_to_response rdata (length rdata) io
      ≡ some (record io {
        apdu_buffer = overwrite io.apdu_buffer io.output_len rdata;
        output_len = io.output_len + length rdata;
      })
unfolding add_to_response add_to_response_rec
add_to_response-fits rdata io size started fits =
    let loaded : load_bytes rdata 0 (length rdata) ≡ some rdata = load_bytes-all rdata in
    let stored : store_bytes io.apdu_buffer io.output_len rdata
        ≡ some (overwrite io.apdu_buffer io.output_len rdata) =
      store_bytes-eq-overwrite io.apdu_buffer io.output_len rdata (omega arith) in
    let sum : add_size io.output_len (length rdata) ≡ io.output_len + length rdata = omega arith in
    ground (arith, loaded, stored, sum)

-- With fewer than 258 bytes in the response and a length of at most 258, where neither the data nor
-- `258 - rdata_len` bytes of them fit before byte 258, `io_add_to_response` calls itself with the one
-- length and the other by turns, and no depth of calls is enough.
pub add_to_response_rec-never_ends :
    (fuel : ℕ) (rdata : Memory) (n : ℕ) (io : Io)
    → io.output_len < 258
    → n ≤ 258
    → 258 < io.output_len + n
    → 258 < io.output_len + (258 - n)
    → add_to_response_rec fuel rdata n io ≡ none
unfolding add_to_response_rec
add_to_response_rec-never_ends zero rdata n io started small long long' = refl
add_to_response_rec-never_ends (suc fuel) rdata n io started small long long' =
    let other : sub_size 258 n ≡ 258 - n = omega arith in
    let back : 258 - (258 - n) ≡ n = omega arith in
    let again =
      add_to_response_rec-never_ends fuel rdata (258 - n) io started (omega arith) long'
        (omega arith) in
    ground (arith, other, again)
