-- ===== src/Client/Preimage/Tests.antt =====
-- Runs of `call_get_preimage` and `call_get_merkle_preimage`, and the theorem at one of them.
use acre_ledger_app.Base.{ℕ, ◌≤◌, ◌≡◌, refl, some, List, [], ◌∷◌, replicate, length, take, arith}
use acre_ledger_app.Base.{false, ◌++◌}
use acre_ledger_app.Buffer
use acre_ledger_app.Bytes.{write_u16_be, read_u16_le}
use acre_ledger_app.Varint.{varint_read}
use acre_ledger_app.Io
use acre_ledger_app.Apdu.{apdu_parser}
use acre_ledger_app.Merkle.{Hash}
use acre_ledger_app.Dispatcher
use acre_ledger_app.Dispatcher.{Context, ok, ◌>>=◌}
use acre_ledger_app.Client.LeafHash.{same_bytes}
use acre_ledger_app.Client.Preimage.{return_int, request_preimage, bytes_here, read_announced}
use acre_ledger_app.Client.Preimage.{more_bytes, fetch, preimage_loop, call_get_preimage}
use acre_ledger_app.Client.Preimage.{stale_bytes, merkle_preimage_loop, call_get_merkle_preimage}
use acre_ledger_app.Client.Preimage.Sound.{call_get_preimage_sound}

-- A hash function for the runs
abbrev toy_hash : List ℕ → Hash
toy_hash x = replicate 32 (length x)

-- Three bytes of five, then the other two
abbrev start : Context
start = record {
  read_buffer = Buffer.create [] 0;
  io = record { apdu_buffer = replicate 260 0; output_len = 0; sent = [] };
  sw = 0;
  host =
      (0xf8 ∷ 1 ∷ 0 ∷ 0 ∷ 5 ∷ 5 ∷ 3 ∷ 11 ∷ 12 ∷ 13 ∷ [])
      ∷ (0xf8 ∷ 1 ∷ 0 ∷ 0 ∷ 4 ∷ 2 ∷ 1 ∷ 14 ∷ 15 ∷ [])
      ∷ [];
}

accepts :
    (last : Context) × (call_get_preimage toy_hash (replicate 32 5) (replicate 8 0) 8 start
      ≡ some (ok (11 ∷ 12 ∷ 13 ∷ 14 ∷ 15 ∷ 0 ∷ 0 ∷ 0 ∷ [], 5), last))
unfolding call_get_preimage preimage_loop fetch more_bytes read_announced bytes_here
    request_preimage return_int same_bytes varint_read ◌>>=◌ Dispatcher.return
    Dispatcher.return_error Dispatcher.lift Dispatcher.or_return Dispatcher.require
    Dispatcher.add_to_response Dispatcher.finalize_response Dispatcher.set_response
    Dispatcher.process_interruption Dispatcher.read_u8 Dispatcher.read_varint Dispatcher.can_read
    Io.add_to_response Io.add_to_response_rec Io.finalize_response Io.confirm_response apdu_parser
    write_u16_be Buffer.can_read Buffer.seek_cur Buffer.read_u8 Buffer.read_varint
    Buffer.write_bytes
accepts = (_, refl)

call_get_preimage_sound_example :
    (data_bytes : List ℕ) × (length data_bytes ≡ 5)
    × (toy_hash data_bytes ≡ replicate 32 5)
    × (5 ≤ 8 → take 5 (11 ∷ 12 ∷ 13 ∷ 14 ∷ 15 ∷ 0 ∷ 0 ∷ 0 ∷ []) ≡ data_bytes)
call_get_preimage_sound_example =
    call_get_preimage_sound toy_hash (replicate 32 5) (replicate 8 0) 8 (omega arith) (omega arith)
      start (11 ∷ 12 ∷ 13 ∷ 14 ∷ 15 ∷ 0 ∷ 0 ∷ 0 ∷ []) 5 accepts.0 accepts.1

-- 249 bytes of 256, behind a length of three bytes, then the other seven
abbrev long_start : Context
long_start = record start {
  host =
      (0xf8 ∷ 1 ∷ 0 ∷ 0 ∷ 253 ∷ 0xfd ∷ 0 ∷ 1 ∷ 249 ∷ replicate 249 9)
      ∷ (0xf8 ∷ 1 ∷ 0 ∷ 0 ∷ 9 ∷ 7 ∷ 1 ∷ 11 ∷ 12 ∷ 13 ∷ 14 ∷ 15 ∷ 16 ∷ 17 ∷ [])
      ∷ [];
}

-- `call_get_merkle_preimage` accepts the preimage, but writes its last bytes two places off.
misplaces :
    (last : Context) × (call_get_merkle_preimage
        (λ xs ys. false)
        toy_hash
        (replicate 32 256)
        (replicate 255 0)
        255
        long_start
      ≡ some (ok (replicate 248 9 ++ (13 ∷ 14 ∷ 15 ∷ 16 ∷ 17 ∷ 9 ∷ 9 ∷ []), 255), last))
unfolding call_get_merkle_preimage merkle_preimage_loop stale_bytes fetch more_bytes read_announced
    bytes_here request_preimage return_int same_bytes varint_read ◌>>=◌ Dispatcher.return
    Dispatcher.return_error Dispatcher.lift Dispatcher.or_return Dispatcher.require
    Dispatcher.add_to_response Dispatcher.finalize_response Dispatcher.set_response
    Dispatcher.process_interruption Dispatcher.read_u8 Dispatcher.read_varint Dispatcher.can_read
    Io.add_to_response Io.add_to_response_rec Io.finalize_response Io.confirm_response read_u16_le
    apdu_parser write_u16_be Buffer.can_read Buffer.seek_cur Buffer.read_u8 Buffer.read_varint
    Buffer.write_bytes
misplaces = (_, refl)
