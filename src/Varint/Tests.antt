-- ===== src/Varint/Tests.antt =====
-- The theorems on variable-length integers, at the first value of three bytes.
use acre_ledger_app.Base.{◌≡◌, some, [], ◌∷◌, ◌++◌, replicate, arith}
use acre_ledger_app.Base.Blocks.{overwrite}
use acre_ledger_app.Varint.{varint_size, varint_read, varint_write}
use acre_ledger_app.Varint.Format.{
  varint_bytes, varint_read-varint_bytes, varint_write-eq-overwrite,
}

varint_read-varint_bytes_example :
    varint_read (varint_bytes 253 ++ (7 ∷ [])) 4 ≡ some (some (varint_size 253, 253))
unfolding varint_size
varint_read-varint_bytes_example =
    varint_read-varint_bytes 253 4 (7 ∷ []) (omega arith) (omega arith, tt) (omega arith)

varint_write-eq-overwrite_example :
    varint_write (replicate 9 0) 2 253
    ≡ some (overwrite (replicate 9 0) 2 (varint_bytes 253), some (varint_size 253))
unfolding varint_size
varint_write-eq-overwrite_example = varint_write-eq-overwrite (replicate 9 0) 2 253 (omega arith)
