-- ===== src/Format/Tests.antt =====
-- src/common/format.c: two bytes in hexadecimal.
use acre_ledger_app.Base.{◌≡◌, refl, arith, some, [], ◌∷◌, replicate}
use acre_ledger_app.Bytes.Check.{are_bytes-IsByte}
use acre_ledger_app.Format.{format_hex}
use acre_ledger_app.Format.Hex.{format_hex-hex_text}

format_hex-hex_text_example :
    format_hex (0x1f ∷ 0xe0 ∷ []) 2 (replicate 7 9) 6
    ≡ some (some (5, 49 ∷ 102 ∷ 101 ∷ 48 ∷ 0 ∷ 9 ∷ 9 ∷ []))
format_hex-hex_text_example =
    format_hex-hex_text (0x1f ∷ 0xe0 ∷ []) (replicate 7 9) 6
      (are_bytes-IsByte (0x1f ∷ 0xe0 ∷ []) refl) (omega arith) (omega arith) (omega arith)
