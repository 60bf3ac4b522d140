-- ===== src/Policy/Tests.antt =====
-- The theorems on the text of wallet policies, at short texts.
use acre_ledger_app.Base.{ℕ, ◌≡◌, refl, arith, true, some, List, [], ◌∷◌, length, replicate, take}
use acre_ledger_app.Bytes.Check.{are_bytes-IsByte}
use acre_ledger_app.Bytes.Values.{le_bytes}
use acre_ledger_app.Varint.Format.{varint_bytes}
use acre_ledger_app.Buffer.{Buffer}
use acre_ledger_app.Policy.Text.{
  is_digit, parse_unsigned_decimal, buffer_read_derivation_step, buffer_read_hex_hash,
}
use acre_ledger_app.Policy.Hex.{buffer_read_hex_hash-hex_text}
use acre_ledger_app.Policy.Placeholder.{parse_placeholder}
use acre_ledger_app.Policy.Header.{PolicyHeader, read_wallet_policy_header}
use acre_ledger_app.Policy.Stream.{Holds}
use acre_ledger_app.Policy.Number.{IsNumeral, parse_unsigned_decimal-numeral}
use acre_ledger_app.Policy.Derivation.{
  buffer_read_derivation_step-text, pair, parse_placeholder-text,
}
use acre_ledger_app.Policy.WalletId.{get_policy_wallet_id, get_policy_wallet_id-header_bytes}
use acre_ledger_app.Policy.Serialized.{IsHeader, header_bytes, read_wallet_policy_header-bytes}

abbrev text_buffer : List ℕ → Buffer
text_buffer text = record { ptr = text; size = length text; offset = 0 }

-- "44" and "1"
abbrev digits_44 : List ℕ
digits_44 = 4 ∷ 4 ∷ []

digits_44-IsNumeral : IsNumeral digits_44
digits_44-IsNumeral = record {
  some_digit = omega arith;
  digits = (omega arith, (omega arith, tt));
  no_leading_zero = λ e. absurd (omega arith);
  fits = omega arith;
}

abbrev digits_1 : List ℕ
digits_1 = 1 ∷ []

digits_1-IsNumeral : IsNumeral digits_1
digits_1-IsNumeral = record {
  some_digit = omega arith;
  digits = (omega arith, tt);
  no_leading_zero = λ e. refl;
  fits = omega arith;
}

parse_unsigned_decimal-numeral_example :
    (b' : Buffer) × (parse_unsigned_decimal (text_buffer (52 ∷ 52 ∷ 47 ∷ []))
      ≡ some (some (44, b')))
    × Holds b' (47 ∷ [])
unfolding is_digit
parse_unsigned_decimal-numeral_example =
    parse_unsigned_decimal-numeral digits_44 (text_buffer (52 ∷ 52 ∷ 47 ∷ [])) (47 ∷ [])
      digits_44-IsNumeral
      (record {
        valid = record {
          in_size = omega arith;
          in_memory = omega arith;
          small = omega arith;
          bytes = are_bytes-IsByte (52 ∷ 52 ∷ 47 ∷ []) refl;
        };
        same = refl;
      })
      refl

-- "44'/"
buffer_read_derivation_step-text_example :
    (b' : Buffer) × (buffer_read_derivation_step (text_buffer (52 ∷ 52 ∷ 39 ∷ 47 ∷ []))
      ≡ some (some (0x8000_002c, b')))
    × Holds b' (47 ∷ [])
buffer_read_derivation_step-text_example =
    buffer_read_derivation_step-text digits_44 true (text_buffer (52 ∷ 52 ∷ 39 ∷ 47 ∷ [])) (47 ∷ [])
      digits_44-IsNumeral (omega arith) (λ e. absurd (ground (arith, e)))
      (record {
        valid = record {
          in_size = omega arith;
          in_memory = omega arith;
          small = omega arith;
          bytes = are_bytes-IsByte (52 ∷ 52 ∷ 39 ∷ 47 ∷ []) refl;
        };
        same = refl;
      })

-- "@44/<44;1>/*"
abbrev placeholder_text : List ℕ
placeholder_text = 64 ∷ 52 ∷ 52 ∷ 47 ∷ 60 ∷ 52 ∷ 52 ∷ 59 ∷ 49 ∷ 62 ∷ 47 ∷ 42 ∷ []

parse_placeholder-text_example :
    (b' : Buffer) × (parse_placeholder 2 (text_buffer placeholder_text)
      ≡ some (some (record { key_index = 44; num_first = 44; num_second = 1 }, b')))
    × Holds b' []
parse_placeholder-text_example =
    parse_placeholder-text digits_44 (pair digits_44 digits_1) (text_buffer placeholder_text) []
      digits_44-IsNumeral (omega arith)
      (digits_44-IsNumeral, digits_1-IsNumeral, omega arith, omega arith, refl)
      (record {
        valid = record {
          in_size = omega arith;
          in_memory = omega arith;
          small = omega arith;
          bytes = are_bytes-IsByte placeholder_text refl;
        };
        same = refl;
      })

abbrev small_header : PolicyHeader
small_header = record {
  version = 1;
  name = 65 ∷ [];
  descriptor_template_len = 2;
  descriptor = 116 ∷ 114 ∷ [];
  n_keys = 1;
  keys_info_merkle_root = replicate 32 7;
}

small_header-IsHeader : IsHeader small_header
small_header-IsHeader = record {
  known = refl;
  short_name = omega arith;
  template_size = omega arith;
  descriptor_size = refl;
  few_keys = omega arith;
  root_size = refl;
}

abbrev header_text : List ℕ
header_text = 1 ∷ 1 ∷ 65 ∷ 2 ∷ 116 ∷ 114 ∷ 1 ∷ replicate 32 7

header_text-Holds : Holds (text_buffer header_text) (header_bytes small_header [])
unfolding varint_bytes le_bytes
header_text-Holds = record {
  valid = record {
    in_size = omega arith;
    in_memory = omega arith;
    small = omega arith;
    bytes = are_bytes-IsByte header_text refl;
  };
  same = refl;
}

read_wallet_policy_header-bytes_example :
    (b' : Buffer) × (read_wallet_policy_header (text_buffer header_text)
      ≡ some (some (small_header, b')))
    × Holds b' []
read_wallet_policy_header-bytes_example =
    read_wallet_policy_header-bytes small_header (text_buffer header_text) [] small_header-IsHeader
      header_text-Holds

-- "1fe0/" and the bytes 0x1f 0xe0
abbrev hex_1fe0 : List ℕ
hex_1fe0 = 49 ∷ 102 ∷ 101 ∷ 48 ∷ 47 ∷ []

buffer_read_hex_hash-hex_text_example :
    (b' : Buffer) × (buffer_read_hex_hash 2 (text_buffer hex_1fe0)
      ≡ some (some (0x1f ∷ 0xe0 ∷ [], b')))
    × Holds b' (47 ∷ [])
buffer_read_hex_hash-hex_text_example =
    buffer_read_hex_hash-hex_text (0x1f ∷ 0xe0 ∷ []) (text_buffer hex_1fe0) (47 ∷ [])
      (are_bytes-IsByte (0x1f ∷ 0xe0 ∷ []) refl)
      (record {
        valid = record {
          in_size = omega arith;
          in_memory = omega arith;
          small = omega arith;
          bytes = are_bytes-IsByte hex_1fe0 refl;
        };
        same = refl;
      })

-- A function in the place of SHA-256
abbrev first_32 : List ℕ → List ℕ
first_32 = take 32

get_policy_wallet_id-header_bytes_example :
    get_policy_wallet_id first_32 small_header ≡ some (first_32 (header_bytes small_header []))
get_policy_wallet_id-header_bytes_example =
    get_policy_wallet_id-header_bytes first_32 small_header small_header-IsHeader
