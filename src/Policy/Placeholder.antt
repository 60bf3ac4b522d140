-- ===== src/Policy/Placeholder.antt =====
-- The key placeholders of a wallet policy.
use acre_ledger_app.Base.{ℕ, Option, none, some, [], ◌∷◌}
use acre_ledger_app.Base.{not, ◌==◌, leb, if◌then◌else◌}
use acre_ledger_app.Policy.Reader.{Reader, ◌>>=◌, return, fail, peek, seek_cur, read_u8, require}
use acre_ledger_app.Policy.Text.{consume_character, consume_characters, parse_unsigned_decimal}

-- `policy_node_key_placeholder_t`
pub record KeyPlaceholder : Type 0 where
  pub key_index : ℕ
  pub num_first : ℕ
  pub num_second : ℕ

-- What follows the key index in version 2: "**", or "<M;N>/*" with numbers that differ
unfoldable pub read_derivation_pair : ℕ → Reader KeyPlaceholder
read_derivation_pair key_index = do
  num_first ← parse_unsigned_decimal
  _ ← require (leb num_first 0x8000_0000)
  semicolon ← consume_character 59
  _ ← require semicolon
  num_second ← parse_unsigned_decimal
  _ ← require (leb num_second 0x8000_0000)
  _ ← require (not (num_first == num_second))
  closed ← consume_characters (62 ∷ 47 ∷ 42 ∷ [])
  _ ← require closed
  return (record { key_index = key_index; num_first = num_first; num_second = num_second })

unfoldable pub read_wildcard : ℕ → Reader KeyPlaceholder
read_wildcard key_index = do
  stars ← consume_characters (42 ∷ 42 ∷ [])
  _ ← require stars
  return (record { key_index = key_index; num_first = 0; num_second = 1 })

-- By the character that comes next: '*' or '<'
unfoldable pub read_derivation : ℕ → Option ℕ → Reader KeyPlaceholder
read_derivation key_index none = fail
read_derivation key_index (some next_character) =
    if next_character == 42
    then read_wildcard key_index
    else if next_character == 60
    then (do _ ← seek_cur 1; read_derivation_pair key_index)
    else fail

-- What follows the key index, by the version
unfoldable pub read_suffix : ℕ → ℕ → Reader KeyPlaceholder
read_suffix version key_index =
    if version == 1
    then return (record { key_index = key_index; num_first = 0; num_second = 1 })
    else if version == 2
    then (do
      slash ← consume_character 47
      _ ← require slash
      next_character ← peek
      read_derivation key_index next_character)
    else fail

unfoldable pub parse_placeholder : ℕ → Reader KeyPlaceholder
parse_placeholder version = do
  c ← read_u8
  _ ← require (c == 64)
  k ← parse_unsigned_decimal
  _ ← require (leb k 32767)
  read_suffix version k
