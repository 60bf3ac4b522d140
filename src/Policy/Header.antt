-- ===== src/Policy/Header.antt =====
-- The header of a serialized wallet policy.
use acre_ledger_app.Base.{ℕ, ◌%◌, ◌^◌, List, ◌||◌, ◌==◌, leb, if◌then◌else◌}
use acre_ledger_app.Policy.Reader.{Reader, ◌>>=◌, return, read_u8, read_varint, read_bytes, require}

-- `policy_map_wallet_header_t`. `descriptor` is the member of the union: the template in version 1,
-- its SHA-256 in version 2.
pub record PolicyHeader : Type 0 where
  pub version : ℕ
  pub name : List ℕ
  pub descriptor_template_len : ℕ
  pub descriptor : List ℕ
  pub n_keys : ℕ
  pub keys_info_merkle_root : List ℕ

-- The template or its hash
unfoldable pub read_descriptor : ℕ → ℕ → Reader (List ℕ)
read_descriptor version descriptor_template_len =
    if version == 1
    then (do
      _ ← require (leb descriptor_template_len 40)
      read_bytes (descriptor_template_len % 2 ^ 16))
    else (do _ ← require (leb descriptor_template_len 512); read_bytes 32)

-- MAX_WALLET_NAME_LENGTH is 64.
unfoldable pub read_wallet_policy_header : Reader PolicyHeader
read_wallet_policy_header = do
  version ← read_u8
  _ ← require (version == 1 || version == 2)
  name_len ← read_u8
  _ ← require (leb name_len 64)
  name ← read_bytes name_len
  descriptor_template_len ← read_varint
  descriptor ← read_descriptor version descriptor_template_len
  n_keys ← read_varint
  _ ← require (leb n_keys 252)
  keys_info_merkle_root ← read_bytes 32
  return (record {
    version = version;
    name = name;
    descriptor_template_len = descriptor_template_len % 2 ^ 16;
    descriptor = descriptor;
    n_keys = n_keys % 2 ^ 16;
    keys_info_merkle_root = keys_info_merkle_root;
  })
