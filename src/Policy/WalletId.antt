-- ===== src/Policy/WalletId.antt =====
-- src/common/wallet.c: `get_policy_wallet_id`.
use acre_ledger_app.Base.{
  ℕ, ◌≡◌, refl, ap, ◌∙◌, sym, arith, Option, some, ◌>>=◌, List, [], ◌∷◌, ◌++◌, append-nil, length,
  take, take-length, load_bytes, ◌==◌, if◌then◌else◌,
}
use acre_ledger_app.Base.Blocks.{load_bytes-eq-take}
use acre_ledger_app.Rawtx.State.{encode_varint}
use acre_ledger_app.Rawtx.Hash.{encode_varint-eq}
use acre_ledger_app.Policy.Header.{PolicyHeader}
use acre_ledger_app.Policy.Serialized.{IsHeader, header_bytes}

-- The bytes that `crypto_hash_update` adds, in order
unfoldable pub hashed_bytes : PolicyHeader → Option (List ℕ)
hashed_bytes wallet_header = do
  name ← load_bytes wallet_header.name 0 (length wallet_header.name)
  template_len ← encode_varint wallet_header.descriptor_template_len
  descriptor ←
      load_bytes wallet_header.descriptor 0
        (if wallet_header.version == 1 then wallet_header.descriptor_template_len else 32)
  n_keys ← encode_varint wallet_header.n_keys
  root ← load_bytes wallet_header.keys_info_merkle_root 0 32
  some (
      wallet_header.version
      ∷ length wallet_header.name
      ∷ (name ++ (template_len ++ (descriptor ++ (n_keys ++ root)))))

-- `sha256` is the hash of the SDK.
unfoldable pub get_policy_wallet_id : (List ℕ → List ℕ) → PolicyHeader → Option (List ℕ)
get_policy_wallet_id sha256 wallet_header =
    hashed_bytes wallet_header >>= λ bytes. some (sha256 bytes)

all_bytes : (xs : List ℕ) (n : ℕ) → length xs ≡ n → load_bytes xs 0 n ≡ some xs
all_bytes xs n e =
    load_bytes-eq-take xs 0 n (omega (arith, e))
    ∙ ap some (ap (λ (n : ℕ). take n xs) (sym e) ∙ take-length xs)

-- The id of a wallet policy is the SHA-256 of its serialization, the bytes that
-- `read_wallet_policy_header` reads the header from: the version, the name with its length, the
-- template or its hash with the length of the template, the number of keys and the root of the keys.
pub get_policy_wallet_id-header_bytes :
    (sha256 : List ℕ → List ℕ) (h : PolicyHeader)
    → IsHeader h
    → get_policy_wallet_id sha256 h ≡ some (sha256 (header_bytes h []))
unfolding get_policy_wallet_id hashed_bytes
get_policy_wallet_id-header_bytes sha256 h ok =
    rw
      (
        all_bytes h.name (length h.name) refl,
        encode_varint-eq h.descriptor_template_len,
        all_bytes h.descriptor (if h.version == 1 then h.descriptor_template_len else 32)
            ok.descriptor_size,
        encode_varint-eq h.n_keys,
        all_bytes h.keys_info_merkle_root 32 ok.root_size,
        append-nil h.keys_info_merkle_root,
      )
      refl
