-- ===== src/Miniscript/Token.antt =====
-- src/common/wallet.c: the words of descriptor templates.
use acre_ledger_app.Base
use acre_ledger_app.Base.{
  ℕ, zero, suc, ◌+◌, Option, none, some, List, [], ◌∷◌, Bool, true, false, ◌&&◌, ◌||◌, ◌==◌,
  if◌then◌else◌,
}
use acre_ledger_app.Buffer
use acre_ledger_app.Policy.Reader.{Reader, ◌>>=◌, return, fail, fault, peek, seek_cur}
use acre_ledger_app.Policy.Text.{is_alphanumeric}
use acre_ledger_app.Miniscript.Node.{
  PolicyNodeType, token_sh, token_wsh, token_pk, token_pkh, token_wpkh, token_multi, token_multi_a,
  token_sortedmulti, token_sortedmulti_a, token_tr, token_0, token_1, token_pk_k, token_pk_h,
  token_older, token_after, token_sha256, token_hash256, token_ripemd160, token_hash160,
  token_andor, token_and_v, token_and_b, token_and_n, token_or_b, token_or_c, token_or_d,
  token_or_i, token_thresh, token_a, token_s, token_c, token_t, token_d, token_v, token_j, token_n,
  token_l, token_u,
}

-- KNOWN_TOKENS: the names are the codes of their characters.
abbrev known_tokens : List (PolicyNodeType × List ℕ)
known_tokens =
    (token_sh, 115 ∷ 104 ∷ [])
    ∷ (token_wsh, 119 ∷ 115 ∷ 104 ∷ [])
    ∷ (token_pkh, 112 ∷ 107 ∷ 104 ∷ [])
    ∷ (token_wpkh, 119 ∷ 112 ∷ 107 ∷ 104 ∷ [])
    ∷ (token_multi, 109 ∷ 117 ∷ 108 ∷ 116 ∷ 105 ∷ [])
    ∷ (token_multi_a, 109 ∷ 117 ∷ 108 ∷ 116 ∷ 105 ∷ 95 ∷ 97 ∷ [])
    ∷ (token_sortedmulti, 115 ∷ 111 ∷ 114 ∷ 116 ∷ 101 ∷ 100 ∷ 109 ∷ 117 ∷ 108 ∷ 116 ∷ 105 ∷ [])
    ∷ (
      token_sortedmulti_a,
      115 ∷ 111 ∷ 114 ∷ 116 ∷ 101 ∷ 100 ∷ 109 ∷ 117 ∷ 108 ∷ 116 ∷ 105 ∷ 95 ∷ 97 ∷ [],
    )
    ∷ (token_tr, 116 ∷ 114 ∷ [])
    ∷ (token_0, 48 ∷ [])
    ∷ (token_1, 49 ∷ [])
    ∷ (token_pk, 112 ∷ 107 ∷ [])
    ∷ (token_pk_k, 112 ∷ 107 ∷ 95 ∷ 107 ∷ [])
    ∷ (token_pk_h, 112 ∷ 107 ∷ 95 ∷ 104 ∷ [])
    ∷ (token_older, 111 ∷ 108 ∷ 100 ∷ 101 ∷ 114 ∷ [])
    ∷ (token_after, 97 ∷ 102 ∷ 116 ∷ 101 ∷ 114 ∷ [])
    ∷ (token_sha256, 115 ∷ 104 ∷ 97 ∷ 50 ∷ 53 ∷ 54 ∷ [])
    ∷ (token_hash256, 104 ∷ 97 ∷ 115 ∷ 104 ∷ 50 ∷ 53 ∷ 54 ∷ [])
    ∷ (token_ripemd160, 114 ∷ 105 ∷ 112 ∷ 101 ∷ 109 ∷ 100 ∷ 49 ∷ 54 ∷ 48 ∷ [])
    ∷ (token_hash160, 104 ∷ 97 ∷ 115 ∷ 104 ∷ 49 ∷ 54 ∷ 48 ∷ [])
    ∷ (token_andor, 97 ∷ 110 ∷ 100 ∷ 111 ∷ 114 ∷ [])
    ∷ (token_and_v, 97 ∷ 110 ∷ 100 ∷ 95 ∷ 118 ∷ [])
    ∷ (token_and_b, 97 ∷ 110 ∷ 100 ∷ 95 ∷ 98 ∷ [])
    ∷ (token_and_n, 97 ∷ 110 ∷ 100 ∷ 95 ∷ 110 ∷ [])
    ∷ (token_or_b, 111 ∷ 114 ∷ 95 ∷ 98 ∷ [])
    ∷ (token_or_c, 111 ∷ 114 ∷ 95 ∷ 99 ∷ [])
    ∷ (token_or_d, 111 ∷ 114 ∷ 95 ∷ 100 ∷ [])
    ∷ (token_or_i, 111 ∷ 114 ∷ 95 ∷ 105 ∷ [])
    ∷ (token_thresh, 116 ∷ 104 ∷ 114 ∷ 101 ∷ 115 ∷ 104 ∷ [])
    ∷ []

abbrev same_word : List ℕ → List ℕ → Bool
same_word [] [] = true
same_word (c ∷ cs) (d ∷ ds) = c == d && same_word cs ds
same_word _ _ = false

abbrev find_token : List (PolicyNodeType × List ℕ) → List ℕ → Option PolicyNodeType
find_token [] word = none
find_token (t ∷ ts) word =
    let rest = find_token ts word in if same_word t.1 word then some t.0 else rest

abbrev is_word_character : ℕ → Bool
is_word_character c = is_alphanumeric c || c == 95

abbrev word_character : Option ℕ → Option ℕ
word_character none = none
word_character (some c) = if is_word_character c then some c else none

-- At most `out_len` characters
unfoldable pub read_token : ℕ → Reader (List ℕ)
read_token zero = return []
read_token (suc out_len) = do
  c ← peek
  elim (word_character c) [
    | none ↦ return []
    | some c ↦ do _ ← seek_cur 1; rest ← read_token out_len; return (c ∷ rest)
  ]

-- MAX_TOKEN_LENGTH
abbrev max_token_length : ℕ
max_token_length = 13

-- A failure is TOKEN_INVALID.
unfoldable pub parse_token : Reader PolicyNodeType
parse_token = do
  word ← read_token max_token_length
  elim (find_token known_tokens word) [ none ↦ fail | some token ↦ return token ]

-- `is_valid_miniscript_wrapper`, and the token of a wrapper
abbrev pub wrapper_token : ℕ → Option PolicyNodeType
wrapper_token c =
    if c == 97
    then some token_a
    else if c == 115
    then some token_s
    else if c == 99
    then some token_c
    else if c == 116
    then some token_t
    else if c == 100
    then some token_d
    else if c == 118
    then some token_v
    else if c == 106
    then some token_j
    else if c == 110
    then some token_n
    else if c == 108
    then some token_l
    else if c == 117
    then some token_u
    else none

abbrev is_wrapper : Option ℕ → Bool
is_wrapper none = false
is_wrapper (some c) = elim (wrapper_token c) [ none ↦ false | some t ↦ true ]

-- Looks ahead: the number of characters that may be wrappers, and the character behind them. The first
-- argument bounds the rounds.
unfoldable pub count_wrappers : ℕ → ℕ → Reader (ℕ × Option ℕ)
count_wrappers zero n_wrappers = fault
count_wrappers (suc fuel) n_wrappers = do
  c ← λ in_buf. Base.◌>>=◌ (Buffer.peek_n in_buf n_wrappers) λ c. some (some (c, in_buf))
  if is_wrapper c then count_wrappers fuel (n_wrappers + 1) else return (n_wrappers, c)
