-- ===== src/Miniscript/Parser.antt =====
-- src/common/wallet.c: functions that read text and allocate nodes.
use acre_ledger_app.Base.{ℕ, Option, none, some, Bool, true, false}
use acre_ledger_app.Buffer
use acre_ledger_app.Buffer.{Buffer}
use acre_ledger_app.Policy.Reader.{Reader}

-- The structs that are allocated
pub data Struct : Type 0 where
  constant_t with_script_t with_script2_t with_script3_t with_key_t with_uint32_t : Struct
  multisig_t thresh_t scriptlist_t hash_160_t hash_256_t tr_t tree_t key_placeholder_t : Struct

-- The version of the wallet policy, the address of the output buffer and, from the compiler, the sizes
-- of the structs
pub record Setup : Type 0 where
  pub version : ℕ
  pub address : ℕ
  pub size_of : Struct → ℕ

-- The text in `in_buf`, and the nodes in `out_buf`, of which only the space is kept here: a node is the
-- value that a call returns. The outer `none` is an access outside the memory, the inner one -1.
abbrev pub Parser : Type 0 → Type 0
Parser A = Buffer → Buffer → Option (Option (A × Buffer × Buffer))

abbrev pub resume :
    {A B : Type 0}
    → Option (Option (A × Buffer × Buffer))
    → (A → Parser B)
    → Option (Option (B × Buffer × Buffer))
resume none f = none
resume (some none) f = some none
resume (some (some (a, in_buf, out_buf))) f = f a in_buf out_buf

infixl 5 ◌>>=◌
unfoldable pub ◌>>=◌ : {A B : Type 0} → Parser A → (A → Parser B) → Parser B
(m >>= f) in_buf out_buf = resume (m in_buf out_buf) f

unfoldable pub return : {A : Type 0} → A → Parser A
return a in_buf out_buf = some (some (a, in_buf, out_buf))

unfoldable pub fail : {A : Type 0} → Parser A
fail in_buf out_buf = some none

unfoldable pub fault : {A : Type 0} → Parser A
fault in_buf out_buf = none

unfoldable pub require : Bool → Parser (Unit {0})
require true = return tt
require false = fail

-- A value that may be missing
unfoldable pub lift : {A : Type 0} → Option A → Parser A
lift none = fail
lift (some a) = return a

abbrev with_out :
    {A : Type 0} → Option (Option (A × Buffer)) → Buffer → Option (Option (A × Buffer × Buffer))
with_out none out_buf = none
with_out (some none) out_buf = some none
with_out (some (some (a, in_buf))) out_buf = some (some (a, in_buf, out_buf))

-- A step on the text alone
abbrev pub read : {A : Type 0} → Reader A → Parser A
read f in_buf out_buf = with_out (f in_buf) out_buf

abbrev allocated : Option ℕ × Buffer → Buffer → Option (Option (Unit {0} × Buffer × Buffer))
allocated (none, out_buf) in_buf = some none
allocated (some p, out_buf) in_buf = some (some (tt, in_buf, out_buf))

-- `buffer_alloc`, and -1 where it returns NULL
unfoldable pub allocate : Setup → Struct → Parser (Unit {0})
allocate setup struct in_buf out_buf =
    allocated (Buffer.alloc setup.address out_buf (setup.size_of struct) true) in_buf

-- `buffer_alloc(out_buf, 0, true)`, whose result is not looked at
unfoldable pub align : Setup → Parser (Unit {0})
align setup in_buf out_buf = some (some (tt, in_buf, (Buffer.alloc setup.address out_buf 0 true).1))
