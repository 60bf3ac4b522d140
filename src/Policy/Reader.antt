-- ===== src/Policy/Reader.antt =====
-- Functions of wallet.c that read a buffer and return -1 where they fail.
use acre_ledger_app.Base
use acre_ledger_app.Base.{ℕ, List, Option, none, some, Bool, true, false}
use acre_ledger_app.Buffer
use acre_ledger_app.Buffer.{Buffer}

-- The outer `none` is an access outside the memory, the inner one a failure.
abbrev pub Reader : Type 0 → Type 0
Reader A = Buffer → Option (Option (A × Buffer))

abbrev pub resume :
    {A B : Type 0} → Option (Option (A × Buffer)) → (A → Reader B) → Option (Option (B × Buffer))
resume none f = none
resume (some none) f = some none
resume (some (some (a, buffer))) f = f a buffer

infixl 5 ◌>>=◌
abbrev pub ◌>>=◌ : {A B : Type 0} → Reader A → (A → Reader B) → Reader B
(m >>= f) buffer = resume (m buffer) f

abbrev pub return : {A : Type 0} → A → Reader A
return a buffer = some (some (a, buffer))

abbrev pub fail : {A : Type 0} → Reader A
fail buffer = some none

abbrev pub fault : {A : Type 0} → Reader A
fault buffer = none

-- A read whose result is a Boolean and the value
abbrev pub flagged : {A : Type 0} → Option (Bool × A × Buffer) → Option (Option (A × Buffer))
flagged none = none
flagged (some (true, a, buffer)) = some (some (a, buffer))
flagged (some (false, a, buffer)) = some none

abbrev pub read_u8 : Reader ℕ
read_u8 buffer = flagged (Buffer.read_u8 buffer)

abbrev pub read_varint : Reader ℕ
read_varint buffer = flagged (Buffer.read_varint buffer)

abbrev pub read_bytes : ℕ → Reader (List ℕ)
read_bytes n buffer = Buffer.read_bytes buffer n

-- The next byte, without moving on; `none` at the end
abbrev pub peek : Reader (Option ℕ)
peek buffer = Base.◌>>=◌ (Buffer.peek buffer) λ c. some (some (c, buffer))

abbrev pub can_read : ℕ → Reader Bool
can_read n = λ buffer. some (some (Buffer.can_read buffer n, buffer))

-- `buffer_seek_cur`, whose result the callers do not look at
abbrev pub seek_cur : ℕ → Reader (Unit {0})
seek_cur n buffer = some (some (tt, (Buffer.seek_cur buffer n).1))

abbrev pub require : Bool → Reader (Unit {0})
require true = return tt
require false = fail
