-- ===== src/Dispatcher.antt =====
-- src/boilerplate/dispatcher.c and dispatcher.h: the context that a command handler works in, and
-- the exchange with the host in the middle of a command.
pub mod Inversion
pub mod Dispatch
pub mod Answer
mod Tests
use acre_ledger_app.Base.{ℕ, ◌+◌, ◌-◌, Option, none, some, List, [], ◌∷◌, ◌++◌, length, take, drop}
use acre_ledger_app.Base.{Memory, ◌==◌, if◌then◌else◌, ◌&&◌, not, Bool, true, false}
use acre_ledger_app.Base.Blocks.{overwrite}
use acre_ledger_app.Io
use acre_ledger_app.Io.{Io}
use acre_ledger_app.Apdu.{Command, apdu_parser}
use acre_ledger_app.Buffer
use acre_ledger_app.Buffer.{Buffer}

-- What a call returns: a value, or the negative number -k.
pub data Ret {ℓ} (A : Type ℓ) : Type ℓ where
  ok : A → Ret A
  fail : ℕ → Ret A

-- The dispatcher's context: the buffer of the last command, the APDU buffer, `G_dispatcher_state.sw`,
-- and the messages that the host will send, in order. When there is none left, `io_exchange` fails.
pub record Context : Type 0 where
  pub read_buffer : Buffer
  pub io : Io
  pub sw : ℕ
  pub host : List (List ℕ)

-- A call with the context. `none` is an access outside the memory.
abbrev pub M : Type 0 → Type 0
M A = Context → Option (Ret A × Context)

infixl 5 ◌>>=◌ ◌>>◌
unfoldable pub ◌>>=◌ : {A B : Type 0} → M A → (A → M B) → M B
◌>>=◌ m f dc = elim (m dc) [
  | none ↦ none
  | some (r, dc') ↦ elim r [ ok a ↦ f a dc' | fail k ↦ some (fail k, dc') ]
]

abbrev pub ◌>>◌ : {B : Type 0} → M (Unit {0}) → M B → M B
m >> k = m >>= λ _. k

unfoldable pub return : {A : Type 0} → A → M A
return a dc = some (ok a, dc)

unfoldable pub return_error : {A : Type 0} → ℕ → M A
return_error k dc = some (fail k, dc)

-- An access to memory in the middle of a call
unfoldable pub lift : {A : Type 0} → Option A → M A
lift o dc = elim o [ none ↦ none | some a ↦ some (ok a, dc) ]

-- `if (call() < 0) return -k;`
unfoldable pub or_return : {A : Type 0} → M A → ℕ → M A
or_return m k dc = elim (m dc) [
  | none ↦ none
  | some (r, dc') ↦ elim r [ ok a ↦ some (ok a, dc') | fail j ↦ some (fail k, dc') ]
]

-- `if (!test) return -k;`
unfoldable pub require : Bool → ℕ → M (Unit {0})
unfolding return return_error
require true k = return tt
require false k = return_error k

-- A step on the response under construction
abbrev on_io : (Io → Option Io) → M (Unit {0})
on_io f dc = elim (f dc.io) [ none ↦ none | some io ↦ some (ok tt, record dc { io = io }) ]

unfoldable pub add_to_response : List ℕ → M (Unit {0})
add_to_response rdata = on_io (Io.add_to_response rdata (length rdata))

unfoldable pub finalize_response : ℕ → M (Unit {0})
finalize_response sw dc = on_io (Io.finalize_response sw) (record dc { sw = sw })

unfoldable pub send_response : M (Unit {0})
send_response = on_io (λ io. some (Io.confirm_response io))

unfoldable pub send_sw : ℕ → M (Unit {0})
unfolding finalize_response send_response ◌>>=◌
send_sw sw = do finalize_response sw; send_response

unfoldable pub set_response : List ℕ → ℕ → M (Unit {0})
unfolding add_to_response finalize_response ◌>>=◌
set_response rdata sw = do add_to_response rdata; finalize_response sw

abbrev cla_framework : ℕ
cla_framework = 0xf8

abbrev ins_continue : ℕ
ins_continue = 0x01

abbrev sw_wrong_data_length : ℕ
sw_wrong_data_length = 0x6a87

abbrev sw_incorrect_data : ℕ
sw_incorrect_data = 0x6a80

abbrev pub sw_interrupted_execution : ℕ
sw_interrupted_execution = 0xe000

-- What `io_exchange` does: the response goes out and the next message comes in, at the start of the
-- APDU buffer. `fail` is a negative result.
unfoldable pub exchange : M ℕ
exchange dc = elim dc.host [
  | [] ↦ some (fail 1, dc)
  | msg ∷ rest ↦ some (
    ok (length msg),
    record dc {
      io = record (Io.confirm_response dc.io) { apdu_buffer = overwrite dc.io.apdu_buffer 0 msg };
      host = rest;
      sw = 0;
    },
  )
]

-- The check of the message that came in
accept_command : Option Command → M (Unit {0})
unfolding send_sw return_error ◌>>=◌
accept_command none = do send_sw sw_wrong_data_length; return_error 1
accept_command (some cmd) =
    if not (cmd.cla == cla_framework && cmd.ins == ins_continue)
    then (do send_sw sw_incorrect_data; return_error 1)
    else (λ dc. some (ok tt, record dc { read_buffer = Buffer.create cmd.cdata cmd.lc }))

parse_command : ℕ → M (Option Command)
parse_command input_len dc = elim (apdu_parser dc.io.apdu_buffer input_len) [
  | none ↦ none
  | some cmd ↦ some (ok cmd, dc)
]

unfoldable pub process_interruption : M (Unit {0})
unfolding exchange accept_command parse_command ◌>>=◌ or_return
process_interruption = do
  input_len ← or_return exchange 1
  cmd ← parse_command input_len
  accept_command cmd

-- The calls on `dc->read_buffer`. A handler returns the code of its choice where one fails.
abbrev read_step : {A : Type 0} → (Buffer → Option (Bool × A × Buffer)) → M A
read_step f dc = elim (f dc.read_buffer) [
  | none ↦ none
  | some (done, a, b) ↦ some (if done then ok a else fail 1, record dc { read_buffer = b })
]

unfoldable pub read_u8 : M ℕ
read_u8 = read_step Buffer.read_u8

unfoldable pub read_varint : M ℕ
read_varint = read_step Buffer.read_varint

unfoldable pub read_bytes : ℕ → M (List ℕ)
read_bytes n dc = elim (Buffer.read_bytes dc.read_buffer n) [
  | none ↦ none
  | some none ↦ some (fail 1, dc)
  | some (some (out, b)) ↦ some (ok out, record dc { read_buffer = b })
]

unfoldable pub can_read : ℕ → M (Unit {0})
unfolding require return return_error
can_read n dc = require (Buffer.can_read dc.read_buffer n) 1 dc
