-- ===== src/Dispatcher/Tests.antt =====
-- src/boilerplate/dispatcher.c: commands on concrete inputs.
use acre_ledger_app.Base.{
  ℕ, ◌≡◌, refl, arith, some, ◌>>=◌, [], ◌∷◌, length-replicate, replicate, ◌==◌, if◌then◌else◌,
}
use acre_ledger_app.Apdu.{Command}
use acre_ledger_app.Buffer
use acre_ledger_app.Dispatcher.{Context}
use acre_ledger_app.Dispatcher.Dispatch.{
  Handler, Descriptor, io_send_sw, sw_bad_state, apdu_dispatcher,
}
use acre_ledger_app.Dispatcher.Answer.{
  Answered, HandlerReturns, apdu_dispatcher-Answered, apdu_dispatcher-first,
}

abbrev idle : Context
idle = record {
  read_buffer = Buffer.create [] 0;
  io = record { apdu_buffer = replicate 260 0; output_len = 0; sent = [] };
  sw = 0;
  host = [];
}

-- A handler that answers that all is well, and one that forgets to answer
abbrev answers : Handler
answers p2 dc = some (record dc { sw = 0x9000 })

abbrev forgets : Handler
forgets p2 dc = some dc

abbrev get_pubkey : Descriptor
get_pubkey = record { handler = answers; cla = 0xe1; ins = 0 }

abbrev sign : Descriptor
sign = record { handler = forgets; cla = 0xe1; ins = 4 }

abbrev sign_command : Command
sign_command = record { cla = 0xe1; ins = 4; p1 = 0; p2 = 1; lc = 2; cdata = 7 ∷ 8 ∷ [] }

get_pubkey-HandlerReturns : HandlerReturns get_pubkey
get_pubkey-HandlerReturns p2 dc size = (record dc { sw = 0x9000 }, refl, size)

sign-HandlerReturns : HandlerReturns sign
sign-HandlerReturns p2 dc size = (dc, refl, size)

apdu_dispatcher-Answered_example :
    (dc' : Context) × (apdu_dispatcher (get_pubkey ∷ sign ∷ []) sign_command idle ≡ some dc')
    × Answered dc'
apdu_dispatcher-Answered_example =
    apdu_dispatcher-Answered (get_pubkey ∷ sign ∷ []) sign_command idle
      (get_pubkey-HandlerReturns, (sign-HandlerReturns, tt)) (length-replicate {A = ℕ} 260 0)

apdu_dispatcher-first_example : apdu_dispatcher (get_pubkey ∷ sign ∷ []) sign_command idle ≡ (
    forgets 1 (record idle { sw = 0; read_buffer = Buffer.create (7 ∷ 8 ∷ []) 2 }) >>= λ dc'.
    if dc'.sw == 0 then io_send_sw sw_bad_state dc' else some dc')
apdu_dispatcher-first_example =
    apdu_dispatcher-first (get_pubkey ∷ []) [] sign sign_command idle refl refl (omega arith) refl
      (refl, tt)
