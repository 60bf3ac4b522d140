-- ===== src/Dispatcher/Dispatch.antt =====
-- src/boilerplate/dispatcher.c: `apdu_dispatcher`, less the timeout and the screens.
use acre_ledger_app.Base.{
  ℕ, Option, none, some, ◌>>=◌, List, [], ◌∷◌, Bool, true, false, not, ◌&&◌, ◌==◌, ltb,
  if◌then◌else◌,
}
use acre_ledger_app.Io
use acre_ledger_app.Apdu.{Command}
use acre_ledger_app.Buffer
use acre_ledger_app.Dispatcher.{Context, cla_framework, ins_continue}

-- `command_handler_t`: what the handler makes of the context, given `p2`. `none` is an access outside
-- the memory.
abbrev pub Handler : Type 0
Handler = ℕ → Context → Option Context

-- `command_descriptor_t`
pub record Descriptor : Type 0 where
  pub handler : Handler
  pub cla : ℕ
  pub ins : ℕ

-- The loop over the descriptors: `cla_found`, and the handler if `ins_found`
unfoldable pub find_handler : List Descriptor → ℕ → ℕ → Bool → Bool × Option Handler
find_handler [] cla ins cla_found = (cla_found, none)
find_handler (d ∷ cmd_descriptors) cla ins cla_found =
    if not (d.cla == cla)
    then find_handler cmd_descriptors cla ins cla_found
    else if not (d.ins == ins)
    then find_handler cmd_descriptors cla ins true
    else (true, some d.handler)

-- `io_send_sw`, which leaves `G_dispatcher_state.sw` as it is
unfoldable pub io_send_sw : ℕ → Context → Option Context
io_send_sw sw dc = Io.send_sw sw dc.io >>= λ io. some (record dc { io = io })

abbrev pub sw_wrong_p1p2 : ℕ
sw_wrong_p1p2 = 0x6a86

abbrev pub sw_ins_not_supported : ℕ
sw_ins_not_supported = 0x6d00

abbrev pub sw_cla_not_supported : ℕ
sw_cla_not_supported = 0x6e00

abbrev pub sw_bad_state : ℕ
sw_bad_state = 0xb007

abbrev current_protocol_version : ℕ
current_protocol_version = 1

-- The response that a handler has left out
unfoldable pub ensure_response : Context → Option Context
ensure_response dc = if dc.sw == 0 then io_send_sw sw_bad_state dc else some dc

unfoldable pub run_handler : Bool × Option Handler → ℕ → Context → Option Context
run_handler (false, none) p2 dc = io_send_sw sw_cla_not_supported dc
run_handler (true, none) p2 dc = io_send_sw sw_ins_not_supported dc
run_handler (cla_found, some handler) p2 dc = handler p2 dc >>= ensure_response

unfoldable pub apdu_dispatcher : List Descriptor → Command → Context → Option Context
apdu_dispatcher cmd_descriptors cmd dc =
    let dc : Context = record dc { sw = 0; read_buffer = Buffer.create cmd.cdata cmd.lc } in
    if ltb current_protocol_version cmd.p2
    then io_send_sw sw_wrong_p1p2 dc
    else if cmd.cla == cla_framework && cmd.ins == ins_continue
    then io_send_sw sw_bad_state dc
    else run_handler (find_handler cmd_descriptors cmd.cla cmd.ins false) cmd.p2 dc
