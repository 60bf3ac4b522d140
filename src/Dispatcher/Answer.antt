-- ===== src/Dispatcher/Answer.antt =====
-- Every command is answered, and reaches the handler that is registered for it.
use acre_ledger_app.Base.{ℕ, ◌≤◌, ◌≡◌, ◌⊎◌, inl, inr, refl, ap, ◌∙◌, arith}
use acre_ledger_app.Base.{
  Option, none, some, ◌>>=◌, List, [], ◌∷◌, ◌++◌, All, length, take, take-append, Bool, true, false,
  ◌&&◌, ◌==◌, ltb, if◌then◌else◌, Bool-cases,
}
use acre_ledger_app.Base.Blocks.{overwrite}
use mathlib.Core.Path.{subst}
use acre_ledger_app.Bytes.Values.{be_bytes, length-be_bytes}
use acre_ledger_app.Bytes.Writes.{write_u16_be-eq-overwrite}
use acre_ledger_app.Io.{Io, send_sw, finalize_response, reset_response, confirm_response}
use acre_ledger_app.Apdu.{Command}
use acre_ledger_app.Buffer
use acre_ledger_app.Dispatcher.{Context, cla_framework, ins_continue}
use acre_ledger_app.Dispatcher.Dispatch.{
  sw_bad_state, sw_cla_not_supported, sw_ins_not_supported, sw_wrong_p1p2, Handler, Descriptor,
  find_handler, io_send_sw, ensure_response, run_handler, apdu_dispatcher,
}

-- The bytes of a status word, sent
send_sw-sends :
    (sw : ℕ) (io : Io)
    → length io.apdu_buffer ≡ 260
    → (io' : Io) × (send_sw sw io ≡ some io') × (io'.sent ≡ io.sent ++ (be_bytes 2 sw ∷ []))
unfolding send_sw finalize_response reset_response confirm_response
send_sw-sends sw io size =
    let bs : List ℕ = be_bytes 2 sw in
    let buf : List ℕ = overwrite io.apdu_buffer 0 bs in
    let written = write_u16_be-eq-overwrite io.apdu_buffer 0 sw (omega arith) in
    let front : take 2 buf ≡ bs =
      subst (λ (n : ℕ). take n buf ≡ bs) (length-be_bytes 2 sw) (take-append bs _) in
    (
      record { apdu_buffer = buf; output_len = 0; sent = io.sent ++ (take 2 buf ∷ []) },
      rw written refl,
      ap (λ (b : List ℕ). io.sent ++ (b ∷ [])) front,
    )

-- A handler has given a status word, or the last message sent is one.
abbrev pub Answered : Context → Type 0
Answered dc =
    ((dc.sw == 0) ≡ false)
    ⊎ ((sw : ℕ) × (earlier : List (List ℕ)) × (dc.io.sent ≡ earlier ++ (be_bytes 2 sw ∷ [])))

abbrev pub HasBuffer : Context → Type 0
HasBuffer dc = length dc.io.apdu_buffer ≡ 260

-- A handler that returns, and does not leave the memory
abbrev pub Returns : Handler → Type 0
Returns handler =
    (p2 : ℕ) (dc : Context)
    → HasBuffer dc
    → (dc' : Context) × (handler p2 dc ≡ some dc') × HasBuffer dc'

abbrev pub HandlerReturns : Descriptor → Type 0
HandlerReturns d = Returns d.handler

io_send_sw-Answered :
    (sw : ℕ) (dc : Context)
    → HasBuffer dc
    → (dc' : Context) × (io_send_sw sw dc ≡ some dc') × Answered dc'
unfolding io_send_sw
io_send_sw-Answered sw dc size =
    let (io', run, sent) = send_sw-sends sw dc.io size in
    (record dc { io = io' }, rw run refl, inr (sw, dc.io.sent, sent))

ensure_response-Answered :
    (dc : Context) → HasBuffer dc → (dc' : Context) × (ensure_response dc ≡ some dc') × Answered dc'
unfolding ensure_response
ensure_response-Answered dc size = elim (Bool-cases (dc.sw == 0)) [
  | inl e ↦ rw e (io_send_sw-Answered sw_bad_state dc size)
  | inr e ↦ (dc, ap (λ (b : Bool). if b then io_send_sw sw_bad_state dc else some dc) e, inl e)
]

-- What the loop finds returns.
Finds : Bool × Option Handler → Type 0
Finds (found, none) = Unit
Finds (found, some handler) = Returns handler

find_handler-Finds :
    (ds : List Descriptor) (cla ins : ℕ) (found : Bool)
    → All HandlerReturns ds
    → Finds (find_handler ds cla ins found)
unfolding find_handler Finds
find_handler-Finds [] cla ins found h = tt
find_handler-Finds (d ∷ ds) cla ins found h = elim (Bool-cases (d.cla == cla)) [
  | inr e ↦ rw e (find_handler-Finds ds cla ins found h.1)
  | inl e ↦ elim (Bool-cases (d.ins == ins)) [
    | inr f ↦ rw (e, f) (find_handler-Finds ds cla ins true h.1)
    | inl f ↦ rw (e, f) h.0
  ]
]

run_handler-Answered :
    (r : Bool × Option Handler) (p2 : ℕ) (dc : Context)
    → Finds r
    → HasBuffer dc
    → (dc' : Context) × (run_handler r p2 dc ≡ some dc') × Answered dc'
unfolding run_handler Finds
run_handler-Answered (false, none) p2 dc h size = io_send_sw-Answered sw_cla_not_supported dc size
run_handler-Answered (true, none) p2 dc h size = io_send_sw-Answered sw_ins_not_supported dc size
run_handler-Answered (found, some handler) p2 dc h size =
    let (dc1, run, size1) = h p2 dc size in
    let (dc2, run', answered) = ensure_response-Answered dc1 size1 in
    (dc2, ap (λ o. o >>= ensure_response) run ∙ run', answered)

Answered-if :
    (b : Bool) (x y : Option Context)
    → ((dc' : Context) × (x ≡ some dc') × Answered dc')
    → ((dc' : Context) × (y ≡ some dc') × Answered dc')
    → (dc' : Context) × ((if b then x else y) ≡ some dc') × Answered dc'
Answered-if true x y h k = h
Answered-if false x y h k = k

-- Where every handler returns with the APDU buffer still in place, `apdu_dispatcher` returns for
-- every command, and the command is answered: either the handler has set a status word that is not
-- 0, or the last message sent is a status word alone.
pub apdu_dispatcher-Answered :
    (cmd_descriptors : List Descriptor) (cmd : Command) (dc : Context)
    → All HandlerReturns cmd_descriptors
    → HasBuffer dc
    → (dc' : Context) × (apdu_dispatcher cmd_descriptors cmd dc ≡ some dc') × Answered dc'
unfolding apdu_dispatcher
apdu_dispatcher-Answered cmd_descriptors cmd dc h size =
    let dc1 : Context = record dc { sw = 0; read_buffer = Buffer.create cmd.cdata cmd.lc } in
    let found = find_handler-Finds cmd_descriptors cmd.cla cmd.ins false h in
    Answered-if (ltb 1 cmd.p2) _ _ (io_send_sw-Answered sw_wrong_p1p2 dc1 size) (
      Answered-if (cmd.cla == cla_framework && cmd.ins == ins_continue) _ _
        (io_send_sw-Answered sw_bad_state dc1 size)
        (run_handler-Answered (find_handler cmd_descriptors cmd.cla cmd.ins false) cmd.p2 dc1 found
          size))

-- A descriptor that is not for the command
abbrev pub IsOther : ℕ → ℕ → Descriptor → Type 0
IsOther cla ins d = (d.cla == cla && d.ins == ins) ≡ false

find_handler-first :
    (before after : List Descriptor) (d : Descriptor) (found : Bool)
    → All (IsOther d.cla d.ins) before
    → find_handler (before ++ (d ∷ after)) d.cla d.ins found ≡ (true, some d.handler)
unfolding find_handler
find_handler-first [] after d found h =
    let cla : (d.cla == d.cla) ≡ true = ground arith in
    let ins : (d.ins == d.ins) ≡ true = ground arith in rw (cla, ins) refl
find_handler-first (x ∷ before) after d found h = elim (Bool-cases (x.cla == d.cla)) [
  | inr e ↦ rw e (find_handler-first before after d found h.1)
  | inl e ↦ elim (Bool-cases (x.ins == d.ins)) [
    | inr f ↦ rw (e, f) (find_handler-first before after d true h.1)
    | inl f ↦ absurd (ground (arith, h.0, e, f))
  ]
]

-- A command with a supported protocol version, which is not the framework's to continue, runs the
-- first handler that is registered for its class and instruction, on a buffer of the command's data
-- and with the status word 0, and none else; if the handler leaves the status word 0, the response
-- is SW_BAD_STATE.
pub apdu_dispatcher-first :
    (before after : List Descriptor) (d : Descriptor) (cmd : Command) (dc : Context)
    → cmd.cla ≡ d.cla
    → cmd.ins ≡ d.ins
    → cmd.p2 ≤ 1
    → (cmd.cla == cla_framework && cmd.ins == ins_continue) ≡ false
    → All (IsOther d.cla d.ins) before
    → apdu_dispatcher (before ++ (d ∷ after)) cmd dc ≡ (
        d.handler cmd.p2 (record dc { sw = 0; read_buffer = Buffer.create cmd.cdata cmd.lc })
        >>= λ dc'. if dc'.sw == 0 then io_send_sw sw_bad_state dc' else some dc')
unfolding apdu_dispatcher run_handler ensure_response
apdu_dispatcher-first before after d cmd dc cla ins version other h =
    let supported : ltb 1 cmd.p2 ≡ false = ground arith in
    let found : find_handler (before ++ (d ∷ after)) cmd.cla cmd.ins false
        ≡ (true, some d.handler) =
      rw (cla, ins) (find_handler-first before after d false h) in
    rw (supported, other, found) refl
