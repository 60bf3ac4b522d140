-- ===== src/Apdu.antt =====
-- src/boilerplate/apdu_parser.c: the header of a command.
mod Tests
use acre_ledger_app.Base.{
  ℕ, ◌+◌, ◌-◌, ◌≤◌, ◌<◌, ◌≡◌, refl, ◌∙◌, Option, none, some, ◌>>=◌, List, [], ◌∷◌, drop, length,
  ◌++◌,
}
use acre_ledger_app.Base.{Memory, load, ltb, ◌==◌, if◌then◌else◌, not, Bool, true, false, arith}

-- `command_t`; `cdata` is the memory from the field `data` on, empty for NULL.
pub record Command : Type 0 where
  pub cla : ℕ
  pub ins : ℕ
  pub p1 : ℕ
  pub p2 : ℕ
  pub lc : ℕ
  pub cdata : Memory

-- The inner `none` is the result false.
unfoldable pub apdu_parser : Memory → ℕ → Option (Option Command)
apdu_parser buf buf_len = if ltb buf_len 5 then some none else do
  lc ← load buf 4
  if not (buf_len - 5 == lc) then some none else do
    cla ← load buf 0
    ins ← load buf 1
    p1 ← load buf 2
    p2 ← load buf 3
    some (
        some (record {
          cla = cla;
          ins = ins;
          p1 = p1;
          p2 = p2;
          lc = lc;
          cdata = if ltb 0 lc then drop 5 buf else [];
        }))

-- What a message stands for, when `more` is behind it in the memory
abbrev pub command_of : List ℕ → List ℕ → Option Command
command_of (cla ∷ ins ∷ p1 ∷ p2 ∷ lc ∷ data_bytes) more =
    if length data_bytes == lc
    then some (record {
      cla = cla;
      ins = ins;
      p1 = p1;
      p2 = p2;
      lc = lc;
      cdata = if ltb 0 lc then data_bytes ++ more else [];
    })
    else none
command_of _ more = none

-- On a message of any length, also one shorter than a header, whatever is behind it in the memory:
-- it is a command exactly when it has a header of five bytes and the fifth byte counts the bytes
-- behind the header; those are then the data. No byte is read that is not there.
pub apdu_parser-message :
    (message more : List ℕ)
    → apdu_parser (message ++ more) (length message) ≡ some (command_of message more)
unfolding apdu_parser
apdu_parser-message [] more = refl
apdu_parser-message (cla ∷ []) more = refl
apdu_parser-message (cla ∷ ins ∷ []) more = refl
apdu_parser-message (cla ∷ ins ∷ p1 ∷ []) more = refl
apdu_parser-message (cla ∷ ins ∷ p1 ∷ p2 ∷ []) more = refl
apdu_parser-message (cla ∷ ins ∷ p1 ∷ p2 ∷ lc ∷ d) more =
    let long : ltb (length (cla ∷ ins ∷ p1 ∷ p2 ∷ lc ∷ d)) 5 ≡ false = ground arith in
    let rest : length (cla ∷ ins ∷ p1 ∷ p2 ∷ lc ∷ d) - 5 ≡ length d = omega arith in
    ground (arith, long, rest)
