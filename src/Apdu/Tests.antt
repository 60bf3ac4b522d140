-- ===== src/Apdu/Tests.antt =====
-- The theorem on the parser of commands, at a command with two bytes of data.
use acre_ledger_app.Base.{ℕ, List, ◌≡◌, some, [], ◌∷◌, ◌++◌, length}
use acre_ledger_app.Apdu.{apdu_parser, command_of, apdu_parser-message}

abbrev two_bytes_command : List ℕ
two_bytes_command = 0xe1 ∷ 3 ∷ 0 ∷ 1 ∷ 2 ∷ 8 ∷ 9 ∷ []

apdu_parser-message_example :
    apdu_parser (two_bytes_command ++ (5 ∷ [])) (length two_bytes_command)
    ≡ some (command_of two_bytes_command (5 ∷ []))
apdu_parser-message_example = apdu_parser-message two_bytes_command (5 ∷ [])
