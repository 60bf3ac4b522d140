-- ===== src/Io/Tests.antt =====
-- The theorems on `io_add_to_response`.
use acre_ledger_app.Base.{ℕ, ◌≡◌, refl, none, some, List, [], ◌∷◌, replicate, length, arith}
use acre_ledger_app.Base.Blocks.{overwrite}
use acre_ledger_app.Io.{Io, add_to_response, add_to_response_rec}
use acre_ledger_app.Io.Response.{add_to_response-fits, add_to_response_rec-never_ends}

abbrev started : ℕ → Io
started n = record { apdu_buffer = replicate 260 0; output_len = n; sent = [] }

abbrev three_bytes : List ℕ
three_bytes = 1 ∷ 2 ∷ 3 ∷ []

add_to_response-fits_example :
    add_to_response three_bytes (length three_bytes) (started 10)
    ≡ some (record (started 10) {
      apdu_buffer = overwrite (replicate 260 0) 10 three_bytes;
      output_len = 13;
    })
add_to_response-fits_example =
    add_to_response-fits three_bytes (started 10) refl (omega arith) (omega arith)

add_to_response_rec-never_ends_example :
    add_to_response_rec 50 (replicate 100 7) 100 (started 200) ≡ none
add_to_response_rec-never_ends_example =
    add_to_response_rec-never_ends 50 (replicate 100 7) 100 (started 200) (omega arith)
      (omega arith) (omega arith) (omega arith)
