-- ===== src/Rawtx/Tests.antt =====
-- The theorem on whole transactions, at one with an input, an output and a witness.
use acre_ledger_app.Base.{ℕ, ◌≡◌, refl, arith}
use acre_ledger_app.Base.{some, List, [], ◌∷◌, ◌++◌, take, drop, replicate}
use acre_ledger_app.Bytes.Check.{are_bytes-IsByte}
use acre_ledger_app.Bytes.Values.{le_bytes}
use acre_ledger_app.Varint.Format.{varint_bytes}
use acre_ledger_app.Parser.{Buffers, next, parser_run}
use acre_ledger_app.Rawtx.State.{TxState, TxOutputs}
use acre_ledger_app.Rawtx.Whole.{parse_rawtx_steps, fresh_state}
use acre_ledger_app.Rawtx.Format.{Tx, TxOut, tx_bytes, txid_preimage, IsTx}
use acre_ledger_app.Rawtx.Consume.{IsStream}
use acre_ledger_app.Rawtx.Tx.{parser_run-tx_bytes}

abbrev small_output : TxOut
small_output = record { value = 50000; script_pubkey = 0x00 ∷ 0x01 ∷ 0xab ∷ [] }

abbrev small_tx : Tx
small_tx = record {
  version = 2 ∷ 0 ∷ 0 ∷ 0 ∷ [];
  inputs =
      record {
        txid = replicate 32 7;
        vout = 1 ∷ 0 ∷ 0 ∷ 0 ∷ [];
        script_sig = 0x51 ∷ [];
        sequence = replicate 4 255;
      }
      ∷ [];
  outputs = small_output ∷ [];
  witnesses = some (((9 ∷ 8 ∷ []) ∷ []) ∷ []);
  locktime = replicate 4 0;
}

small_tx-IsTx : IsTx small_tx
small_tx-IsTx = record {
  version_size = refl;
  some_input = omega arith;
  few_inputs = omega arith;
  inputs_ok = (
    record { txid_size = refl; vout_size = refl; small = omega arith; sequence_size = refl },
    tt,
  );
  few_outputs = omega arith;
  outputs_ok = (record { amount = omega arith; small = omega arith }, tt);
  witnesses_ok = (refl, (record { few = omega arith; elements = (omega arith, tt) }, tt));
  locktime_size = refl;
}

-- The transaction and one byte more, the first 40 bytes in the first buffer
stored : List ℕ
stored = tx_bytes small_tx ++ (0xee ∷ [])

abbrev stored_buffers : Buffers
stored_buffers = record {
  buffer0 = record { ptr = take 40 stored; size = 40; offset = 0 };
  buffer1 = record { ptr = drop 40 stored; size = 31; offset = 0 };
}

stored_buffers-IsStream : IsStream stored_buffers (tx_bytes small_tx ++ (0xee ∷ []))
unfolding stored varint_bytes le_bytes
stored_buffers-IsStream = record {
  valid0 = record {
    in_size = omega arith;
    in_memory = omega arith;
    small = omega arith;
    bytes = are_bytes-IsByte stored_buffers.buffer0.ptr refl;
  };
  valid1 = record {
    in_size = omega arith;
    in_memory = omega arith;
    small = omega arith;
    bytes = are_bytes-IsByte stored_buffers.buffer1.ptr refl;
  };
  small = omega arith;
  same = refl;
}

no_output : TxOutputs
no_output = record { vout_value = 0; vout_scriptpubkey_len = 0; vout_scriptpubkey = replicate 34 0 }

parser_run-tx_bytes_example :
    (s : TxState) × (d' : Buffers) × (parser_run parse_rawtx_steps
        (record { cur_step = 0; state = fresh_state (some 0) no_output })
        stored_buffers
      ≡ some (next, record { cur_step = 11; state = s }, d'))
    × IsStream d' (0xee ∷ [])
    × (s.hashed ≡ txid_preimage small_tx)
    × (s.outputs.vout_value ≡ 50000)
    × (s.outputs.vout_scriptpubkey_len ≡ 3)
    × (take 3 s.outputs.vout_scriptpubkey ≡ 0x00 ∷ 0x01 ∷ 0xab ∷ [])
unfolding no_output
parser_run-tx_bytes_example =
    parser_run-tx_bytes small_tx 0 small_output no_output stored_buffers (0xee ∷ []) small_tx-IsTx
      refl (omega arith) refl stored_buffers-IsStream
