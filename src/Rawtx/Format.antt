-- ===== src/Rawtx/Format.antt =====
-- The wire format of a transaction: what the parser is to read, and what it is to hash.
use acre_ledger_app.Base.{ℕ, ◌^◌, ◌<◌, ◌≡◌, Option, none, some, List, [], ◌∷◌, ◌++◌, length, All}
use acre_ledger_app.Bytes.Values.{le_bytes}
use acre_ledger_app.Varint.Format.{varint_bytes}

pub record TxIn : Type 0 where
  pub txid : List ℕ
  pub vout : List ℕ
  pub script_sig : List ℕ
  pub sequence : List ℕ

pub record TxOut : Type 0 where
  pub value : ℕ
  pub script_pubkey : List ℕ

-- Bytes, less than 2^31 of them, after their number
abbrev pub var_bytes : List ℕ → List ℕ
var_bytes bytes = varint_bytes (length bytes) ++ bytes

abbrev pub input_bytes : TxIn → List ℕ
input_bytes i =
    i.txid ++ (i.vout ++ (varint_bytes (length i.script_sig) ++ (i.script_sig ++ i.sequence)))

abbrev pub output_bytes : TxOut → List ℕ
output_bytes o = le_bytes 8 o.value ++ (varint_bytes (length o.script_pubkey) ++ o.script_pubkey)

abbrev pub concat_map {ℓ} : {A : Type ℓ} → (A → List ℕ) → List A → List ℕ
concat_map f [] = []
concat_map f (x ∷ xs) = f x ++ concat_map f xs

pub record IsInput (i : TxIn) : Type 0 where
  pub txid_size : length i.txid ≡ 32
  pub vout_size : length i.vout ≡ 4
  pub small : length i.script_sig < 2 ^ 31
  pub sequence_size : length i.sequence ≡ 4

pub record IsOutput (o : TxOut) : Type 0 where
  pub amount : o.value < 2 ^ 64
  pub small : length o.script_pubkey < 2 ^ 31

-- The stack of one input's witness
abbrev pub witness_bytes : List (List ℕ) → List ℕ
witness_bytes stack = varint_bytes (length stack) ++ concat_map var_bytes stack

abbrev pub IsElement : List ℕ → Type 0
IsElement bytes = length bytes < 2 ^ 31

pub record IsWitness (stack : List (List ℕ)) : Type 0 where
  pub few : length stack < 2 ^ 32
  pub elements : All IsElement stack

-- `witnesses` is `none` for a transaction without them.
pub record Tx : Type 0 where
  pub version : List ℕ
  pub inputs : List TxIn
  pub outputs : List TxOut
  pub witnesses : Option (List (List (List ℕ)))
  pub locktime : List ℕ

abbrev pub marker_bytes : Option (List (List (List ℕ))) → List ℕ
marker_bytes none = []
marker_bytes (some stacks) = 0x00 ∷ 0x01 ∷ []

abbrev pub witnesses_bytes : Option (List (List (List ℕ))) → List ℕ
witnesses_bytes none = []
witnesses_bytes (some stacks) = concat_map witness_bytes stacks

abbrev pub inputs_bytes : Tx → List ℕ
inputs_bytes tx = varint_bytes (length tx.inputs) ++ concat_map input_bytes tx.inputs

abbrev pub outputs_bytes : Tx → List ℕ
outputs_bytes tx = varint_bytes (length tx.outputs) ++ concat_map output_bytes tx.outputs

-- The transaction as it is stored
abbrev pub tx_bytes : Tx → List ℕ
tx_bytes tx =
    tx.version
    ++ (marker_bytes tx.witnesses
        ++ (inputs_bytes tx ++ (outputs_bytes tx ++ (witnesses_bytes tx.witnesses ++ tx.locktime))))

-- The transaction as its txid is computed from it: less the marker, the flag and the witnesses
abbrev pub txid_preimage : Tx → List ℕ
txid_preimage tx = tx.version ++ (inputs_bytes tx ++ (outputs_bytes tx ++ tx.locktime))

-- A witness for each input
abbrev pub AreWitnesses : ℕ → Option (List (List (List ℕ))) → Type 0
AreWitnesses n none = Unit
AreWitnesses n (some stacks) = (length stacks ≡ n) × All IsWitness stacks

pub record IsTx (tx : Tx) : Type 0 where
  pub version_size : length tx.version ≡ 4
  pub some_input : 0 < length tx.inputs
  pub few_inputs : length tx.inputs < 2 ^ 32
  pub inputs_ok : All IsInput tx.inputs
  pub few_outputs : length tx.outputs < 2 ^ 32
  pub outputs_ok : All IsOutput tx.outputs
  pub witnesses_ok : AreWitnesses (length tx.inputs) tx.witnesses
  pub locktime_size : length tx.locktime ≡ 4
