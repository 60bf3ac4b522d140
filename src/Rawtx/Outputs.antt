-- ===== src/Rawtx/Outputs.antt =====
-- What the parser of outputs does on the bytes of a list of outputs.
use acre_ledger_app.Base.{
  ℕ, zero, suc, ◌+◌, ◌^◌, ◌≤◌, ◌<◌, ◌≡◌, refl, ap, ◌∙◌, sym, arith, min, leb, ltb,
}
use acre_ledger_app.Base.{
  some, List, ◌++◌, length, take, drop, take-append-drop, length-append, length-take, length-drop,
  drop_all, take_all,
}
use acre_ledger_app.Base.{
  true, false, ◌==◌, if◌then◌else◌, append_assoc, Bool-cases, inl, inr, Memory,
}
use acre_ledger_app.Base.Blocks.{
  overwrite, store_bytes-eq-overwrite, length-overwrite, overwrite-append,
}
use mathlib.Core.Path.{subst}
use acre_ledger_app.Buffer.{add_size, sub_size}
use acre_ledger_app.Parser.{next}
use acre_ledger_app.Rawtx.State.{TxState, TxOutputs, chunk_len}
use acre_ledger_app.Rawtx.Hash.{Ends, Ends-next, consumes_chunk, chunk_len-min}
use acre_ledger_app.Rawtx.Output.{
  is_relevant, copy_script, scriptpubkey_loop, parse_rawtxoutput_scriptpubkey,
}

-- The outputs after a piece of the script of the output that is being parsed
abbrev pub store_script : TxState → List ℕ → TxOutputs
store_script s bytes =
    if is_relevant s
    then record s.outputs {
      vout_scriptpubkey = overwrite s.outputs.vout_scriptpubkey s.scriptpubkey_counter bytes;
    }
    else s.outputs

-- Room for bytes of the script, if the output is the one asked for
pub record HasRoom (s : TxState) (bytes : List ℕ) : Type 0 where
  pub short : is_relevant s ≡ true → s.outputs.vout_scriptpubkey_len ≤ 34
  pub room :
      is_relevant s ≡ true
      → s.scriptpubkey_counter + length bytes ≤ length s.outputs.vout_scriptpubkey

copy_script-eq :
    (s : TxState) (bytes : List ℕ)
    → HasRoom s bytes
    → copy_script s bytes ≡ some (some (store_script s bytes))
unfolding copy_script
copy_script-eq s bytes h = elim (Bool-cases (is_relevant s)) [
  | inl e ↦
      let within : ltb 34 s.outputs.vout_scriptpubkey_len ≡ false = ground (arith, h.short e) in
      rw
        (
          e,
          within,
          store_bytes-eq-overwrite s.outputs.vout_scriptpubkey s.scriptpubkey_counter bytes
              (h.room e),
        )
        refl
  | inr e ↦ rw e refl
]

-- The state after bytes of a script
abbrev pub with_script : TxState → List ℕ → ℕ → TxState
with_script s bytes n = record s {
  hashed = s.hashed ++ bytes;
  outputs = store_script s bytes;
  scriptpubkey_counter = n;
}

store_script-append :
    (s : TxState) (cs bs : List ℕ)
    → HasRoom s cs
    → store_script (with_script s cs (s.scriptpubkey_counter + length cs)) bs
      ≡ store_script s (cs ++ bs)
unfolding is_relevant
store_script-append s cs bs h = elim (Bool-cases (is_relevant s)) [
  | inl e ↦ rw e (
      ap (λ (m : Memory). record s.outputs { vout_scriptpubkey = m })
        (overwrite-append s.outputs.vout_scriptpubkey s.scriptpubkey_counter cs bs (h.room e)))
  | inr e ↦ rw e refl
]

HasRoom-split :
    (s : TxState) (cs bs : List ℕ)
    → HasRoom s (cs ++ bs)
    → HasRoom s cs × HasRoom (with_script s cs (s.scriptpubkey_counter + length cs)) bs
unfolding is_relevant
HasRoom-split s cs bs h =
    let fits : is_relevant s ≡ true
        → s.scriptpubkey_counter + length cs + length bs ≤ length s.outputs.vout_scriptpubkey =
      λ e. let r = h.room e in omega (arith, length-append cs bs) in
    (
      record { short = h.short; room = λ e. let r = fits e in omega arith },
      record {
        short = λ e. rw e (h.short e);
        room = λ e.
            let r = fits e in
            rw e (
              omega (
                arith,
                length-overwrite s.outputs.vout_scriptpubkey s.scriptpubkey_counter cs
                    (omega arith),
              ));
      },
    )

with_script-split :
    (s : TxState) (bytes : List ℕ) (n : ℕ)
    → HasRoom s (take 32 bytes)
    → with_script
        (with_script s (take 32 bytes) (s.scriptpubkey_counter + length (take 32 bytes)))
        (drop 32 bytes)
        n
      ≡ with_script s bytes n
with_script-split s bytes n h =
    let whole = take-append-drop 32 bytes in
    let joined : (s.hashed ++ take 32 bytes) ++ drop 32 bytes ≡ s.hashed ++ bytes =
      append_assoc s.hashed (take 32 bytes) (drop 32 bytes)
      ∙ ap (λ (b : List ℕ). s.hashed ++ b) whole in
    ap
      (λ (b : List ℕ). record s {
        hashed = b;
        outputs =
            store_script
              (with_script s (take 32 bytes) (s.scriptpubkey_counter + length (take 32 bytes)))
              (drop 32 bytes);
        scriptpubkey_counter = n;
      })
      joined
    ∙ ap
        (λ (o : TxOutputs). record s {
          hashed = s.hashed ++ bytes;
          outputs = o;
          scriptpubkey_counter = n;
        })
        (store_script-append s (take 32 bytes) (drop 32 bytes) h ∙ ap (store_script s) whole)

scriptpubkey_loop-Ends :
    (fuel : ℕ) (bytes : List ℕ) (s : TxState)
    → length bytes < fuel
    → s.scriptpubkey_counter + length bytes ≡ s.scriptpubkey_size
    → s.scriptpubkey_size < 2 ^ 31
    → HasRoom s bytes
    → Ends (scriptpubkey_loop fuel s) bytes (with_script s bytes s.scriptpubkey_size)
unfolding scriptpubkey_loop
scriptpubkey_loop-Ends zero bytes s enough sum small h = absurd (omega arith)
scriptpubkey_loop-Ends (suc fuel) bytes s enough sum small h =
    let left : sub_size s.scriptpubkey_size s.scriptpubkey_counter ≡ length bytes = omega arith in
    let chunk : chunk_len (length bytes) ≡ min 32 (length bytes) = chunk_len-min _ (omega arith) in
    let c : ℕ = length (take 32 bytes) in
    let len : min 32 (length bytes) ≡ c = sym (length-take 32 bytes) in
    let counter : add_size s.scriptpubkey_counter
          (chunk_len (sub_size s.scriptpubkey_size s.scriptpubkey_counter))
        ≡ s.scriptpubkey_counter + c =
      rw (left, chunk) (omega arith) in
    let split : HasRoom s (take 32 bytes ++ drop 32 bytes) = rw (take-append-drop 32 bytes) h in
    let (h1, h2) = HasRoom-split s (take 32 bytes) (drop 32 bytes) split in
    let s' : TxState = with_script s (take 32 bytes) (s.scriptpubkey_counter + c) in
    let reached : ((s.scriptpubkey_counter + c) == s.scriptpubkey_size) ≡ leb (length bytes) 32 =
      ground arith in
    let n : ℕ =
      add_size s.scriptpubkey_counter
        (chunk_len (sub_size s.scriptpubkey_size s.scriptpubkey_counter)) in
    let round : Ends
        (λ d. elim (n == s.scriptpubkey_size) [
          | true ↦ some (next, with_script s (take 32 bytes) n, d)
          | false ↦ scriptpubkey_loop fuel (with_script s (take 32 bytes) n) d
        ])
        (drop 32 bytes) (with_script s bytes s.scriptpubkey_size) =
      rw (counter, reached)
        (elim (Bool-cases (leb (length bytes) 32)) [
          | inl e ↦
              let none_left = drop_all 32 bytes (ground arith) in
              let all_taken = take_all 32 bytes (ground arith) in
              let at_end : n ≡ s.scriptpubkey_size = ground arith in
              rw (e, none_left, at_end, all_taken)
                (Ends-next (with_script s bytes s.scriptpubkey_size))
          | inr e ↦
              rw (e, counter)
                (subst (Ends (scriptpubkey_loop fuel s') (drop 32 bytes))
                  (with_script-split s bytes s.scriptpubkey_size h1)
                  (scriptpubkey_loop-Ends fuel (drop 32 bytes) s'
                    (ground (arith, length-drop 32 bytes)) (ground (arith, length-drop 32 bytes))
                    small h2))
        ]) in
    rw left
      (consumes_chunk bytes s _ _ (omega arith) (rw (copy_script-eq s (take 32 bytes) h1) round))

pub parse_rawtxoutput_scriptpubkey-Ends :
    (bytes : List ℕ) (s : TxState)
    → s.scriptpubkey_counter ≡ 0
    → s.scriptpubkey_size ≡ length bytes
    → length bytes < 2 ^ 31
    → HasRoom s bytes
    → Ends (parse_rawtxoutput_scriptpubkey s) bytes (with_script s bytes s.scriptpubkey_size)
unfolding parse_rawtxoutput_scriptpubkey
parse_rawtxoutput_scriptpubkey-Ends bytes s start size small h =
    scriptpubkey_loop-Ends _ bytes s (omega arith) (omega arith) (omega arith) h
