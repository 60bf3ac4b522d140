-- ===== src/Rawtx/Consume.antt =====
-- Steps that take known bytes from the stream of two buffers.
use acre_ledger_app.Base.{ℕ, ◌+◌, ◌-◌, ◌^◌, ◌<◌, ◌≡◌, refl, ap, ◌∙◌, sym, arith, min}
use acre_ledger_app.Base.{
  some, List, [], ◌∷◌, ◌++◌, length, take, length-append, take-append, drop-append,
}
use acre_ledger_app.Base.{true, leb, append_assoc}
use mathlib.Core.Path.{subst}
use acre_ledger_app.Buffer.Stream.{IsValid, remaining, advance-IsValid}
use acre_ledger_app.Parser.{
  Buffers, next, dbuffer_read_bytes, ParsingStep, ParserContext, run_steps,
}
use acre_ledger_app.Parser.Stream.{stream, advance_both, dbuffer_read_bytes-stream}
use acre_ledger_app.Rawtx.State.{TxState, Reply, with_bytes}

-- Two valid buffers, and what they have left together
pub record IsStream (d : Buffers) (s : List ℕ) : Type 0 where
  pub valid0 : IsValid d.buffer0
  pub valid1 : IsValid d.buffer1
  pub small : length s < 2 ^ 32
  pub same : stream d ≡ s

-- A read of the next bytes
pub read_bytes-next :
    (d : Buffers) (bytes rest : List ℕ)
    → IsStream d (bytes ++ rest)
    → (d' : Buffers) × (dbuffer_read_bytes d (length bytes) ≡ some (some (bytes, d')))
      × IsStream d' rest
read_bytes-next d bytes rest v =
    let n : ℕ = length bytes in
    let total : length (stream d) ≡ n + length rest = ap length v.same ∙ length-append bytes rest in
    let (run, left, _, _) = dbuffer_read_bytes-stream d n v.valid0 v.valid1 (rw v.same v.small) in
    let fits : leb n (length (stream d)) ≡ true = ground arith in
    let taken : take n (stream d) ≡ bytes = rw v.same (take-append bytes rest) in
    let parts = length-append (remaining d.buffer0) (remaining d.buffer1) in
    (
      advance_both d n,
      run ∙ rw (fits, taken) refl,
      record {
        valid0 = advance-IsValid v.valid0 (min n (length (remaining d.buffer0))) (omega arith);
        valid1 = advance-IsValid v.valid1 (n - length (remaining d.buffer0)) (omega arith);
        small = omega (arith, v.small, length-append bytes rest);
        same = left ∙ rw v.same (drop-append bytes rest);
      },
    )

-- `f` takes the bytes, whatever follows them, and ends well in a state with the property.
abbrev pub Consumes : (Buffers → Reply) → List ℕ → (TxState → Type 0) → Type 0
Consumes f bytes Q =
    (d : Buffers) (rest : List ℕ)
    → IsStream d (bytes ++ rest)
    → (s : TxState) × (d' : Buffers) × (f d ≡ some (next, s, d')) × IsStream d' rest × Q s

pub consumes_next :
    (s : TxState) (Q : TxState → Type 0) → Q s → Consumes (λ d. some (next, s, d)) [] Q
consumes_next s Q q d rest v = (s, d, refl, v, q)

pub consumes_bytes :
    (n : ℕ) (bytes more : List ℕ) (s : TxState) (f : List ℕ → Buffers → Reply)
    (Q : TxState → Type 0)
    → length bytes ≡ n
    → Consumes (f bytes) more Q
    → Consumes (λ d. with_bytes n s d f) (bytes ++ more) Q
unfolding with_bytes
consumes_bytes n bytes more s f Q len after d rest v =
    let v' : IsStream d (bytes ++ (more ++ rest)) =
      subst (IsStream d) (append_assoc bytes more rest) v in
    let (d1, run, v1) = read_bytes-next d bytes (more ++ rest) v' in
    let (s', d2, run', v2, q) = after d1 rest v1 in (s', d2, rw (sym len, run) run', v2, q)

-- The same for the steps of a parser
abbrev pub RunsTo :
    List (ParsingStep TxState) → ParserContext TxState → List ℕ → (TxState → Type 0) → Type 0
RunsTo steps c bytes Q =
    (d : Buffers) (rest : List ℕ)
    → IsStream d (bytes ++ rest)
    → (s : TxState) × (d' : Buffers) × (run_steps steps c d
        ≡ some (next, record { cur_step = c.cur_step + length steps; state = s }, d'))
      × IsStream d' rest
      × Q s

pub runs_nil :
    (k : ℕ) (s : TxState) (Q : TxState → Type 0)
    → Q s
    → RunsTo [] (record { cur_step = k; state = s }) [] Q
unfolding run_steps
runs_nil k s Q q d rest v =
    (s, d, ap (λ (n : ℕ). some (next, record { cur_step = n; state = s }, d)) (omega arith), v, q)

pub runs_cons :
    (f : ParsingStep TxState) (fs : List (ParsingStep TxState)) (k : ℕ) (s : TxState)
    (bytes more : List ℕ)
    → (P Q : TxState → Type 0) → Consumes (f s) bytes P
    → ((s' : TxState) → P s' → RunsTo fs (record { cur_step = k + 1; state = s' }) more Q)
    → RunsTo (f ∷ fs) (record { cur_step = k; state = s }) (bytes ++ more) Q
unfolding run_steps
runs_cons f fs k s bytes more P Q first after d rest v =
    let v' : IsStream d (bytes ++ (more ++ rest)) =
      subst (IsStream d) (append_assoc bytes more rest) v in
    let (s1, d1, run, v1, p) = first d (more ++ rest) v' in
    let (s2, d2, run', v2, q) = after s1 p d1 rest v1 in
    let count : k + 1 + length fs ≡ k + length (f ∷ fs) = omega arith in
    (
      s2,
      d2,
      rw run (run' ∙ ap (λ (n : ℕ). some (next, record { cur_step = n; state = s2 }, d2)) count),
      v2,
      q,
    )
