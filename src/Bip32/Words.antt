-- ===== src/Bip32/Words.antt =====
-- `bip32_path_read` reads back the steps of a path, written as big-endian words.
use acre_ledger_app.Base.{ℕ, ◌+◌, ◌*◌, ◌^◌, ◌≤◌, ◌<◌, ◌≡◌, refl, ap, ◌∙◌, sym, arith, append_assoc}
use acre_ledger_app.Base.{
  some, List, [], ◌∷◌, ◌++◌, length, take, All, All-append, length-append, take-append, drop-append,
}
use acre_ledger_app.Base.{ltb, false}
use mathlib.Core.Path.{subst}
use acre_ledger_app.Bytes.{IsByte, read_u32_be}
use acre_ledger_app.Bytes.Values.{be_bytes, length-be_bytes, be_bytes-IsByte, be_value-be_bytes}
use acre_ledger_app.Bytes.Reads.{read_u32_be-eq-be_value}
use acre_ledger_app.Bip32.{path_steps, bip32_path_read}

-- The words of a path, in memory
unfoldable pub words : List ℕ → List ℕ
words [] = []
words (v ∷ vs) = be_bytes 4 v ++ words vs

abbrev pub IsWord : ℕ → Type 0
IsWord v = v < 2 ^ 32

length-words : (vs : List ℕ) → length (words vs) ≡ 4 * length vs
unfolding words
length-words [] = refl
length-words (v ∷ vs) =
    omega (arith, length-append (be_bytes 4 v) (words vs), length-be_bytes 4 v, length-words vs)

words-IsByte : (vs : List ℕ) → All IsByte (words vs)
unfolding words
words-IsByte [] = tt
words-IsByte (v ∷ vs) =
    All-append IsByte (be_bytes 4 v) (words vs) (be_bytes-IsByte 4 v) (words-IsByte vs)

-- A word in the middle of the memory
read_word :
    (pre : List ℕ) (v : ℕ) (behind : List ℕ)
    → IsWord v
    → All IsByte pre
    → All IsByte behind
    → read_u32_be (pre ++ (be_bytes 4 v ++ behind)) (length pre) ≡ some v
read_word pre v behind small p b =
    let four = length-be_bytes 4 v in
    let here : take 4 (be_bytes 4 v ++ behind) ≡ be_bytes 4 v =
      subst (λ (n : ℕ). take n (be_bytes 4 v ++ behind) ≡ be_bytes 4 v) four
        (take-append (be_bytes 4 v) behind) in
    read_u32_be-eq-be_value (pre ++ (be_bytes 4 v ++ behind)) (length pre)
      (omega (
        arith,
        length-append pre (be_bytes 4 v ++ behind),
        length-append (be_bytes 4 v) behind,
        four,
      ))
      (All-append IsByte pre _ p (All-append IsByte (be_bytes 4 v) behind (be_bytes-IsByte 4 v) b))
    ∙ rw (drop-append pre (be_bytes 4 v ++ behind), here) (ap some (be_value-be_bytes 4 v small))

path_steps-words :
    (vs pre rest : List ℕ) (in_len : ℕ)
    → All IsWord vs
    → All IsByte pre
    → All IsByte rest
    → length pre + 4 * length vs ≤ in_len
    → path_steps (length vs) (pre ++ (words vs ++ rest)) in_len (length pre) ≡ some (some vs)
unfolding path_steps words
path_steps-words [] pre rest in_len small p b h = refl
path_steps-words (v ∷ vs) pre rest in_len small p b h =
    let pre' : List ℕ = pre ++ be_bytes 4 v in
    let longer : length pre' ≡ length pre + 4 =
      omega (arith, length-append pre (be_bytes 4 v), length-be_bytes 4 v) in
    let moved : pre' ++ (words vs ++ rest) ≡ pre ++ ((be_bytes 4 v ++ words vs) ++ rest) =
      simp append_assoc in
    let inside : ltb in_len (length pre) ≡ false = ground arith in
    let later : path_steps (length vs) (pre ++ ((be_bytes 4 v ++ words vs) ++ rest)) in_len
          (length pre + 4)
        ≡ some (some vs) =
      rw (sym moved, sym longer)
        (path_steps-words vs pre' rest in_len small.1
          (All-append IsByte pre (be_bytes 4 v) p (be_bytes-IsByte 4 v)) b (omega arith)) in
    let first : read_u32_be (pre ++ ((be_bytes 4 v ++ words vs) ++ rest)) (length pre) ≡ some v =
      rw (append_assoc (be_bytes 4 v) (words vs) rest) (
        read_word pre v (words vs ++ rest) small.0 p
          (All-append IsByte (words vs) rest (words-IsByte vs) b)) in
    rw (inside, first, later) refl

-- A path of up to 8 steps, written as big-endian words, is read back whatever follows it.
pub bip32_path_read-words :
    (path rest : List ℕ) (in_len : ℕ)
    → All IsWord path
    → All IsByte rest
    → length path ≤ 8
    → 4 * length path ≤ in_len
    → bip32_path_read (words path ++ rest) in_len (length path) ≡ some (some path)
unfolding bip32_path_read
bip32_path_read-words path rest in_len small b few enough =
    let allowed : ltb 8 (length path) ≡ false = ground arith in
    rw allowed (path_steps-words path [] rest in_len small tt b (omega arith))
