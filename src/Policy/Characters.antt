-- ===== src/Policy/Characters.antt =====
-- What the readers of expected characters do.
use acre_ledger_app.Base
use acre_ledger_app.Base.{ℕ, zero, suc, ◌+◌, ◌-◌, ◌^◌, ◌≤◌, ◌<◌, ◌≡◌, refl, ap, ◌∙◌, sym, arith}
use acre_ledger_app.Base.{
  Option, none, some, List, [], ◌∷◌, ◌++◌, length, length-append, append_assoc, drop, take,
  drop-append, Bool, true, false, ◌==◌, if◌then◌else◌, get_elem?, load,
}
use mathlib.Core.Path.{subst}
use acre_ledger_app.Bytes.Words.{load-at}
use acre_ledger_app.Buffer
use acre_ledger_app.Buffer.{Buffer, peek_n, add_size, sub_size}
use acre_ledger_app.Buffer.Stream.{
  remaining, advance, can_read_within, advance-IsValid, remaining-advance, seek_cur-within,
  length-remaining,
}
use acre_ledger_app.Policy.Reader.{seek_cur, return, read_u8}
use acre_ledger_app.Policy.Text.{consume_character, matches_at, consume_characters}
use acre_ledger_app.Policy.Stream.{
  Holds, one_left, first_byte, resume-eq, peek-some, peek-none, seek_cur-one, seek_cur-next,
}

same_character : (c : ℕ) → (c == c) ≡ true
same_character c = ground arith

pub consume_character-next :
    (b : Buffer) (c : ℕ) (rest : List ℕ)
    → Holds b (c ∷ rest)
    → consume_character c b ≡ some (some (true, advance b 1))
unfolding consume_character
consume_character-next b c rest h =
    resume-eq _ (peek-some b c rest h)
      (rw (same_character c) (resume-eq (λ _. return true) (seek_cur-one b c rest h) refl))

-- A text that does not begin with a character
abbrev pub Without : ℕ → List ℕ → Type 0
Without c [] = Unit
Without c (x ∷ text) = (x == c) ≡ false

pub consume_character-other :
    (b : Buffer) (c : ℕ) (text : List ℕ)
    → Holds b text
    → Without c text
    → consume_character c b ≡ some (some (false, b))
unfolding consume_character
consume_character-other b c [] h w = resume-eq _ (peek-none b h) refl
consume_character-other b c (x ∷ text) h w = resume-eq _ (peek-some b x text h) (rw w refl)

get_elem-take :
    (n i : ℕ) (xs : List ℕ) {c : ℕ} → get_elem? (take n xs) i ≡ some c → get_elem? xs i ≡ some c
get_elem-take zero i xs e = cc
get_elem-take (suc n) i [] e = cc
get_elem-take (suc n) zero (x ∷ xs) e = e
get_elem-take (suc n) (suc i) (x ∷ xs) e = get_elem-take n i xs e

get_elem-bound : (i : ℕ) (xs : List ℕ) {c : ℕ} → get_elem? xs i ≡ some c → i < length xs
get_elem-bound i [] e = cc
get_elem-bound zero (x ∷ xs) e = omega arith
get_elem-bound (suc i) (x ∷ xs) e = omega (arith, get_elem-bound i xs e)

peek_n-at :
    (b : Buffer) (text : List ℕ) (i c : ℕ)
    → Holds b text
    → get_elem? text i ≡ some c
    → Buffer.peek_n b i ≡ some (some c)
unfolding Buffer.peek_n
peek_n-at b text i c h e =
    let there : get_elem? (remaining b) i ≡ some c = rw h.same e in
    let inside : i < length (remaining b) = get_elem-bound i (remaining b) there in
    let count : add_size i 1 ≡ i + 1 = omega (arith, inside, length-remaining h.valid, h.valid) in
    let here : add_size b.offset i ≡ b.offset + i =
      omega (arith, inside, length-remaining h.valid, h.valid) in
    let byte : load b.ptr (b.offset + i) ≡ some c =
      load-at b.ptr b.offset i ∙ get_elem-take (b.size - b.offset) i (drop b.offset b.ptr) there in
    rw (count, can_read_within h.valid (i + 1) (omega (arith, inside)), here, byte) refl

get_elem-middle :
    (pre : List ℕ) (c : ℕ) (rest : List ℕ) → get_elem? (pre ++ (c ∷ rest)) (length pre) ≡ some c
get_elem-middle [] c rest = refl
get_elem-middle (x ∷ pre) c rest = get_elem-middle pre c rest

matches_at-text :
    (cs pre : List ℕ) (i : ℕ) (b : Buffer) (rest : List ℕ)
    → i ≡ length pre
    → Holds b (pre ++ (cs ++ rest))
    → matches_at i cs b ≡ some (some (true, b))
unfolding matches_at
matches_at-text [] pre i b rest e h = refl
matches_at-text (c ∷ cs) pre i b rest e h =
    let here : Buffer.peek_n b i ≡ some (some c) =
      peek_n-at b (pre ++ (c ∷ (cs ++ rest))) i c h (rw e (get_elem-middle pre c (cs ++ rest))) in
    let more : Holds b ((pre ++ (c ∷ [])) ++ (cs ++ rest)) =
      subst (Holds b) (sym (append_assoc pre (c ∷ []) (cs ++ rest))) h in
    let peeked : (Base.◌>>=◌ (Buffer.peek_n b i) λ r. some (some (r, b)))
        ≡ some (some (some c, b)) =
      rw here refl in
    resume-eq _ peeked (
      rw (same_character c) (
        matches_at-text cs (pre ++ (c ∷ [])) (i + 1) b rest
          (omega (arith, length-append pre (c ∷ []))) more))

pub advance-Holds :
    (b : Buffer) (text rest : List ℕ)
    → Holds b (text ++ rest)
    → Holds (advance b (length text)) rest
advance-Holds b text rest h =
    let total = length-append text rest in
    record {
      valid = advance-IsValid h.valid (length text) (omega (arith, ap length h.same));
      same =
          remaining-advance h.valid (length text)
          ∙ ap (drop (length text)) h.same
          ∙ drop-append text rest;
    }

pub consume_characters-text :
    (cs : List ℕ) (b : Buffer) (rest : List ℕ)
    → Holds b (cs ++ rest)
    → consume_characters cs b ≡ some (some (true, advance b (length cs)))
unfolding consume_characters
consume_characters-text cs b rest h =
    let total = length-append cs rest in
    let moved : seek_cur (length cs) b ≡ some (some (tt, advance b (length cs))) =
      ap (λ (r : Bool × Buffer). some (some (tt, r.1)))
        (seek_cur-within h.valid (length cs) (omega (arith, ap length h.same))) in
    resume-eq _ (matches_at-text cs [] 0 b rest refl h) (resume-eq (λ _. return true) moved refl)

pub read_u8-next :
    (b : Buffer) (c : ℕ) (rest : List ℕ)
    → Holds b (c ∷ rest)
    → read_u8 b ≡ some (some (c, advance b 1))
unfolding Buffer.read_u8
read_u8-next b c rest h =
    rw
      (
        can_read_within h.valid 1 (one_left b c rest h),
        first_byte b c rest h,
        seek_cur-next b c rest h,
      )
      refl
