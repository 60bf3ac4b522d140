-- ===== src/Policy/Stream.antt =====
-- What the readers of text take from a valid buffer.
use acre_ledger_app.Base.{ℕ, ◌-◌, ◌≤◌, ◌≡◌, refl, ap, ◌∙◌, arith}
use acre_ledger_app.Base.{Option, none, some, List, [], ◌∷◌, ◌++◌, length, drop, Bool, load}
use acre_ledger_app.Base.Blocks.{load-drop}
use acre_ledger_app.Buffer
use acre_ledger_app.Buffer.{Buffer, peek_n, add_size, sub_size}
use acre_ledger_app.Buffer.Stream.{
  IsValid, remaining, advance, can_read_within, can_read_beyond, advance-IsValid, remaining-advance,
  seek_cur-within,
}
use acre_ledger_app.Buffer.Reads.{head-take}
use acre_ledger_app.Policy.Reader.{Reader, peek, seek_cur, resume}

-- A valid buffer and the text that it has left
pub record Holds (b : Buffer) (text : List ℕ) : Type 0 where
  pub valid : IsValid b
  pub same : remaining b ≡ text

-- The reader takes the text, whatever follows it, and returns the value.
abbrev pub Reads : {A : Type 0} → Reader A → List ℕ → A → Type 0
Reads f text a =
    (b : Buffer) (rest : List ℕ)
    → Holds b (text ++ rest)
    → (b' : Buffer) × (f b ≡ some (some (a, b'))) × Holds b' rest

module _ (b : Buffer) (c : ℕ) (rest : List ℕ) (h : Holds b (c ∷ rest)) where
  pub one_left : 1 ≤ length (remaining b)
  one_left = rw h.same (omega arith)

  pub first_byte : load b.ptr b.offset ≡ some c
  first_byte = load-drop b.ptr b.offset ∙ head-take (b.size - b.offset) (drop b.offset b.ptr) h.same

  pub peek-next : Buffer.peek b ≡ some (some c)
  unfolding Buffer.peek peek_n
  peek-next =
      let here : add_size b.offset 0 ≡ b.offset = omega (arith, h.valid) in
      rw (can_read_within h.valid 1 one_left, here, first_byte) refl

  pub step-Holds : Holds (advance b 1) rest
  step-Holds = record {
    valid = advance-IsValid h.valid 1 one_left;
    same = remaining-advance h.valid 1 ∙ ap (drop 1) h.same;
  }

  pub seek_cur-next : (Buffer.seek_cur b 1).1 ≡ advance b 1
  seek_cur-next = ap (λ (r : Bool × Buffer). r.1) (seek_cur-within h.valid 1 one_left)

pub peek-end : (b : Buffer) → Holds b [] → Buffer.peek b ≡ some none
unfolding Buffer.peek peek_n
peek-end b h = rw (can_read_beyond h.valid 1 (rw h.same (omega arith))) refl

pub resume-eq :
    {A B : Type 0} {o : Option (Option (A × Buffer))} (f : A → Reader B) {a : A} {b : Buffer}
    {r : Option (Option (B × Buffer))}
    → o ≡ some (some (a, b))
    → f a b ≡ r
    → resume o f ≡ r
resume-eq f e next = ap (λ o. resume o f) e ∙ next

pub peek-some :
    (b : Buffer) (c : ℕ) (rest : List ℕ) → Holds b (c ∷ rest) → peek b ≡ some (some (some c, b))
peek-some b c rest h = rw (peek-next b c rest h) refl

pub peek-none : (b : Buffer) → Holds b [] → peek b ≡ some (some (none, b))
peek-none b h = rw (peek-end b h) refl

pub seek_cur-one :
    (b : Buffer) (c : ℕ) (rest : List ℕ)
    → Holds b (c ∷ rest)
    → seek_cur 1 b ≡ some (some (tt, advance b 1))
seek_cur-one b c rest h = ap (λ (b' : Buffer). some (some (tt, b'))) (seek_cur-next b c rest h)
