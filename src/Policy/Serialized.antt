-- ===== src/Policy/Serialized.antt =====
-- The header of a wallet policy is read back from its serialization.
use acre_ledger_app.Base.{ℕ, ◌-◌, ◌%◌, ◌^◌, ◌≤◌, ◌<◌, ◌≡◌, refl, ap, ◌∙◌, sym, arith}
use acre_ledger_app.Base.{
  some, List, [], ◌∷◌, ◌++◌, length, length-append, append_assoc, All, All-drop, take, drop,
  take-append, take-append-drop, Bool, true, false, Bool-cases, inl, inr, ◌||◌, leb, ◌==◌,
  if◌then◌else◌,
}
use mathlib.Core.Path.{subst}
use acre_ledger_app.Bytes.{IsByte}
use acre_ledger_app.Varint.{varint_size}
use acre_ledger_app.Varint.Format.{varint_bytes, length-varint_bytes, varint_read-varint_bytes}
use acre_ledger_app.Buffer
use acre_ledger_app.Buffer.{Buffer, sub_size}
use acre_ledger_app.Buffer.Stream.{remaining, advance, seek_cur-within, length-remaining}
use acre_ledger_app.Buffer.Reads.{read_bytes-takes}
use acre_ledger_app.Policy.Reader.{read_varint, read_bytes}
use acre_ledger_app.Policy.Header.{PolicyHeader, read_descriptor, read_wallet_policy_header}
use acre_ledger_app.Policy.Stream.{Holds, step-Holds, resume-eq}
use acre_ledger_app.Policy.Characters.{advance-Holds, read_u8-next}
use acre_ledger_app.Policy.Derivation.{require-true}

read_bytes-next :
    (b : Buffer) (n : ℕ) (bytes rest : List ℕ)
    → length bytes ≡ n
    → Holds b (bytes ++ rest)
    → (read_bytes n b ≡ some (some (bytes, advance b n))) × Holds (advance b n) rest
read_bytes-next b n bytes rest len h =
    let enough : n ≤ length (remaining b) =
      omega (arith, ap length h.same, length-append bytes rest) in
    let front : take n (remaining b) ≡ bytes = rw (h.same, sym len) (take-append bytes rest) in
    (
      read_bytes-takes h.valid n enough ∙ rw front refl,
      subst (λ (k : ℕ). Holds (advance b k) rest) len (advance-Holds b bytes rest h),
    )

All-append_right : (xs ys : List ℕ) → All IsByte (xs ++ ys) → All IsByte ys
All-append_right [] ys h = h
All-append_right (x ∷ xs) ys h = All-append_right xs ys h.1

read_varint-next :
    (b : Buffer) (v : ℕ) (rest : List ℕ)
    → v < 2 ^ 64
    → Holds b (varint_bytes v ++ rest)
    → (read_varint b ≡ some (some (v, advance b (length (varint_bytes v)))))
      × Holds (advance b (length (varint_bytes v))) rest
unfolding Buffer.read_varint
read_varint-next b v rest small h =
    let left : ℕ = b.size - b.offset in
    let tail : List ℕ = drop left (drop b.offset b.ptr) in
    let memory : drop b.offset b.ptr ≡ varint_bytes v ++ (rest ++ tail) =
      sym (take-append-drop left (drop b.offset b.ptr))
      ∙ ap (λ (t : List ℕ). t ++ tail) h.same
      ∙ append_assoc (varint_bytes v) rest tail in
    let bytes : All IsByte (rest ++ tail) =
      All-append_right (varint_bytes v) (rest ++ tail)
        (subst (All IsByte) memory (All-drop IsByte b.offset b.ptr h.valid.bytes)) in
    let size = length-varint_bytes v in
    let total = length-append (varint_bytes v) rest in
    let fits : varint_size v ≤ sub_size b.size b.offset =
      omega (arith, ap length h.same, length-remaining h.valid, h.valid) in
    let moved : (Buffer.seek_cur b (varint_size v)).1 ≡ advance b (length (varint_bytes v)) =
      rw (sym size) (
        ap (λ (r : Bool × Buffer). r.1)
          (seek_cur-within h.valid (length (varint_bytes v)) (omega (arith, ap length h.same)))) in
    (
      rw
          (
            memory,
            varint_read-varint_bytes v (sub_size b.size b.offset) (rest ++ tail) small bytes fits,
            moved,
          )
          refl,
      advance-Holds b (varint_bytes v) rest h,
    )

-- A header that the device accepts
pub record IsHeader (h : PolicyHeader) : Type 0 where
  pub known : (h.version == 1 || h.version == 2) ≡ true
  pub short_name : length h.name ≤ 64
  pub template_size : h.descriptor_template_len ≤ (if h.version == 1 then 40 else 512)
  pub descriptor_size :
      length h.descriptor ≡ (if h.version == 1 then h.descriptor_template_len else 32)
  pub few_keys : h.n_keys ≤ 252
  pub root_size : length h.keys_info_merkle_root ≡ 32

abbrev pub header_bytes : PolicyHeader → List ℕ → List ℕ
header_bytes h rest =
    h.version
    ∷ length h.name
    ∷ (h.name
        ++ (varint_bytes h.descriptor_template_len
            ++ (h.descriptor ++ (varint_bytes h.n_keys ++ (h.keys_info_merkle_root ++ rest)))))

read_descriptor-next :
    (h : PolicyHeader) (b : Buffer) (rest : List ℕ)
    → IsHeader h
    → Holds b (h.descriptor ++ rest)
    → (b' : Buffer) × (read_descriptor h.version h.descriptor_template_len b
        ≡ some (some (h.descriptor, b')))
      × Holds b' rest
unfolding read_descriptor
read_descriptor-next h b rest ok held = elim (Bool-cases (h.version == 1)) [
  | inl e ↦
      let n : ℕ = h.descriptor_template_len in
      let short : n ≤ 40 = subst (λ (t : Bool). n ≤ (if t then 40 else 512)) e ok.template_size in
      let size : length h.descriptor ≡ n =
        subst (λ (t : Bool). length h.descriptor ≡ (if t then n else 32)) e ok.descriptor_size in
      let fits : leb n 40 ≡ true = ground arith in
      let narrow : length h.descriptor ≡ n % 2 ^ 16 = omega arith in
      let (run, held') = read_bytes-next b (n % 2 ^ 16) h.descriptor rest narrow held in
      (_, rw e (resume-eq (λ _. read_bytes (n % 2 ^ 16)) (require-true _ b fits) run), held')
  | inr e ↦
      let n : ℕ = h.descriptor_template_len in
      let short : n ≤ 512 = subst (λ (t : Bool). n ≤ (if t then 40 else 512)) e ok.template_size in
      let size : length h.descriptor ≡ 32 =
        subst (λ (t : Bool). length h.descriptor ≡ (if t then n else 32)) e ok.descriptor_size in
      let fits : leb n 512 ≡ true = ground arith in
      let (run, held') = read_bytes-next b 32 h.descriptor rest size held in
      (_, rw e (resume-eq (λ _. read_bytes 32) (require-true _ b fits) run), held')
]

template_bound : (t : Bool) (n : ℕ) → n ≤ (if t then 40 else 512) → n ≤ 512
template_bound true n h = omega arith
template_bound false n h = h

-- `read_wallet_policy_header` returns a header from its serialization and takes the serialization and
-- nothing else. The header is one of version 1, with a template of 40 bytes at most, or of version 2,
-- with a template of 512 at most, of which it has the hash; the name has 64 bytes at most, and there
-- are 252 keys at most.
pub read_wallet_policy_header-bytes :
    (h : PolicyHeader) (b : Buffer) (rest : List ℕ)
    → IsHeader h
    → Holds b (header_bytes h rest)
    → (b' : Buffer) × (read_wallet_policy_header b ≡ some (some (h, b'))) × Holds b' rest
unfolding read_wallet_policy_header
read_wallet_policy_header-bytes h b rest ok held =
    let held1 = step-Holds b h.version _ held in
    let b1 : Buffer = advance b 1 in
    let held2 = step-Holds b1 (length h.name) _ held1 in
    let b2 : Buffer = advance b1 1 in
    let (run3, held3) = read_bytes-next b2 (length h.name) h.name _ refl held2 in
    let bound : h.descriptor_template_len ≤ 512 =
      template_bound (h.version == 1) h.descriptor_template_len ok.template_size in
    let (run4, held4) =
      read_varint-next (advance b2 (length h.name)) h.descriptor_template_len _ (omega arith)
        held3 in
    let (b5, run5, held5) = read_descriptor-next h _ _ ok held4 in
    let (run6, held6) = read_varint-next b5 h.n_keys _ (omega (arith, ok.few_keys)) held5 in
    let b6 : Buffer = advance b5 (length (varint_bytes h.n_keys)) in
    let (run7, held7) = read_bytes-next b6 32 h.keys_info_merkle_root rest ok.root_size held6 in
    let short : leb (length h.name) 64 ≡ true = ground (arith, ok.short_name) in
    let few : leb h.n_keys 252 ≡ true = ground (arith, ok.few_keys) in
    let n : h.n_keys % 2 ^ 16 ≡ h.n_keys = omega (arith, ok.few_keys) in
    let t : h.descriptor_template_len % 2 ^ 16 ≡ h.descriptor_template_len = omega arith in
    (
      advance b6 32,
      resume-eq _ (read_u8-next b h.version _ held) (
          resume-eq _ (require-true _ b1 ok.known) (
            resume-eq _ (read_u8-next b1 (length h.name) _ held1) (
              resume-eq _ (require-true _ b2 short) (
                resume-eq _ run3 (
                  resume-eq _ run4 (
                    resume-eq _ run5 (
                      resume-eq _ run6 (
                        resume-eq _ (require-true _ b6 few) (
                          resume-eq _ run7 (
                            ap
                              (λ (x : ℕ). some (
                                some (
                                  record h {
                                    descriptor_template_len = x;
                                    n_keys = h.n_keys % 2 ^ 16;
                                  },
                                  advance b6 32,
                                )))
                              t
                            ∙ ap (λ (x : ℕ). some (some (record h { n_keys = x }, advance b6 32)))
                                n)))))))))),
      held7,
    )
