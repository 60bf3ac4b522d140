-- ===== src/Client/Preimage/Sound.antt =====
-- What a success of `call_get_preimage` proves about the bytes that it writes.
use acre_ledger_app.Base.{
  ℕ, zero, suc, ◌+◌, ◌-◌, ◌%◌, ◌^◌, ◌≤◌, ◌<◌, ◌≡◌, refl, ap, ◌∙◌, sym, arith,
}
use acre_ledger_app.Base.{some, List, [], ◌++◌, length, take, Memory, load_bytes}
use acre_ledger_app.Base.{Bool, true, false, not, ltb, leb, if◌then◌else◌, Bool-cases, inl, inr}
use acre_ledger_app.Base.{length-append}
use acre_ledger_app.Base.Blocks.{
  overwrite, store_bytes-eq-overwrite, length-overwrite, length-load_bytes,
}
use mathlib.Core.Path.{subst}
use acre_ledger_app.Base.Blocks.{take-overwrite}
use mathlib.Core.Option.{some-injective}
use acre_ledger_app.Buffer
use acre_ledger_app.Buffer.{Buffer, can_read, seek_cur, sub_size, add_size}
use acre_ledger_app.Merkle.{Hash}
use acre_ledger_app.Dispatcher.{Context, ok, lift}
use acre_ledger_app.Dispatcher.Inversion.{Ensures, ensures_bind, ensures_after, ensures_require}
use acre_ledger_app.Dispatcher.Inversion.{
  ensures_return, ensures_lift, ensures_error, ensures_weaken,
}
use acre_ledger_app.Dispatcher.Inversion.{ensures_if, ensures_in_context}
use acre_ledger_app.Client.LeafHash.{same_bytes}
use acre_ledger_app.Client.LeafHash.Sound.{same_bytes→eq}
use acre_ledger_app.Client.Preimage.{return_int, bytes_here, Announced}
use acre_ledger_app.Client.Preimage.{more_bytes, Fetched, fetch, preimage_loop}
use acre_ledger_app.Client.Preimage.{call_get_preimage}

-- A write to a buffer within its memory, on both branches
write_bytes-cases :
    (b : Buffer) (bs : List ℕ)
    → b.offset ≤ b.size
    → b.size ≤ length b.ptr
    → b.size < 2 ^ 32
    → Buffer.write_bytes b bs ≡ (
        if leb (length bs) (b.size - b.offset)
        then some
            (true, record b { ptr = overwrite b.ptr b.offset bs; offset = b.offset + length bs })
        else some (false, b))
unfolding Buffer.write_bytes can_read seek_cur
write_bytes-cases b bs h k small = elim (Bool-cases (leb (length bs) (b.size - b.offset))) [
  | inl e ↦
      let stored = store_bytes-eq-overwrite b.ptr b.offset bs (ground arith) in
      ground (arith, stored)
  | inr e ↦ ground arith
]

more_bytes-within : (code n : ℕ) → Ensures (more_bytes code n) (λ k. k ≤ n)
unfolding more_bytes
more_bytes-within code n = ensures_after _ _ _ λ _. ensures_after _ _ _ λ _.
    ensures_after _ _ _ λ k. ensures_after _ _ _ λ len. ensures_after _ _ _ λ _.
      ensures_after _ _ _ λ _.
        ensures_bind _ _ _ (λ k. k ≤ n) (ensures_require (not (ltb n k)) _)
          λ _ h. ensures_return k (λ k. k ≤ n) (ground arith)

length-bytes_here : (n : ℕ) → Ensures (bytes_here n) (λ bs. length bs ≡ n)
unfolding bytes_here
length-bytes_here n =
    ensures_in_context (λ dc. lift (load_bytes dc.read_buffer.ptr dc.read_buffer.offset n)) _
      λ dc.
        ensures_weaken _ _ _ (λ bs. length-load_bytes n dc.read_buffer.ptr dc.read_buffer.offset)
          (ensures_lift (load_bytes dc.read_buffer.ptr dc.read_buffer.offset n))

pub return_int-below : (n : ℕ) → Ensures (return_int n) (λ r. r ≡ n % 2 ^ 32)
unfolding return_int
return_int-below n =
    ensures_if (ltb (n % 2 ^ 32) (2 ^ 31)) _ _ (λ r. r ≡ n % 2 ^ 32)
      (λ _. ensures_return (n % 2 ^ 32) (λ r. r ≡ n % 2 ^ 32) refl)
      λ _. ensures_error _ (λ r. r ≡ n % 2 ^ 32)

module _ (out : Memory) (out_len : ℕ) where
  -- As long as all of it fits, the output is what was hashed.
  record IsCopy (p : Fetched) : Type 0 where
    same_length : length p.buffer_out.ptr ≡ length out
    same_size : p.buffer_out.size ≡ out_len
    in_size : p.buffer_out.offset ≤ out_len
    position : length p.hashed ≤ out_len → p.buffer_out.offset ≡ length p.hashed
    content : length p.hashed ≤ out_len → take (length p.hashed) p.buffer_out.ptr ≡ p.hashed

  module _ (within : out_len ≤ length out) (small : out_len < 2 ^ 32) where
    -- After a write that fits, and after one that does not
    put-IsCopy :
        (bs : List ℕ) (p : Fetched)
        → IsCopy p
        → p.buffer_out.offset + length bs ≤ out_len
        → IsCopy (record {
          buffer_out = record p.buffer_out {
            ptr = overwrite p.buffer_out.ptr p.buffer_out.offset bs;
            offset = p.buffer_out.offset + length bs;
          };
          hashed = p.hashed ++ bs;
        })
    put-IsCopy bs p v fits =
        let room : p.buffer_out.offset + length bs ≤ length p.buffer_out.ptr =
          omega (arith, v.same_length) in
        let both : length (p.hashed ++ bs) ≡ length p.hashed + length bs =
          length-append p.hashed bs in
        record {
          same_length =
              length-overwrite p.buffer_out.ptr p.buffer_out.offset bs room ∙ v.same_length;
          same_size = v.same_size;
          in_size = fits;
          position = λ h. omega (arith, both, v.position (omega arith));
          content = λ h.
              let here = v.position (omega (arith, both)) in
              let before : take p.buffer_out.offset p.buffer_out.ptr ≡ p.hashed =
                rw here (v.content (omega (arith, both))) in
              rw (both, sym here) (take-overwrite p.buffer_out.ptr p.buffer_out.offset bs room)
              ∙ ap (λ (t : List ℕ). t ++ bs) before;
        }

    skip-IsCopy :
        (bs : List ℕ) (p : Fetched)
        → IsCopy p
        → out_len < p.buffer_out.offset + length bs
        → IsCopy (record p { hashed = p.hashed ++ bs })
    skip-IsCopy bs p v long =
        let both : length (p.hashed ++ bs) ≡ length p.hashed + length bs =
          length-append p.hashed bs in
        record {
          same_length = v.same_length;
          same_size = v.same_size;
          in_size = v.in_size;
          position = λ h. absurd (omega (arith, both, v.position (omega (arith, both))));
          content = λ h. absurd (omega (arith, both, v.position (omega (arith, both))));
        }

    written-IsCopy :
        (bs : List ℕ) (p : Fetched) (w : Bool × Buffer)
        → IsCopy p
        → Buffer.write_bytes p.buffer_out bs ≡ some w
        → IsCopy (record { buffer_out = w.1; hashed = p.hashed ++ bs })
    written-IsCopy bs p w v e =
        let cases =
          write_bytes-cases p.buffer_out bs (omega (arith, v.in_size, v.same_size))
            (omega (arith, v.same_length, v.same_size)) (omega (arith, v.same_size)) in
        elim (Bool-cases (leb (length bs) (p.buffer_out.size - p.buffer_out.offset))) [
          | inl y ↦
              subst
                (λ (u : Bool × Buffer).
                  IsCopy (record { buffer_out = u.1; hashed = p.hashed ++ bs }))
                (some-injective _ _ (sym (rw y at cases) ∙ e))
                (put-IsCopy bs p v (ground (arith, v.in_size, v.same_size)))
          | inr y ↦
              subst
                (λ (u : Bool × Buffer).
                  IsCopy (record { buffer_out = u.1; hashed = p.hashed ++ bs }))
                (some-injective _ _ (sym (rw y at cases) ∙ e))
                (skip-IsCopy bs p v (ground (arith, v.in_size, v.same_size)))
        ]

    -- What a fetch of `n` bytes leaves
    abbrev Grown : Fetched → ℕ → Fetched → Type 0
    Grown p n q = IsCopy q × (length q.hashed ≡ length p.hashed + n)

    fetch-Grown :
        (bs : List ℕ) (p : Fetched) → IsCopy p → Ensures (fetch bs bs p) (Grown p (length bs))
    unfolding fetch
    fetch-Grown bs p v =
        ensures_bind _ _ _ (Grown p (length bs)) (ensures_lift (Buffer.write_bytes p.buffer_out bs))
          λ w e.
            ensures_return _ (Grown p (length bs))
              (written-IsCopy bs p w v e, length-append p.hashed bs)

    preimage_loop-Grown :
        (fuel n : ℕ) (p : Fetched) → IsCopy p → Ensures (preimage_loop fuel n p) (Grown p n)
    unfolding preimage_loop
    preimage_loop-Grown zero n p v = unfold Ensures in (λ dc r last e. cc)
    preimage_loop-Grown (suc fuel) n p v = elim (Bool-cases (ltb 0 n)) [
      | inl y ↦
          rw (y, preimage_loop)
            (ensures_bind _ _ (λ k. k ≤ n) (Grown p n) (more_bytes-within 5 n)
              λ k within.
                ensures_bind _ _ (λ bs. length bs ≡ k) (Grown p n) (length-bytes_here k)
                  λ bs len.
                    ensures_bind _ _ (Grown p (length bs)) (Grown p n) (fetch-Grown bs p v)
                      λ q (w, grown).
                        ensures_weaken _ (Grown q (n - k)) (Grown p n)
                          (λ r (u, more). (u, omega arith)) (preimage_loop-Grown fuel (n - k) q w))
      | inr y ↦ rw (y, preimage_loop) (ensures_return p (Grown p n) (v, ground arith))
    ]

    -- The memory and the return value of a success: the preimage, as far as it fits
    abbrev IsPreimage : (List ℕ → Hash) → Hash → Memory × ℕ → Type 0
    IsPreimage sha256 hash (memory, r) =
        (data_bytes : List ℕ) × (length data_bytes ≡ r)
        × (sha256 data_bytes ≡ hash)
        × (r ≤ out_len → take r memory ≡ data_bytes)

    call-IsPreimage :
        (sha256 : List ℕ → Hash) (hash : Hash)
        → Ensures (call_get_preimage sha256 hash out out_len) (IsPreimage sha256 hash)
    unfolding call_get_preimage
    call-IsPreimage sha256 hash =
        let Q = IsPreimage sha256 hash in
        ensures_after _ _ Q λ _. ensures_after _ _ Q λ announced. ensures_after _ _ Q λ _.
          ensures_bind _ _ _ Q (ensures_require _ 4) λ _ enough.
            ensures_bind _ _ _ Q (length-bytes_here announced.partial_data_len) λ bs len.
              ensures_bind _ _ (Grown empty (length bs)) Q (fetch-Grown bs empty empty-IsCopy)
                λ p (v, first).
                  ensures_bind _ _ (Grown p (rest announced)) Q
                    (ensures_in_context
                      (λ dc. preimage_loop (suc (length dc.host)) (rest announced) p) _
                      λ dc. preimage_loop-Grown (suc (length dc.host)) (rest announced) p v)
                    λ q (w, grown).
                      ensures_bind _ _ _ Q (ensures_require (same_bytes (sha256 q.hashed) hash) 9)
                        λ _ same.
                          ensures_bind _ _ _ Q (return_int-below (announced.preimage_len % 2 ^ 32))
                            λ r whole.
                              let total : length q.hashed ≡ r = ground arith in
                              ensures_return (q.buffer_out.ptr, r) Q
                                (
                                  q.hashed,
                                  total,
                                  same_bytes→eq (sha256 q.hashed) hash same,
                                  λ h.
                                      subst (λ (k : ℕ). take k q.buffer_out.ptr ≡ q.hashed) total
                                        (w.content (omega arith)),
                                )
      where
        empty : Fetched
        empty = record { buffer_out = Buffer.create out out_len; hashed = [] }

        empty-IsCopy : IsCopy empty
        empty-IsCopy = record {
          same_length = refl;
          same_size = refl;
          in_size = omega arith;
          position = λ h. refl;
          content = λ h. refl;
        }

        rest : Announced → ℕ
        rest a = a.preimage_len % 2 ^ 32 - a.partial_data_len

-- If `call_get_preimage` succeeds, with room for `out_len` bytes at `out`, then, whatever the host
-- sent, there are bytes with the hash asked for, as many as the return value says; and if they fit,
-- the memory at `out` starts with them.
pub call_get_preimage_sound :
    (sha256 : List ℕ → Hash) (hash : Hash) (out : Memory) (out_len : ℕ)
    → out_len ≤ length out
    → out_len < 2 ^ 32
    → (dc : Context) (memory : Memory) (r : ℕ) (last : Context)
    → call_get_preimage sha256 hash out out_len dc ≡ some (ok (memory, r), last)
    → (data_bytes : List ℕ) × (length data_bytes ≡ r)
      × (sha256 data_bytes ≡ hash)
      × (r ≤ out_len → take r memory ≡ data_bytes)
unfolding Ensures
call_get_preimage_sound sha256 hash out out_len within small dc memory r last e =
    call-IsPreimage out out_len within small sha256 hash dc (memory, r) last e
