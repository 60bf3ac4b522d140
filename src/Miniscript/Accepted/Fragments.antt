-- ===== src/Miniscript/Accepted/Fragments.antt =====
-- src/common/wallet.c, `parse_script`: what the parser of each fragment ensures.
use acre_ledger_app.Base.{ℕ, zero, suc, ◌+◌, ◌≡◌, ◌≤◌, ◌<◌, ◌^◌, refl, arith, length, Bool}
use acre_ledger_app.Miniscript.Node.{PolicyNodeType, PolicyTree}
use acre_ledger_app.Miniscript.Typed.{IsTyped}
use acre_ledger_app.Miniscript.Parser.{Setup, Parser}
use acre_ledger_app.Miniscript.Fragment.{
  Context, ScriptParser, parse_child_script, parse_constant, parse_hash_256, parse_hash_160,
  parse_script2, parse_andor, wrapped, parse_key, parse_timelock, keys_loop, parse_multisig,
  parse_wrapped, parse_tr,
}
use acre_ledger_app.Miniscript.Ensures.{
  Ensures, then_use, skip, lifted, required, returned, faulted, either_branch,
}
use acre_ledger_app.Miniscript.Rules.Checks.{
  leaf_modes-LeafRule, timelock_modes-TimelockRule, multisig_modes-MultisigRule,
  script2_modes-Script2Rule, andor_modes-AndorRule,
}
use acre_ledger_app.Miniscript.Accepted.{IsAccepted, IsParsed, IsParsed-IsTyped, Good, GoodTree}

module _ (setup : Setup) (w : Bool) (t : PolicyNodeType) where
  pub parse_constant-ensures : Ensures (parse_constant setup t) (Good w)
  unfolding parse_constant IsAccepted IsParsed
  parse_constant-ensures = skip _ (λ _. returned _ (refl, leaf_modes-LeafRule t))

  pub parse_hash_256-ensures : Ensures (parse_hash_256 setup t) (Good w)
  unfolding parse_hash_256 IsAccepted IsParsed
  parse_hash_256-ensures = skip _ (λ _. skip _ (λ h. returned _ (refl, leaf_modes-LeafRule t)))

  pub parse_hash_160-ensures : Ensures (parse_hash_160 setup t) (Good w)
  unfolding parse_hash_160 IsAccepted IsParsed
  parse_hash_160-ensures = skip _ (λ _. skip _ (λ h. returned _ (refl, leaf_modes-LeafRule t)))

  pub parse_key-ensures :
      (depth : ℕ) (context : Context) → Ensures (parse_key setup depth context t) (Good w)
  unfolding parse_key IsAccepted IsParsed
  parse_key-ensures depth context =
      skip _
        (λ _. skip _ (λ _. skip _ (λ _. skip _ (λ key. returned _ (refl, leaf_modes-LeafRule t)))))

  pub parse_timelock-ensures : Ensures (parse_timelock setup t) (Good w)
  unfolding parse_timelock IsAccepted IsParsed
  parse_timelock-ensures = skip _ (λ _. skip _ (λ n. required _ _ (λ e.
      let low : 1 ≤ n = ground arith in
      let high : n < 2 ^ 31 = ground arith in
      returned _ ((refl, low, high), (timelock_modes-TimelockRule t, low, high)))))

-- Each key takes a round.
keys_loop-ensures :
    (setup : Setup) (fuel : ℕ) → Ensures (keys_loop setup fuel) (λ keys. length keys < fuel)
unfolding keys_loop
keys_loop-ensures setup zero = faulted
keys_loop-ensures setup (suc fuel) = skip _ (λ c. either_branch _ (returned _ (omega arith)) (
    skip _ (λ _. skip _ (λ _.
      skip _
        (λ key. then_use (keys_loop-ensures setup fuel) (λ keys h. returned _ (omega arith)))))))

pub parse_multisig-ensures :
    (setup : Setup) (fuel depth : ℕ) (context : Context) (w : Bool) (t : PolicyNodeType)
    → fuel ≤ 2 ^ 15
    → Ensures (parse_multisig setup fuel depth context t) (Good w)
unfolding parse_multisig IsAccepted IsParsed
parse_multisig-ensures setup fuel depth context w t small = skip _ (λ _. skip _ (λ _. skip _ (λ _.
    skip _ (λ k. skip _ (λ _. skip _ (λ _. then_use (keys_loop-ensures setup fuel) (λ keys few.
      required _ _ (λ e.
        let all : wrapped (length keys) ≡ length keys = omega arith in
        let low : 1 ≤ k = ground arith in
        let enough : k ≤ length keys = ground arith in
        let most : length keys ≤ 16 = ground arith in
        returned _
          ((refl, low, enough, most), (multisig_modes-MultisigRule t, low, enough, most))))))))))

module _ (setup : Setup) (script : ScriptParser)
    (ensures : (depth : ℕ) (context : Context)
      → Ensures (script depth context) (Good context.within_tr)) where
  pub parse_child_script-ensures :
      (depth : ℕ) (context : Context)
      → Ensures (parse_child_script setup script depth context) (Good context.within_tr)
  unfolding parse_child_script
  parse_child_script-ensures depth context = skip _ (λ _. ensures (depth + 1) context)

  pub parse_script2-ensures :
      (depth : ℕ) (context : Context) (t : PolicyNodeType)
      → Ensures (parse_script2 setup script depth context t) (Good context.within_tr)
  unfolding parse_script2 IsTyped IsParsed IsAccepted
  parse_script2-ensures depth context t = skip _ (λ _.
      then_use (parse_child_script-ensures depth context) (λ X hX. skip _ (λ _.
        then_use (parse_child_script-ensures depth context) (λ Y hY. lifted (λ x ex. lifted (λ y ey.
          lifted (λ m em. returned _ (
            (
              x,
              y,
              ex,
              ey,
              IsParsed-IsTyped _ X x hX.0 ex,
              IsParsed-IsTyped _ Y y hY.0 ey,
              (m, refl, em),
            ),
            (x, y, ex, ey, hX.1, hY.1, (m, refl, script2_modes-Script2Rule t x y m em)),
          ))))))))

  pub parse_andor-ensures :
      (depth : ℕ) (context : Context)
      → Ensures (parse_andor setup script depth context) (Good context.within_tr)
  unfolding parse_andor IsTyped IsParsed IsAccepted
  parse_andor-ensures depth context = skip _ (λ _.
      then_use (parse_child_script-ensures depth context) (λ X hX. skip _ (λ _.
        then_use (parse_child_script-ensures depth context) (λ Y hY. skip _ (λ _.
          then_use (parse_child_script-ensures depth context) (λ Z hZ. lifted (λ x ex.
            lifted (λ y ey. lifted (λ z ez. lifted (λ m em. returned _ (
              (
                x,
                y,
                z,
                ex,
                ey,
                ez,
                IsParsed-IsTyped _ X x hX.0 ex,
                IsParsed-IsTyped _ Y y hY.0 ey,
                IsParsed-IsTyped _ Z z hZ.0 ez,
                refl,
                (m, refl, em),
              ),
              (
                x,
                y,
                z,
                ex,
                ey,
                ez,
                hX.1,
                hY.1,
                hZ.1,
                refl,
                (m, refl, andor_modes-AndorRule x y z m em),
              ),
            )))))))))))

  pub parse_wrapped-ensures :
      (depth : ℕ) (context : Context) (t : PolicyNodeType)
      → Ensures (parse_wrapped setup script depth context t) (Good context.within_tr)
  unfolding parse_wrapped IsParsed IsAccepted
  parse_wrapped-ensures depth context t =
      skip _ (λ _. skip _ (λ _. then_use (ensures (depth + 1) context) (λ X hX. returned _ hX)))

pub parse_tr-ensures :
    (setup : Setup) (tree : ℕ → Parser PolicyTree)
    → ((depth : ℕ) → Ensures (tree depth) GoodTree)
    → (depth : ℕ) (w : Bool) → Ensures (parse_tr setup tree depth) (Good w)
unfolding parse_tr IsParsed IsAccepted
parse_tr-ensures setup tree ensures depth w = skip _ (λ _. skip _ (λ _. skip _ (λ _. skip _ (λ key.
    skip _ (λ c.
      either_branch _
        (skip _ (λ _.
          skip _ (λ _.
            then_use (ensures (depth + 1)) (λ t ht. returned _ ((refl, ht.0), (refl, ht.1))))))
        (skip _ (λ _. returned _ (refl, refl))))))))
