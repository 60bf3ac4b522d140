-- ===== src/Miniscript/Elements/Script2.antt =====
-- src/common/wallet.c: the flags of scripts with two and three children.
use acre_ledger_app.Base.{ℕ, ◌≡◌, refl, ◌∙◌, sym, inl, inr, some, Bool, true, false, ◌&&◌, ◌||◌}
use acre_ledger_app.Miniscript.Node.{
  PolicyNodeType, type_v, Modes, token_and_v, token_and_b, token_and_n, token_or_b, token_or_c,
  token_or_d, token_or_i,
}
use acre_ledger_app.Miniscript.Typing.{script2_modes, andor_modes}
use acre_ledger_app.Miniscript.Ways.{Ways, Both, Either, Exactly, script2_ways, andor_ways}
use acre_ledger_app.Miniscript.Elements.{
  AllAre, Takes, Obeys, AllAre-both, AllAre-either, exact, never, not_true, not_v_b, and_both,
  or_cases, same_type-eq, checked,
}

module _ (x y : Modes) (X Y : Ways) (hx : Obeys x X) (hy : Obeys y Y) where
  x_takes : (c : ℕ) → Takes c X → (b : Bool) → AllAre c (X b)
  x_takes c h true = h.0
  x_takes c h false = h.1

  y_takes : (c : ℕ) → Takes c Y → (b : Bool) → AllAre c (Y b)
  y_takes c h true = h.0
  y_takes c h false = h.1

  pub nothing :
      (x.miniscript_mod_z && y.miniscript_mod_z) ≡ true → (a b : Bool) → AllAre 0 (Both (X a) (Y b))
  nothing e a b =
      let (zx, zy) = and_both _ _ e in
      AllAre-both refl (x_takes 0 (hx.z zx) a) (y_takes 0 (hy.z zy) b)

  pub one_first :
      (x.miniscript_mod_o && y.miniscript_mod_z) ≡ true → (a b : Bool) → AllAre 1 (Both (X a) (Y b))
  one_first e a b =
      let (ox, zy) = and_both _ _ e in
      AllAre-both refl (x_takes 1 (hx.o ox) a) (y_takes 0 (hy.z zy) b)

  pub one_last :
      (x.miniscript_mod_z && y.miniscript_mod_o) ≡ true → (a b : Bool) → AllAre 1 (Both (X a) (Y b))
  one_last e a b =
      let (zx, oy) = and_both _ _ e in
      AllAre-both refl (x_takes 0 (hx.z zx) a) (y_takes 1 (hy.o oy) b)

  pub one :
      ((x.miniscript_mod_z && y.miniscript_mod_o) || (x.miniscript_mod_o && y.miniscript_mod_z))
        ≡ true
      → (a b : Bool) → AllAre 1 (Both (X a) (Y b))
  one e a b = elim (or_cases _ _ e) [
    | inl last ↦ one_last last a b
    | inr first ↦ one_first first a b
  ]

  or_i_forced :
      x.miniscript_type ≡ type_v
      → y.miniscript_type ≡ type_v
      → (n : ℕ) → Either (Both (X false) (Exactly 1)) (Both (Y false) (Exactly 1)) n
      → ⊥
  or_i_forced vx vy n (inl w) = hx.v vx w.0 w.2
  or_i_forced vx vy n (inr w) = hy.v vy w.0 w.2

  pub script2_modes-Obeys :
      (t : PolicyNodeType) (m : Modes) → script2_modes t x y ≡ some m → Obeys m (script2_ways t X Y)
  unfolding script2_modes
  script2_modes-Obeys token_and_v m e = checked _ _ m _ e (λ c. record {
    z = λ e. (nothing e true true, never);
    o = λ e. (one e true true, never);
    v = λ e n w. w;
  })
  script2_modes-Obeys token_and_b m e = checked _ _ m _ e (λ c. record {
    z = λ e. (nothing e true true, nothing e false false);
    o = λ e. (one e true true, one e false false);
    v = not_v_b;
  })
  script2_modes-Obeys token_and_n m e = checked _ _ m _ e (λ c. record {
    z = λ e. (nothing e true true, (hx.z (and_both _ _ e).0).1);
    o = λ e. (one_first e true true, (hx.o (and_both _ _ e).0).1);
    v = not_v_b;
  })
  script2_modes-Obeys token_or_b m e = checked _ _ m _ e (λ c. record {
    z = λ e. (AllAre-either (nothing e false true) (nothing e true false), nothing e false false);
    o = λ e. (AllAre-either (one e false true) (one e true false), one e false false);
    v = not_v_b;
  })
  script2_modes-Obeys token_or_c m e = checked _ _ m _ e (λ c. record {
    z = λ e. (AllAre-either (hx.z (and_both _ _ e).0).0 (nothing e false true), never);
    o = λ e. (AllAre-either (hx.o (and_both _ _ e).0).0 (one_first e false true), never);
    v = λ e n w. w;
  })
  script2_modes-Obeys token_or_d m e = checked _ _ m _ e (λ c. record {
    z = λ e.
        (AllAre-either (hx.z (and_both _ _ e).0).0 (nothing e false true), nothing e false false);
    o = λ e. (
      AllAre-either (hx.o (and_both _ _ e).0).0 (one_first e false true),
      one_first e false false,
    );
    v = not_v_b;
  })
  script2_modes-Obeys token_or_i m e = checked _ _ m _ e (λ c. record {
    z = not_true;
    o = λ e.
        let (zx, zy) = and_both _ _ e in
        (
          AllAre-either (AllAre-both refl (hx.z zx).0 exact) (AllAre-both refl (hy.z zy).0 exact),
          AllAre-either (AllAre-both refl (hx.z zx).1 exact) (AllAre-both refl (hy.z zy).1 exact),
        );
    v = λ e. or_i_forced e (sym (same_type-eq _ _ (and_both _ _ c).1) ∙ e);
  })
  script2_modes-Obeys _ m e = cc

pub andor_modes-Obeys :
    (x y z m : Modes) (X Y Z : Ways)
    → Obeys x X
    → Obeys y Y
    → Obeys z Z
    → andor_modes x y z ≡ some m
    → Obeys m (andor_ways X Y Z)
unfolding andor_modes
andor_modes-Obeys x y z m X Y Z hx hy hz e = checked _ _ m _ e (λ c. record {
  z = λ e.
      let (xy, zz) = and_both _ _ e in
      let (zx, zy) = and_both _ _ xy in
      (
        AllAre-either (AllAre-both refl (hx.z zx).0 (hy.z zy).0)
            (AllAre-both refl (hx.z zx).1 (hz.z zz).0),
        AllAre-both refl (hx.z zx).1 (hz.z zz).1,
      );
  o = λ e. elim (or_cases _ _ e) [
    | inl last ↦
        let (xy, oz) = and_both _ _ last in
        let (zx, oy) = and_both _ _ xy in
        (
          AllAre-either (AllAre-both refl (hx.z zx).0 (hy.o oy).0)
              (AllAre-both refl (hx.z zx).1 (hz.o oz).0),
          AllAre-both refl (hx.z zx).1 (hz.o oz).1,
        )
    | inr first ↦
        let (xy, zz) = and_both _ _ first in
        let (ox, zy) = and_both _ _ xy in
        (
          AllAre-either (AllAre-both refl (hx.o ox).0 (hy.z zy).0)
              (AllAre-both refl (hx.o ox).1 (hz.z zz).0),
          AllAre-both refl (hx.o ox).1 (hz.z zz).1,
        )
  ];
  v = λ e n w.
      let same =
        same_type-eq y.miniscript_type z.miniscript_type (and_both _ _ (and_both _ _ c).0).1 in
      hz.v (sym same ∙ e) w.1 w.3;
})
