-- ===== src/Miniscript/Script2.antt =====
-- src/common/wallet.c, `compute_miniscript_policy_ext_info`: scripts with two or three children.
use acre_ledger_app.Base.{ℕ, ◌+◌, Option, none, some, Bool, true, not, ◌&&◌, ◌||◌}
use acre_ledger_app.Miniscript.Node.{
  PolicyNodeType, token_and_v, token_and_b, token_and_n, token_or_b, token_or_c, token_or_d,
  token_or_i,
}
use acre_ledger_app.Miniscript.Amount.{sumcheck, maxcheck}
use acre_ledger_app.Miniscript.Info.{
  ExtInfo, MiniscriptOps, MiniscriptStacksize, info, new_ops, new_ss,
}

-- A time lock of one child and a height lock of the other
abbrev mixed_locks : ExtInfo → ExtInfo → Bool
mixed_locks x y = (x.g && y.h) || (x.h && y.g) || (x.i && y.j) || (x.j && y.i)

-- Both children are run.
abbrev conjunction : ExtInfo → ExtInfo → ℕ → MiniscriptOps → MiniscriptStacksize → ExtInfo
conjunction x y script_size ops ss = record (info script_size ops ss) {
  s = x.s || y.s;
  g = x.g || y.g;
  h = x.h || y.h;
  i = x.i || y.i;
  j = x.j || y.j;
  k = x.k && y.k && not (mixed_locks x y);
}

-- One of the children is enough.
abbrev disjunction : ExtInfo → ExtInfo → ℕ → MiniscriptOps → MiniscriptStacksize → ExtInfo
disjunction x z script_size ops ss = record (info script_size ops ss) {
  s = x.s && z.s;
  g = x.g || z.g;
  h = x.h || z.h;
  i = x.i || z.i;
  j = x.j || z.j;
  k = x.k && z.k;
}

abbrev and_v_info : ExtInfo → ExtInfo → Option ExtInfo
and_v_info x y =
    some
      (record (conjunction x y (x.script_size + y.script_size)
        (new_ops (x.ops.count + y.ops.count) (sumcheck x.ops.sat y.ops.sat) none)
        (new_ss (sumcheck x.ss.sat y.ss.sat) none)) { f = x.s || y.f; m = x.m && y.m; x = y.x })

abbrev and_b_info : ExtInfo → ExtInfo → Option ExtInfo
and_b_info x y =
    some
      (record (conjunction x y (1 + x.script_size + y.script_size)
        (new_ops (1 + x.ops.count + y.ops.count) (sumcheck x.ops.sat y.ops.sat)
          (sumcheck x.ops.dsat y.ops.dsat))
        (new_ss (sumcheck x.ss.sat y.ss.sat) (sumcheck x.ss.dsat y.ss.dsat))) {
          f = (x.f && y.f) || (x.s && x.f) || (y.s && y.f);
          e = x.e && y.e && x.s && y.s;
          m = x.m && y.m;
        })

abbrev and_n_info : ExtInfo → ExtInfo → Option ExtInfo
and_n_info x y =
    some
      (record (conjunction x y (4 + x.script_size + y.script_size)
        (new_ops (3 + x.ops.count + y.ops.count)
          (maxcheck (sumcheck y.ops.sat x.ops.sat) y.ops.dsat) x.ops.dsat)
        (new_ss (sumcheck x.ss.sat y.ss.sat) x.ss.dsat)) {
          e = x.s || y.f;
          m = x.m && y.m && x.e && (x.s || y.s);
        })

abbrev or_b_info : ExtInfo → ExtInfo → Option ExtInfo
or_b_info x z =
    some
      (record (disjunction x z (1 + x.script_size + z.script_size)
        (new_ops (1 + x.ops.count + z.ops.count)
          (maxcheck (sumcheck x.ops.sat z.ops.dsat) (sumcheck z.ops.sat x.ops.dsat))
          (sumcheck x.ops.dsat z.ops.dsat))
        (new_ss (maxcheck (sumcheck x.ss.dsat z.ss.sat) (sumcheck x.ss.sat z.ss.dsat))
          (sumcheck x.ss.dsat z.ss.dsat))) {
            e = true;
            m = x.m && z.m && x.e && z.e && (x.s || z.s);
          })

abbrev or_c_info : ExtInfo → ExtInfo → Option ExtInfo
or_c_info x z =
    some
      (record (disjunction x z (2 + x.script_size + z.script_size)
        (new_ops (2 + x.ops.count + z.ops.count)
          (maxcheck x.ops.sat (sumcheck z.ops.sat x.ops.dsat)) none)
        (new_ss (maxcheck x.ss.sat (sumcheck x.ss.dsat z.ss.sat)) none)) {
          f = true;
          m = x.m && z.m && x.e && (x.s || z.s);
        })

abbrev or_d_info : ExtInfo → ExtInfo → Option ExtInfo
or_d_info x z =
    some
      (record (disjunction x z (3 + x.script_size + z.script_size)
        (new_ops (3 + x.ops.count + z.ops.count)
          (maxcheck x.ops.sat (sumcheck z.ops.sat x.ops.dsat)) (sumcheck x.ops.dsat z.ops.dsat))
        (new_ss (maxcheck x.ss.sat (sumcheck x.ss.dsat z.ss.sat)) (sumcheck x.ss.dsat z.ss.dsat))) {
          f = z.f;
          e = z.e;
          m = x.m && z.m && x.e && (x.s || z.s);
        })

abbrev or_i_info : ExtInfo → ExtInfo → Option ExtInfo
or_i_info x z =
    some
      (record (disjunction x z (3 + x.script_size + z.script_size)
        (new_ops (3 + x.ops.count + z.ops.count) (maxcheck x.ops.sat z.ops.sat)
          (maxcheck x.ops.dsat z.ops.dsat))
        (new_ss (maxcheck (sumcheck x.ss.sat (some 1)) (sumcheck z.ss.sat (some 1)))
          (maxcheck (sumcheck x.ss.dsat (some 1)) (sumcheck z.ss.dsat (some 1))))) {
            f = x.f && z.f;
            e = (x.e && z.f) || (z.e && x.f);
            m = x.m && z.m && (x.s || z.s);
          })

unfoldable pub script2_info : PolicyNodeType → ExtInfo → ExtInfo → Option ExtInfo
script2_info token_and_v x y = and_v_info x y
script2_info token_and_b x y = and_b_info x y
script2_info token_and_n x y = and_n_info x y
script2_info token_or_b x z = or_b_info x z
script2_info token_or_c x z = or_c_info x z
script2_info token_or_d x z = or_d_info x z
script2_info token_or_i x z = or_i_info x z
script2_info _ x z = none

unfoldable pub andor_info : ExtInfo → ExtInfo → ExtInfo → ExtInfo
andor_info x y z =
    record (info (3 + x.script_size + y.script_size + z.script_size)
      (new_ops (3 + x.ops.count + y.ops.count + z.ops.count)
        (maxcheck (sumcheck y.ops.sat x.ops.sat) (sumcheck y.ops.dsat z.ops.sat))
        (sumcheck x.ops.dsat z.ops.dsat))
      (new_ss (maxcheck (sumcheck x.ss.sat y.ss.sat) (sumcheck x.ss.dsat z.ss.sat))
        (sumcheck x.ss.dsat z.ss.dsat))) {
          s = z.s && (x.s || y.s);
          f = z.f && (x.s || y.f);
          e = z.e && (x.s || y.f);
          m = x.m && y.m && z.m && x.e && (x.s || y.s || z.s);
          g = x.g || y.g || z.g;
          h = x.h || y.h || z.h;
          i = x.i || y.i || z.i;
          j = x.j || y.j || z.j;
          k = x.k && y.k && z.k && not (mixed_locks x y);
        }
