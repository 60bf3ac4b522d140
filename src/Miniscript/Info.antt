-- ===== src/Miniscript/Info.antt =====
-- src/common/wallet.c, `compute_miniscript_policy_ext_info`: scripts without children, and wrappers.
use acre_ledger_app.Base.{
  ℕ, ◌+◌, ◌*◌, ◌%◌, ◌^◌, Option, none, some, Bool, true, false, not, ◌==◌, leb, if◌then◌else◌,
  bit_and,
}
use acre_ledger_app.Script.{get_push_script_size}
use acre_ledger_app.Miniscript.Node.{
  PolicyNodeType, token_pk, token_pkh, token_multi, token_multi_a, token_0, token_1, token_pk_k,
  token_pk_h, token_older, token_after, token_sha256, token_hash256, token_ripemd160, token_hash160,
  token_a, token_s, token_c, token_t, token_d, token_v, token_j, token_n, token_l, token_u,
}
use acre_ledger_app.Miniscript.Amount.{Amount, sumcheck, maxcheck}

pub data MiniscriptContext : Type 0 where
  p2wsh tapscript : MiniscriptContext

pub record MiniscriptOps : Type 0 where
  pub count : ℕ
  pub sat : Amount
  pub dsat : Amount

pub record MiniscriptStacksize : Type 0 where
  pub sat : Amount
  pub dsat : Amount

-- `policy_node_ext_info_t`
pub record ExtInfo : Type 0 where
  pub ops : MiniscriptOps
  pub ss : MiniscriptStacksize
  pub script_size : ℕ
  pub s : Bool
  pub f : Bool
  pub e : Bool
  pub m : Bool
  pub g : Bool
  pub h : Bool
  pub i : Bool
  pub j : Bool
  pub k : Bool
  pub x : Bool

abbrev pub new_ops : ℕ → Amount → Amount → MiniscriptOps
new_ops count sat dsat = record { count = count % 2 ^ 16; sat = sat; dsat = dsat }

abbrev pub new_ss : Amount → Amount → MiniscriptStacksize
new_ss sat dsat = record { sat = sat; dsat = dsat }

-- `out` after the flags that are 1 in most cases are set, with the sizes
abbrev pub info : ℕ → MiniscriptOps → MiniscriptStacksize → ExtInfo
info script_size ops ss = record {
  ops = ops;
  ss = ss;
  script_size = script_size % 2 ^ 16;
  s = false;
  f = false;
  e = false;
  m = true;
  g = false;
  h = false;
  i = false;
  j = false;
  k = true;
  x = true;
}

abbrev key_size : MiniscriptContext → ℕ
key_size tapscript = 33
key_size p2wsh = 34

abbrev signed : ExtInfo → ExtInfo
signed out = record out { s = true; e = true }

-- The tokens without arguments, of keys and of hashes
unfoldable pub leaf_info : MiniscriptContext → PolicyNodeType → Option ExtInfo
leaf_info ctx token_0 = some (signed (info 1 (new_ops 0 none (some 0)) (new_ss none (some 0))))
leaf_info ctx token_1 =
    some (record (info 1 (new_ops 0 (some 0) none) (new_ss (some 0) none)) { f = true })
leaf_info ctx token_pk_k =
    some (signed (info (key_size ctx) (new_ops 0 (some 0) (some 0)) (new_ss (some 1) (some 1))))
leaf_info ctx token_pk_h =
    some (signed (info (3 + 21) (new_ops 3 (some 0) (some 0)) (new_ss (some 2) (some 2))))
leaf_info ctx token_pk =
    some
      (record (signed
        (info (key_size ctx + 1) (new_ops 1 (some 0) (some 0)) (new_ss (some 1) (some 1)))) {
          x = false;
        })
leaf_info ctx token_pkh =
    some
      (record (signed
        (info (3 + 21 + 1) (new_ops 4 (some 0) (some 0)) (new_ss (some 2) (some 2)))) { x = false })
leaf_info ctx token_sha256 =
    some (record (info (4 + 2 + 33) (new_ops 4 (some 0) none) (new_ss (some 1) none)) { x = false })
leaf_info ctx token_hash256 =
    some (record (info (4 + 2 + 33) (new_ops 4 (some 0) none) (new_ss (some 1) none)) { x = false })
leaf_info ctx token_ripemd160 =
    some (record (info (4 + 2 + 21) (new_ops 4 (some 0) none) (new_ss (some 1) none)) { x = false })
leaf_info ctx token_hash160 =
    some (record (info (4 + 2 + 21) (new_ops 4 (some 0) none) (new_ss (some 1) none)) { x = false })
leaf_info ctx _ = none

-- `k + 1` is an `int16_t`: the parser admits no `k` greater than 16.
unfoldable pub multisig_info : PolicyNodeType → ℕ → ℕ → Option ExtInfo
multisig_info token_multi k n =
    some
      (record (signed (
        info (1 + get_push_script_size k + get_push_script_size n + 34 * n)
          (new_ops 1 (some n) (some n)) (new_ss (some (k + 1)) (some (k + 1))))) { x = false })
multisig_info token_multi_a k n =
    some
      (record (signed (
        info (1 + get_push_script_size k + 34 * n) (new_ops (n + 1) (some 0) (some 0))
          (new_ss (some n) (some n)))) { x = false })
multisig_info _ k n = none

abbrev sequence_locktime_type_flag : ℕ
sequence_locktime_type_flag = 2 ^ 22

abbrev locktime_threshold : ℕ
locktime_threshold = 500000000

abbrev timelock : ℕ → ExtInfo
timelock n =
    record (info (1 + get_push_script_size n) (new_ops 1 (some 0) none) (new_ss (some 0) none)) {
      f = true;
    }

unfoldable pub timelock_info : PolicyNodeType → ℕ → Option ExtInfo
timelock_info token_older n = some (
    if not (bit_and n sequence_locktime_type_flag == 0)
    then record (timelock n) { g = true }
    else record (timelock n) { h = true })
timelock_info token_after n = some (
    if leb locktime_threshold n
    then record (timelock n) { i = true }
    else record (timelock n) { j = true })
timelock_info _ n = none

-- What every wrapper takes over from its child
abbrev wrap : ExtInfo → ℕ → MiniscriptOps → MiniscriptStacksize → ExtInfo
wrap x script_size ops ss = record (info script_size ops ss) {
  s = x.s;
  m = x.m;
  g = x.g;
  h = x.h;
  i = x.i;
  j = x.j;
  k = x.k;
}

-- `out->script_size += x.x`, an int
abbrev bit : Bool → ℕ
bit b = if b then 1 else 0

abbrev a_wrapper_info : ExtInfo → Option ExtInfo
a_wrapper_info x =
    some
      (record (wrap x (x.script_size + 2) (new_ops (2 + x.ops.count) x.ops.sat x.ops.dsat) x.ss) {
        f = x.f;
        e = x.e;
      })

abbrev s_wrapper_info : ExtInfo → Option ExtInfo
s_wrapper_info x =
    some
      (record (wrap x (x.script_size + 1) (new_ops (1 + x.ops.count) x.ops.sat x.ops.dsat) x.ss) {
        f = x.f;
        e = x.e;
        x = x.x;
      })

abbrev n_wrapper_info : ExtInfo → Option ExtInfo
n_wrapper_info x =
    some
      (record (wrap x (x.script_size + 1) (new_ops (1 + x.ops.count) x.ops.sat x.ops.dsat) x.ss) {
        f = x.f;
        e = x.e;
      })

abbrev c_wrapper_info : ExtInfo → Option ExtInfo
c_wrapper_info x =
    some
      (record (wrap x (x.script_size + 1) (new_ops (1 + x.ops.count) x.ops.sat x.ops.dsat) x.ss) {
        s = true;
        f = x.f;
        e = x.e;
        x = false;
      })

abbrev d_wrapper_info : ExtInfo → Option ExtInfo
d_wrapper_info x =
    some
      (record (wrap x (x.script_size + 3) (new_ops (3 + x.ops.count) x.ops.sat (some 0))
        (new_ss (sumcheck (some 1) x.ss.sat) (some 1))) { e = true })

abbrev t_wrapper_info : ExtInfo → Option ExtInfo
t_wrapper_info x =
    some
      (record (wrap x (x.script_size + 1) (new_ops x.ops.count x.ops.sat none)
        (new_ss x.ss.sat none)) { f = true })

abbrev v_wrapper_info : ExtInfo → Option ExtInfo
v_wrapper_info x =
    some
      (record (wrap x (x.script_size + bit x.x) (new_ops (x.ops.count + bit x.x) x.ops.sat none)
        (new_ss x.ss.sat none)) { f = true })

abbrev j_wrapper_info : ExtInfo → Option ExtInfo
j_wrapper_info x =
    some
      (record (wrap x (x.script_size + 4) (new_ops (4 + x.ops.count) x.ops.sat (some 0))
        (new_ss x.ss.sat (some 1))) { e = x.f })

abbrev l_wrapper_info : ExtInfo → Option ExtInfo
l_wrapper_info x =
    some
      (record (wrap x (x.script_size + 4) (new_ops (3 + x.ops.count) x.ops.sat x.ops.dsat)
        (new_ss (sumcheck x.ss.sat (some 1)) (maxcheck (some 1) (sumcheck x.ss.dsat (some 1))))) {
          e = x.f;
        })

abbrev u_wrapper_info : ExtInfo → Option ExtInfo
u_wrapper_info x =
    some
      (record (wrap x (x.script_size + 4) (new_ops (3 + x.ops.count) x.ops.sat x.ops.dsat)
        (new_ss (sumcheck x.ss.sat (some 1)) (maxcheck (some 1) (sumcheck x.ss.dsat (some 1))))) {
          e = x.f;
        })

unfoldable pub wrapper_info : PolicyNodeType → ExtInfo → Option ExtInfo
wrapper_info token_a x = a_wrapper_info x
wrapper_info token_s x = s_wrapper_info x
wrapper_info token_n x = n_wrapper_info x
wrapper_info token_c x = c_wrapper_info x
wrapper_info token_d x = d_wrapper_info x
wrapper_info token_t x = t_wrapper_info x
wrapper_info token_v x = v_wrapper_info x
wrapper_info token_j x = j_wrapper_info x
wrapper_info token_l x = l_wrapper_info x
wrapper_info token_u x = u_wrapper_info x
wrapper_info _ x = none
