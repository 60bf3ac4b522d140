-- ===== src/Miniscript/Accepted/Sane.antt =====
-- src/common/wallet.c and src/handler/lib/policy.c: a template that is parsed and then found sane.
use acre_ledger_app.Base.{ℕ, ◌≡◌, ◌≤◌, ◌<◌, ◌^◌, ◌-◌, refl, Option, none, some, Memory, true, false}
use acre_ledger_app.Buffer.{Buffer}
use acre_ledger_app.Miniscript.Node.{Modes, Flags, PolicyNode, with_script, node_flags, token_wsh}
use acre_ledger_app.Miniscript.Info.{ExtInfo, p2wsh}
use acre_ledger_app.Miniscript.Analysis.{is_miniscript_sane, sane_with}
use acre_ledger_app.Miniscript.Typed.{IsBounded}
use acre_ledger_app.Miniscript.Ways.{script_ways}
use acre_ledger_app.Miniscript.Maximum.{IsMaximum}
use acre_ledger_app.Miniscript.Stack.Whole.{is_miniscript_sane-items}
use acre_ledger_app.Miniscript.Parser.{Setup}
use acre_ledger_app.Miniscript.Parse.{parse_descriptor_template}
use acre_ledger_app.Miniscript.Accepted.{IsParsed, IsParsed-IsTyped}
use acre_ledger_app.Miniscript.Accepted.Whole.{parse_descriptor_template-IsParsed}

sane_flags :
    (flags : Flags) (run : Option (Option ExtInfo))
    → sane_with flags run ≡ some (some tt)
    → (m : Modes) × (flags ≡ some m)
unfolding sane_with
sane_flags none none e = cc
sane_flags none (some none) e = cc
sane_flags none (some (some out)) e = cc
sane_flags (some m) run e = (m, refl)

-- When `parse_descriptor_template`, on a text of at most 2 ^ 15 - 2 characters, gives wsh of a script
-- in which each thresh has at least k scripts and at most 128, and `is_miniscript_sane` accepts that
-- script, then it can be satisfied canonically, and the largest canonical way to satisfy it takes at
-- most 100 stack elements. That the types of the script are right is not asked for: the parser sees to
-- it. Nothing is said of the non-canonical ways.
pub parse_descriptor_template-items :
    (setup : Setup) (in_buf : Buffer) (out : Memory) (out_len : ℕ) (script : PolicyNode) (n : ℕ)
    → in_buf.size < 2 ^ 15 - 1
    → parse_descriptor_template setup in_buf out out_len
      ≡ some (some (with_script token_wsh none script, n))
    → IsBounded script
    → is_miniscript_sane p2wsh script ≡ some (some tt)
    → (items : ℕ) × (items ≤ 100) × IsMaximum (some items) (script_ways script true)
unfolding is_miniscript_sane IsParsed
parse_descriptor_template-items setup in_buf out out_len script n short parsed bounded sane =
    let accepted : IsParsed false script =
      parse_descriptor_template-IsParsed setup in_buf out out_len _ n short parsed in
    let (m, flags) = sane_flags (node_flags script) _ sane in
    is_miniscript_sane-items p2wsh false script (IsParsed-IsTyped false script m accepted flags)
      bounded sane
