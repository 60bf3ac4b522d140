-- ===== src/Miniscript/Accepted/Tests.antt =====
-- src/common/wallet.c: a template, from its text on.
use acre_ledger_app.Base.{
  arith, ℕ, ◌≡◌, ◌≤◌, refl, none, some, List, [], ◌∷◌, length, replicate, false, true,
}
use acre_ledger_app.Buffer
use acre_ledger_app.Buffer.{Buffer}
use acre_ledger_app.Policy.Text.{
  is_digit, is_alpha, is_alphanumeric, is_lowercase_hex, consume_character, matches_at,
  consume_characters, decimal_loop, parse_unsigned_decimal, buffer_read_derivation_step,
}
use acre_ledger_app.Policy.Placeholder.{
  KeyPlaceholder, read_derivation_pair, read_wildcard, read_derivation, read_suffix,
  parse_placeholder,
}
use acre_ledger_app.Miniscript.Node.{
  type_b, type_v, PolicyNode, with_script, with_script2, with_key, with_uint32, tr_key, node_flags,
  token_wsh, token_pk, token_tr, token_older, token_and_v, token_v,
}
use acre_ledger_app.Miniscript.Typing.{
  modes, leaf_modes, timelock_modes, wrapper_modes, script2_modes,
}
use acre_ledger_app.Miniscript.Token.{read_token, parse_token, count_wrappers}
use acre_ledger_app.Miniscript.Parser.{
  Setup, allocate, align, ◌>>=◌, return, fail, fault, require, lift,
}
use acre_ledger_app.Miniscript.Fragment.{
  parse_child_script, expect, parse_script2, parse_key, parse_timelock, parse_wrapped, parse_tr,
}
use acre_ledger_app.Miniscript.Parse.{
  parse_arguments, parse_wrappers, parse_prefix, apply_wrappers, script_body, parse_script,
  parse_descriptor_template,
}
use acre_ledger_app.Miniscript.Accepted.{IsAccepted}
use acre_ledger_app.Script.{get_push_script_size}
use acre_ledger_app.Miniscript.Amount.{sumcheck, maxcheck}
use acre_ledger_app.Miniscript.Info.{p2wsh, leaf_info, timelock_info, wrapper_info}
use acre_ledger_app.Miniscript.Script2.{script2_info}
use acre_ledger_app.Miniscript.Analysis.{
  compute_miniscript_policy_ext_info, is_miniscript_sane, check_info, check_sizes, sane_with,
}
use acre_ledger_app.Miniscript.Typed.{IsBounded}
use acre_ledger_app.Miniscript.Ways.{script_ways}
use acre_ledger_app.Miniscript.Maximum.{IsMaximum}
use acre_ledger_app.Miniscript.Accepted.Sane.{parse_descriptor_template-items}
use acre_ledger_app.Miniscript.Accepted.Whole.{parse_descriptor_template-IsAccepted}

-- wsh(and_v(v:pk(@0/**),older(12960)))
abbrev template : List ℕ
template =
    119 ∷ 115 ∷ 104 ∷ 40 ∷ 97 ∷ 110 ∷ 100 ∷ 95 ∷ 118 ∷ 40 ∷ 118 ∷ 58 ∷ 112 ∷ 107 ∷ 40 ∷ 64 ∷ 48 ∷ 47
    ∷ 42 ∷ 42 ∷ 41 ∷ 44 ∷ 111 ∷ 108 ∷ 100 ∷ 101 ∷ 114 ∷ 40 ∷ 49 ∷ 50 ∷ 57 ∷ 54 ∷ 48 ∷ 41 ∷ 41 ∷ 41
    ∷ []

abbrev template_buffer : Buffer
template_buffer = Buffer.create template (length template)

-- Every struct has 8 bytes.
abbrev setup : Setup
setup = record { version = 2; address = 1024; size_of = λ struct. 8 }

abbrev key : KeyPlaceholder
key = record { num_first = 0; num_second = 1; key_index = 0 }

abbrev script : PolicyNode
script =
    with_script2 token_and_v (some (modes type_b false true true false false))
      (with_script token_v (some (modes type_v false true true false false))
        (with_key token_pk (some (modes type_b false true true true true)) key))
      (with_uint32 token_older (some (modes type_b true false false false false)) 12960)

template_result :
    parse_descriptor_template setup template_buffer (replicate 200 0) 200
    ≡ some (some (with_script token_wsh none script, 48))
unfolding parse_descriptor_template parse_script script_body parse_arguments parse_prefix
    parse_wrappers apply_wrappers parse_child_script expect parse_script2 parse_key parse_timelock
    parse_wrapped allocate align ◌>>=◌ return fail fault require lift read_token parse_token
    count_wrappers read_derivation_pair read_wildcard read_derivation read_suffix parse_placeholder
    is_digit is_alpha is_alphanumeric is_lowercase_hex consume_character matches_at
    consume_characters decimal_loop parse_unsigned_decimal buffer_read_derivation_step
    Buffer.can_read Buffer.seek_set Buffer.seek_cur Buffer.peek Buffer.peek_n Buffer.read_u8
    Buffer.alloc leaf_modes timelock_modes wrapper_modes script2_modes node_flags
template_result = refl

-- The script in wsh has the flags of and_v.
parse_descriptor_template-IsAccepted_example : IsAccepted false (with_script token_wsh none script)
parse_descriptor_template-IsAccepted_example =
    parse_descriptor_template-IsAccepted setup template_buffer (replicate 200 0) 200
      (with_script token_wsh none script) 48 (omega arith) template_result

script-IsBounded : IsBounded script
unfolding IsBounded
script-IsBounded = (tt, tt)

script_sane : is_miniscript_sane p2wsh script ≡ some (some tt)
unfolding is_miniscript_sane sane_with node_flags compute_miniscript_policy_ext_info leaf_info
    wrapper_info timelock_info script2_info check_info check_sizes sumcheck maxcheck
    get_push_script_size
script_sane = refl

parse_descriptor_template-items_example :
    (items : ℕ) × (items ≤ 100) × IsMaximum (some items) (script_ways script true)
parse_descriptor_template-items_example =
    parse_descriptor_template-items setup template_buffer (replicate 200 0) 200 script 48
      (omega arith) template_result script-IsBounded script_sane

-- tr within wsh is parsed: wsh(tr(@0/**))
abbrev tr_template : List ℕ
tr_template = 119 ∷ 115 ∷ 104 ∷ 40 ∷ 116 ∷ 114 ∷ 40 ∷ 64 ∷ 48 ∷ 47 ∷ 42 ∷ 42 ∷ 41 ∷ 41 ∷ []

tr_in_wsh :
    parse_descriptor_template setup (Buffer.create tr_template 14) (replicate 200 0) 200
    ≡ some (some (with_script token_wsh none (tr_key token_tr none key), 24))
unfolding parse_descriptor_template parse_script script_body parse_arguments parse_prefix
    parse_wrappers apply_wrappers expect parse_wrapped allocate align ◌>>=◌ return fail fault
    require lift read_token parse_token count_wrappers read_derivation_pair read_wildcard
    read_derivation read_suffix parse_placeholder is_digit is_alpha is_alphanumeric is_lowercase_hex
    consume_character matches_at consume_characters decimal_loop parse_unsigned_decimal
    buffer_read_derivation_step Buffer.can_read Buffer.seek_set Buffer.seek_cur Buffer.peek
    Buffer.peek_n Buffer.read_u8 Buffer.alloc leaf_modes timelock_modes wrapper_modes script2_modes
    node_flags parse_tr
tr_in_wsh = refl
