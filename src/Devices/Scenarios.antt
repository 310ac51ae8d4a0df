-- ===== src/Devices/Scenarios.antt =====
-- Concrete device lists, and the transitions between them.
use sysbox_runc.Prelude.{
  ◌≡◌, refl, inl, true, false, none, some, [], ◌∷◌, lookup, put, delete, arith, ok,
}
use sysbox_runc.Prelude.Int.{pos}
use sysbox_runc.Devices.Device.{
  Permissions, Rule, char_device, is_valid, from_set, to_set, is_empty, difference, union,
  intersection, can_cgroup,
}
use sysbox_runc.Devices.Device.Sets.{access}
use sysbox_runc.Devices.Emulator.{
  DeviceMeta, meta_eq, meta_beq, Emulator, perms_of, add_rule, rm_rule, find_hole, apply,
  ordered_entries, is_blacklist, allow, deny,
}
use sysbox_runc.Devices.Emulator.Views.{IsValid}
use sysbox_runc.Devices.Emulator.Validity.{apply-IsValid, reset, reset-IsValid, device_rule}
use sysbox_runc.Devices.Transition.{
  transition, apply_all, is_disruptive, rule_at, transition_from, missing_rules,
}
use sysbox_runc.Devices.Transition.Correctness.{Reaches, transition-Reaches}
use sysbox_runc.Devices.Transition.Totality.{transition_total}
use sysbox_runc.Devices.Lines.{cgroup_string, parse_line}
use sysbox_runc.Devices.Lines.RoundTrip.{parse_line-cgroup_string}

-- `/dev/null`: `c 1:3 rwm`
abbrev null_device : DeviceMeta
null_device = record { node = char_device; major = pos 1; minor = pos 3 }

abbrev rwm : Permissions
rwm = b'r' ∷ b'w' ∷ b'm' ∷ []

abbrev rw_only : Permissions
rw_only = b'r' ∷ b'w' ∷ []

abbrev allow_null : Rule
allow_null = rule_at null_device rwm true

-- A list that denies everything but `/dev/null`.
abbrev null_only : Emulator
null_only = (apply allow_null (reset false)).0

abbrev null_only-IsValid : IsValid null_only
null_only-IsValid =
    apply-IsValid allow_null (reset false) (unfold access in refl) (reset-IsValid false)

apply-IsValid_example : IsValid (apply allow_null (reset false)).0
unfolding access
apply-IsValid_example = apply-IsValid allow_null (reset false) refl (reset-IsValid false)

-- The access of `/dev/null` is taken back: a plain transition, with one `deny` rule.
null_runs : (apply_all (transition null_only (reset false)) null_only).1 ≡ none
unfolding apply_all transition transition_from is_disruptive is_blacklist apply add_rule rm_rule put
    delete lookup missing_rules ordered_entries is_empty difference union intersection perms_of
    meta_beq can_cgroup from_set to_set allow deny find_hole
null_runs = refl

transition-Reaches_example :
    Reaches (reset false) (apply_all (transition null_only (reset false)) null_only).0
transition-Reaches_example =
    transition-Reaches null_only (reset false) null_only-IsValid (reset-IsValid false) null_runs

transition_total_example :
    ((apply_all (transition (reset true) null_only) (reset true)).1 ≡ none)
    × Reaches null_only (apply_all (transition (reset true) null_only) (reset true)).0
unfolding is_disruptive is_blacklist
transition_total_example =
    transition_total (reset true) null_only (reset-IsValid true) null_only-IsValid (inl refl)

parse_line-cgroup_string_example :
    parse_line (cgroup_string allow_null) ≡ ok (some (device_rule allow_null))
parse_line-cgroup_string_example =
    parse_line-cgroup_string allow_null refl (omega arith) (omega arith)
      (unfold is_valid from_set to_set in refl) (unfold is_empty in refl)
