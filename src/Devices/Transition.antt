-- ===== src/Devices/Transition.antt =====
-- `Transition` of libcontainer/cgroups/devices/devices_emulator.go: the rules that take a device
-- list from one emulated state to another.
pub mod Steps
pub mod Correctness
pub mod Totality
use sysbox_runc.Prelude.{
  ◌≡◌, refl, Bool, true, false, not, ◌&&◌, ◌||◌, Option, none, some, List, [], ◌∷◌, ◌++◌,
  if◌then◌else◌,
}
use sysbox_runc.Prelude.Int.{negsuc}
use sysbox_runc.Devices.Device.{Permissions, Rule, wildcard_device, difference, is_empty}
use sysbox_runc.Devices.Emulator.{
  DeviceMeta, DeviceRule, DeviceRules, Emulator, EmulatorError, perms_of, ordered_entries,
  is_blacklist, apply,
}

abbrev pub rule_at : DeviceMeta → Permissions → Bool → Rule
rule_at meta perms allow = record {
  node = meta.node;
  major = meta.major;
  minor = meta.minor;
  permissions = perms;
  allow = allow;
}

-- The rule that resets the list and sets its default.
abbrev pub disruptive_rule : Bool → Rule
disruptive_rule allow = record {
  node = wildcard_device;
  major = negsuc 0;
  minor = negsuc 0;
  permissions = b'r' ∷ b'w' ∷ b'm' ∷ [];
  allow = allow;
}

-- The body of both loops: a rule for the permissions of an entry that the other rules lack.
unfoldable pub missing_rules : Bool → DeviceRules → List DeviceRule → List Rule
missing_rules allow others [] = []
missing_rules allow others (rule ∷ entries) =
    let missing = difference rule.perms (perms_of rule.meta others) in
    if not (is_empty missing)
    then rule_at rule.meta missing allow ∷ missing_rules allow others entries
    else missing_rules allow others entries

-- Whether the transition begins with a disruptive rule.
unfoldable pub is_disruptive : Emulator → Emulator → Bool
unfolding is_blacklist
is_disruptive source target =
    is_blacklist source
    || (if source.default_allow then not target.default_allow else target.default_allow)

-- The rules, given whether they begin with a disruptive one. The old rules only count if they do
-- not.
unfoldable pub transition_from : Bool → Emulator → Emulator → List Rule
transition_from disruptive source target =
    let old_rules : DeviceRules = if disruptive then [] else source.rules in
    (if disruptive then disruptive_rule target.default_allow ∷ [] else [])
    ++ (missing_rules target.default_allow target.rules (ordered_entries old_rules)
        ++ missing_rules (not target.default_allow) old_rules (ordered_entries target.rules))

unfoldable pub transition : Emulator → Emulator → List Rule
unfolding transition_from
transition source target = transition_from (is_disruptive source target) source target

-- A loop over rules that stops at the first error, as `buildEmulator` has it.
unfoldable pub apply_all : List Rule → Emulator → Emulator × Option EmulatorError
apply_all [] e = (e, none)
apply_all (rule ∷ rules) e = elim (apply rule e).1 [
  | none ↦ apply_all rules (apply rule e).0
  | some err ↦ ((apply rule e).0, some err)
]
