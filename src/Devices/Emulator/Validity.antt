-- ===== src/Devices/Emulator/Validity.antt =====
-- The validity of an emulated list under its operations.
use sysbox_runc.Prelude.{
  ◌≡◌, subst, ◌⊎◌, Bool, true, false, [], arith, ◌==◌, nat_eq, lookup, put, delete, lookup-put,
  lookup-delete, put-IsMap, delete-IsMap, Bool-cases, inl, inr, eq_cases,
}
use sysbox_runc.Devices.Device.{Permissions, Rule, is_empty, union, difference}
use sysbox_runc.Devices.Device.Sets.{
  join, minus, access, grants, is_empty-spell, spell-join, spell-minus, access-spell,
}
use sysbox_runc.Devices.Emulator.{
  DeviceMeta, meta_eq, meta_beq_iff, DeviceRule, Emulator, perms_of, add_rule, rm_rule, apply,
}
use sysbox_runc.Devices.Emulator.Views.{is_node, IsEntry, IsValid}

put-IsValid :
    (m : DeviceMeta) (p : Permissions) (e : Emulator)
    → IsValid e
    → IsEntry m p
    → IsValid (record e { rules = put m p e.rules })
put-IsValid m p e v entry = record {
  unique = put-IsMap m p e.rules v.unique;
  stored = λ k q h. elim (eq_cases m k) [
    | inl same ↦
        subst (λ j. IsEntry j q) same
          (subst (IsEntry m) (ground (arith, lookup-put m k p e.rules, meta_beq_iff m k)) entry)
    | inr other ↦ v.stored k q (ground (arith, lookup-put m k p e.rules))
  ];
}

delete-IsValid :
    (m : DeviceMeta) (e : Emulator) → IsValid e → IsValid (record e { rules = delete m e.rules })
delete-IsValid m e v = record {
  unique = delete-IsMap m e.rules v.unique;
  stored = λ k q h. elim (Bool-cases (m == k)) [
    | inl same ↦ absurd (ground (arith, lookup-delete m k e.rules))
    | inr other ↦ v.stored k q (ground (arith, lookup-delete m k e.rules))
  ];
}

union-IsEntry :
    (m : DeviceMeta) (p o : Permissions)
    → is_node m.node ≡ true
    → grants (access p) ≡ true
    → IsEntry m (union p o)
union-IsEntry m p o n g = rw (spell-join p o) record {
  node_known = n;
  spelled = rw (access-spell (join (access p) (access o)));
  nonempty = ground (arith, is_empty-spell (join (access p) (access o)));
}

difference-IsEntry :
    (m : DeviceMeta) (p o : Permissions)
    → is_node m.node ≡ true
    → is_empty (difference p o) ≡ false
    → IsEntry m (difference p o)
difference-IsEntry m p o n g = record {
  node_known = n;
  spelled = rw (spell-minus p o, access-spell (minus (access p) (access o)));
  nonempty = g;
}

add_rule-IsValid :
    (rule : DeviceRule) (e : Emulator)
    → is_node rule.meta.node ≡ true
    → grants (access rule.perms) ≡ true
    → IsValid e
    → IsValid (add_rule rule e).0
unfolding add_rule
add_rule-IsValid rule e n g v =
    put-IsValid rule.meta _ e v
      (union-IsEntry rule.meta rule.perms (perms_of rule.meta e.rules) n g)

rm_rule_cases :
    (rule : DeviceRule) (e : Emulator)
    → let new = difference (perms_of rule.meta e.rules) rule.perms in
      ((rm_rule rule e).0 ≡ e)
      ⊎ ((rm_rule rule e).0 ≡ record e { rules = delete rule.meta e.rules })
      ⊎ ((is_empty new ≡ false)
          × ((rm_rule rule e).0 ≡ record e { rules = put rule.meta new e.rules }))
unfolding rm_rule
rm_rule_cases rule e = ground arith

rm_rule-IsValid :
    (rule : DeviceRule) (e : Emulator)
    → is_node rule.meta.node ≡ true
    → IsValid e
    → IsValid (rm_rule rule e).0
rm_rule-IsValid rule e n v = elim (rm_rule_cases rule e) [
  | inl same ↦ rw same v
  | inr (inl gone) ↦ rw gone (delete-IsValid rule.meta e v)
  | inr (inr (left, stored)) ↦ rw stored (
      put-IsValid rule.meta _ e v
        (difference-IsEntry rule.meta (perms_of rule.meta e.rules) rule.perms n left))
]

pub reset-IsValid : (mode : Bool) → IsValid (record { default_allow = mode; rules = [] })
unfolding lookup
reset-IsValid mode = record { unique = tt; stored = λ m p h. absurd (ground arith) }

-- A rule for one device or a wildcard of devices.
abbrev pub device_rule : Rule → DeviceRule
device_rule rule = record {
  meta = record { node = rule.node; major = rule.major; minor = rule.minor };
  perms = rule.permissions;
}

abbrev pub reset : Bool → Emulator
reset mode = record { default_allow = mode; rules = [] }

-- The four ways in which `Apply` leaves the emulator.
apply_cases :
    (rule : Rule) (e : Emulator)
    → ((apply rule e).0 ≡ e)
      ⊎ ((apply rule e).0 ≡ reset rule.allow)
      ⊎ ((is_node rule.node ≡ true) × ((apply rule e).0 ≡ (add_rule (device_rule rule) e).0))
      ⊎ ((is_node rule.node ≡ true) × ((apply rule e).0 ≡ (rm_rule (device_rule rule) e).0))
unfolding apply
apply_cases rule e = ground arith

-- `Apply` of a rule that grants something keeps the list valid: keys are unique, and each entry is
-- a block or character device with permissions in canonical spelling that are not empty.
pub apply-IsValid :
    (rule : Rule) (e : Emulator)
    → grants (access rule.permissions) ≡ true
    → IsValid e
    → IsValid (apply rule e).0
apply-IsValid rule e g v = elim (apply_cases rule e) [
  | inl same ↦ rw same v
  | inr (inl cleared) ↦ rw cleared (reset-IsValid rule.allow)
  | inr (inr (inl (n, added))) ↦ rw added (add_rule-IsValid (device_rule rule) e n g v)
  | inr (inr (inr (n, removed))) ↦ rw removed (rm_rule-IsValid (device_rule rule) e n v)
]
