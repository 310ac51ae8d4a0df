-- ===== src/Devices/Emulator/Views.antt =====
-- What the operations of the emulator do to the accesses that its rules name.
use sysbox_runc.Prelude.{
  ◌≡◌, refl, Bool, true, false, ◌||◌, none, some, [], ◌∷◌, if◌then◌else◌, arith, ◌==◌, nat_eq,
  lookup, put, delete, IsMap, lookup-put, lookup-delete,
}
use sysbox_runc.Devices.Device.{
  DeviceType, Permissions, block_device, char_device, is_empty, union, difference,
}
use sysbox_runc.Devices.Device.Sets.{
  Access, join, minus, access, spell, access-union, access-difference,
}
use sysbox_runc.Devices.Emulator.{
  DeviceMeta, meta_eq, DeviceRule, DeviceRules, Emulator, perms_of, add_rule, rm_rule,
}

-- The accesses that the rule of a device names.
abbrev pub access_at : DeviceMeta → DeviceRules → Access
access_at m rules = access (perms_of m rules)

abbrev pub is_node : DeviceType → Bool
is_node t = (t == block_device) || (t == char_device)

-- A stored rule: a block or character device, and the canonical spelling of a set that is not empty.
pub record IsEntry (m : DeviceMeta) (p : Permissions) : Type 0 where
  pub node_known : is_node m.node ≡ true
  pub spelled : p ≡ spell (access p)
  pub nonempty : is_empty p ≡ false

pub record IsValid (e : Emulator) : Type 0 where
  pub unique : IsMap e.rules
  pub stored : (m : DeviceMeta) (p : Permissions) → lookup m e.rules ≡ some p → IsEntry m p

pub access_of_is_empty : (p : Permissions) → is_empty p ≡ true → access p ≡ access []
unfolding is_empty
access_of_is_empty [] h = refl
access_of_is_empty (x ∷ p) h = cc

perms_of-put :
    (k m : DeviceMeta) (v : Permissions) (rules : DeviceRules)
    → perms_of m (put k v rules) ≡ (if k == m then v else perms_of m rules)
unfolding perms_of
perms_of-put k m v rules = ground (arith, lookup-put k m v rules)

perms_of-delete :
    (k m : DeviceMeta) (rules : DeviceRules)
    → perms_of m (delete k rules) ≡ (if k == m then [] else perms_of m rules)
unfolding perms_of
perms_of-delete k m rules = ground (arith, lookup-delete k m rules)

-- Adding a rule adds its accesses to its own device and to no other.
pub access_at-add_rule :
    (rule : DeviceRule) (e : Emulator) (m : DeviceMeta)
    → access_at m (add_rule rule e).0.rules ≡ (
        if rule.meta == m
        then join (access rule.perms) (access_at rule.meta e.rules)
        else access_at m e.rules)
unfolding add_rule
access_at-add_rule rule e m = ground (
  arith,
  perms_of-put rule.meta m (union rule.perms (perms_of rule.meta e.rules)) e.rules,
  access-union rule.perms (perms_of rule.meta e.rules),
)

-- If removing a rule is not refused, its accesses are taken from its own device and from no other.
pub access_at-rm_rule :
    (rule : DeviceRule) (e : Emulator) (m : DeviceMeta)
    → (rm_rule rule e).1 ≡ none
    → access_at m (rm_rule rule e).0.rules ≡ (
        if rule.meta == m
        then minus (access_at rule.meta e.rules) (access rule.perms)
        else access_at m e.rules)
unfolding rm_rule
access_at-rm_rule rule e m h =
    let old = perms_of rule.meta e.rules in
    let new = difference old rule.perms in
    ground (
      arith,
      perms_of-put rule.meta m new e.rules,
      perms_of-delete rule.meta m e.rules,
      access-difference old rule.perms,
      access_of_is_empty new,
    )
