-- ===== src/Devices/Emulator.antt =====
-- libcontainer/cgroups/devices/devices_emulator.go: the emulator of a cgroup v1 device list.
-- A method on `*Emulator` returns the new emulator and its error. A nil map of rules reads and
-- counts like an empty one, so both are the empty association list.
pub mod Views
pub mod Validity
pub mod Entries
use sysbox_runc.Prelude.{
  ℕ, ◌≡◌, refl, Bool, true, false, not, ◌&&◌, ◌||◌, Option, none, some, List, [], ◌∷◌, ◌++◌, String,
  ◌↔◌, if◌then◌else◌, arith, Eq, ◌==◌, nat_eq, lookup, put, delete,
}
use sysbox_runc.Prelude.Int.{ℤ, int_eq, ltb_ℤ, beq_ℤ_iff, beq_ℤ}
use sysbox_runc.Prelude.{ltb, nat_beq_iff}
use sysbox_runc.Devices.Device.{
  DeviceType, Permissions, Rule, wildcard, wildcard_device, union, difference, intersection,
  is_empty, can_cgroup,
}

pub record DeviceMeta : Type 0 where
  pub node : DeviceType
  pub major : ℤ
  pub minor : ℤ

unfoldable pub meta_beq : DeviceMeta → DeviceMeta → Bool
meta_beq a b = (a.node == b.node) && (a.major == b.major) && (a.minor == b.minor)

pub meta_beq_iff : (a b : DeviceMeta) → (meta_beq a b ≡ true) ↔ (a ≡ b)
unfolding meta_beq
meta_beq_iff a b =
    ground (arith, nat_beq_iff a.node b.node, beq_ℤ_iff a.major b.major, beq_ℤ_iff a.minor b.minor)

instance abbrev pub meta_eq : Eq DeviceMeta
meta_eq = record { beq = meta_beq; beq_iff = meta_beq_iff }

pub record DeviceRule : Type 0 where
  pub meta : DeviceMeta
  pub perms : Permissions

abbrev pub DeviceRules : Type 0
DeviceRules = List (DeviceMeta × Permissions)

-- A read of the map: a missing key has the zero value.
unfoldable pub perms_of : DeviceMeta → DeviceRules → Permissions
perms_of meta rules = elim (lookup meta rules) [ none ↦ [] | some p ↦ p ]

-- The order of `orderedEntries`: by major, minor and type.
unfoldable pub entry_less : DeviceMeta → DeviceMeta → Bool
entry_less a b =
    ltb_ℤ a.major b.major
    || ((a.major == b.major) && ltb_ℤ a.minor b.minor)
    || ((a.major == b.major) && (a.minor == b.minor) && ltb a.node b.node)

collect_entries : DeviceRules → List DeviceRule
collect_entries [] = []
collect_entries ((meta, perms) ∷ rules) =
    record { meta = meta; perms = perms } ∷ collect_entries rules

insert_entry : DeviceRule → List DeviceRule → List DeviceRule
insert_entry x [] = x ∷ []
insert_entry x (y ∷ ys) = if entry_less x.meta y.meta then x ∷ y ∷ ys else y ∷ insert_entry x ys

sort_entries : List DeviceRule → List DeviceRule
sort_entries [] = []
sort_entries (x ∷ xs) = insert_entry x (sort_entries xs)

unfoldable pub ordered_entries : DeviceRules → List DeviceRule
unfolding collect_entries sort_entries insert_entry entry_less
ordered_entries rules = sort_entries (collect_entries rules)

pub record Emulator : Type 0 where
  pub default_allow : Bool
  pub rules : DeviceRules

unfoldable pub is_blacklist : Emulator → Bool
is_blacklist e = e.default_allow

unfoldable pub is_allow_all : Emulator → Bool
unfolding is_blacklist
is_allow_all e = is_blacklist e && (elim e.rules [ [] ↦ true | _ ∷ _ ↦ false ])

pub data EmulatorError : Type 0 where
  punch_hole : DeviceRule → DeviceMeta → Permissions → EmulatorError
  non_cgroup_type : Rule → EmulatorError
  wrap : String → EmulatorError → EmulatorError

abbrev pub wrap_error : String → Option EmulatorError → Option EmulatorError
wrap_error message none = none
wrap_error message (some err) = some (wrap message err)

unfoldable pub add_rule : DeviceRule → Emulator → Emulator × Option EmulatorError
add_rule rule e =
    let old_perms = perms_of rule.meta e.rules in
    let new_perms = union rule.perms old_perms in
    (record e { rules = put rule.meta new_perms e.rules }, none)

-- The loop over the wildcard rules that match the rule in part.
unfoldable pub find_hole : DeviceRule → DeviceRules → List DeviceMeta → Option EmulatorError
find_hole rule rules [] = none
find_hole rule rules (partial_meta ∷ metas) =
    let partial_perms = perms_of partial_meta rules in
    if rule.meta == partial_meta
    then find_hole rule rules metas
    else if not (is_empty (intersection partial_perms rule.perms))
    then some (punch_hole rule partial_meta partial_perms)
    else find_hole rule rules metas

abbrev pub partial_metas : DeviceMeta → List DeviceMeta
partial_metas meta =
    record { node = meta.node; major = wildcard; minor = meta.minor }
    ∷ record { node = meta.node; major = meta.major; minor = wildcard }
    ∷ record { node = meta.node; major = wildcard; minor = wildcard }
    ∷ []

unfoldable pub rm_rule : DeviceRule → Emulator → Emulator × Option EmulatorError
unfolding find_hole
rm_rule rule e =
    let new_perms = difference (perms_of rule.meta e.rules) rule.perms in
    elim (find_hole rule e.rules (partial_metas rule.meta)) [
      | some err ↦ (e, some err)
      | none ↦
          if is_empty new_perms
          then (record e { rules = delete rule.meta e.rules }, none)
          else (record e { rules = put rule.meta new_perms e.rules }, none)
    ]

abbrev pub wrap_result : String → Emulator × Option EmulatorError → Emulator × Option EmulatorError
wrap_result message (e, err) = (e, wrap_error message err)

unfoldable pub allow : Option DeviceRule → Emulator → Emulator × Option EmulatorError
allow none e = (record { default_allow = true; rules = [] }, none)
allow (some rule) e =
    if rule.meta.node == wildcard_device
    then (record { default_allow = true; rules = [] }, none)
    else if e.default_allow
    then wrap_result "remove 'deny' exception" (rm_rule rule e)
    else wrap_result "add 'allow' exception" (add_rule rule e)

unfoldable pub deny : Option DeviceRule → Emulator → Emulator × Option EmulatorError
deny none e = (record { default_allow = false; rules = [] }, none)
deny (some rule) e =
    if rule.meta.node == wildcard_device
    then (record { default_allow = false; rules = [] }, none)
    else if e.default_allow
    then wrap_result "add 'deny' exception" (add_rule rule e)
    else wrap_result "remove 'allow' exception" (rm_rule rule e)

abbrev pub inner_rule : Rule → Option DeviceRule
inner_rule rule =
    if rule.node == wildcard_device
    then none
    else some (record {
      meta = record { node = rule.node; major = rule.major; minor = rule.minor };
      perms = rule.permissions;
    })

unfoldable pub apply : Rule → Emulator → Emulator × Option EmulatorError
unfolding can_cgroup allow deny
apply rule e =
    if not (can_cgroup rule.node)
    then (e, some (non_cgroup_type rule))
    else if rule.allow
    then allow (inner_rule rule) e
    else deny (inner_rule rule) e
