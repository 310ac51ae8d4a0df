-- ===== src/Devices/Emulator/Entries.antt =====
-- The sorted list of entries holds the rules of the map, each once.
use sysbox_runc.Prelude.{
  ◌≡◌, refl, ◌∙◌, true, Option, none, some, List, [], ◌∷◌, if◌then◌else◌, arith, ◌==◌, nat_eq,
  lookup, IsMap,
}
use sysbox_runc.Devices.Device.{Permissions}
use sysbox_runc.Devices.Emulator.{
  DeviceMeta, meta_eq, meta_beq_iff, DeviceRule, DeviceRules, Emulator, perms_of, collect_entries,
  insert_entry, sort_entries, ordered_entries,
}
use sysbox_runc.Devices.Emulator.Views.{is_node, IsValid}

unfoldable pub find_entry : DeviceMeta → List DeviceRule → Option Permissions
find_entry m [] = none
find_entry m (rule ∷ rules) = if rule.meta == m then some rule.perms else find_entry m rules

-- The permissions of a device in a list of entries.
unfoldable pub perms_in : DeviceMeta → List DeviceRule → Permissions
perms_in m rules = elim (find_entry m rules) [ none ↦ [] | some p ↦ p ]

-- Each device stands once, and is a block or character device.
abbrev pub AreEntries : List DeviceRule → Type 0
AreEntries [] = Unit
AreEntries (rule ∷ rules) =
    (find_entry rule.meta rules ≡ none) × (is_node rule.meta.node ≡ true) × AreEntries rules

find_entry-collect_entries :
    (m : DeviceMeta) (rules : DeviceRules) → find_entry m (collect_entries rules) ≡ lookup m rules
unfolding find_entry collect_entries lookup
find_entry-collect_entries m [] = refl
find_entry-collect_entries m ((k, p) ∷ rules) = ground (arith, find_entry-collect_entries m rules)

module _ (x : DeviceRule) where
  find_entry-insert_entry :
      (m : DeviceMeta) (ys : List DeviceRule)
      → find_entry x.meta ys ≡ none
      → find_entry m (insert_entry x ys) ≡ (if x.meta == m then some x.perms else find_entry m ys)
  unfolding find_entry insert_entry
  find_entry-insert_entry m [] h = refl
  find_entry-insert_entry m (y ∷ ys) h = ground (
    arith,
    find_entry-insert_entry m ys,
    meta_beq_iff y.meta x.meta,
    meta_beq_iff x.meta m,
    meta_beq_iff y.meta m,
  )

  insert_entry-AreEntries :
      (ys : List DeviceRule)
      → find_entry x.meta ys ≡ none
      → is_node x.meta.node ≡ true
      → AreEntries ys
      → AreEntries (insert_entry x ys)
  unfolding find_entry insert_entry
  insert_entry-AreEntries [] h n all = (refl, n, tt)
  insert_entry-AreEntries (y ∷ ys) h n all = ground (
    arith,
    insert_entry-AreEntries ys,
    find_entry-insert_entry y.meta ys,
    meta_beq_iff y.meta x.meta,
    meta_beq_iff x.meta y.meta,
  )

find_entry-sort_entries :
    (m : DeviceMeta) (xs : List DeviceRule)
    → AreEntries xs
    → find_entry m (sort_entries xs) ≡ find_entry m xs
unfolding find_entry sort_entries
find_entry-sort_entries m [] h = refl
find_entry-sort_entries m (x ∷ xs) h = ground (
  arith,
  find_entry-insert_entry x m (sort_entries xs),
  find_entry-sort_entries x.meta xs,
  find_entry-sort_entries m xs,
)

sort_entries-AreEntries : (xs : List DeviceRule) → AreEntries xs → AreEntries (sort_entries xs)
unfolding sort_entries
sort_entries-AreEntries [] h = tt
sort_entries-AreEntries (x ∷ xs) h =
    insert_entry-AreEntries x (sort_entries xs) (find_entry-sort_entries x.meta xs h.2 ∙ h.0) h.1
      (sort_entries-AreEntries xs h.2)

collect_entries-AreEntries :
    (rules : DeviceRules)
    → IsMap rules
    → ((m : DeviceMeta) (p : Permissions) → lookup m rules ≡ some p → is_node m.node ≡ true)
    → AreEntries (collect_entries rules)
unfolding collect_entries lookup
collect_entries-AreEntries [] u known = tt
collect_entries-AreEntries ((k, p) ∷ rules) u known = (
  find_entry-collect_entries k rules ∙ u.0,
  known k p (ground (arith, meta_beq_iff k k)),
  collect_entries-AreEntries rules u.1 (λ m q h. known m q (ground (arith, meta_beq_iff k m))),
)

module _ (e : Emulator) (v : IsValid e) where
  collected : AreEntries (collect_entries e.rules)
  collected = collect_entries-AreEntries e.rules v.unique (λ m p h. (v.stored m p h).node_known)

  pub ordered_entries-AreEntries : AreEntries (ordered_entries e.rules)
  unfolding ordered_entries
  ordered_entries-AreEntries = sort_entries-AreEntries (collect_entries e.rules) collected

  pub perms_in-ordered_entries :
      (m : DeviceMeta) → perms_in m (ordered_entries e.rules) ≡ perms_of m e.rules
  unfolding ordered_entries perms_in perms_of
  perms_in-ordered_entries m =
      rw
        (
          find_entry-sort_entries m (collect_entries e.rules) collected
              ∙ find_entry-collect_entries m e.rules,
          perms_in,
        )
        (refl)
