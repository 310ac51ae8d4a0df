-- ===== src/Devices/Transition/Totality.antt =====
-- When no rule of a transition is refused.
use sysbox_runc.Prelude.{
  ◌≡◌, refl, sym, ◌∙◌, ap, Bool, true, false, not, ◌⊎◌, none, List, [], ◌∷◌, arith, nat_eq, All,
  Bool-cases, inl, inr,
}
use sysbox_runc.Devices.Device.{Permissions, Rule, is_empty, intersection, wildcard}
use sysbox_runc.Devices.Device.Sets.{no_access, meet, access, spell-meet, is_empty-spell}
use sysbox_runc.Devices.Emulator.{
  DeviceMeta, meta_eq, meta_beq_iff, DeviceRule, DeviceRules, Emulator, perms_of, find_hole,
  partial_metas, rm_rule, ordered_entries, apply,
}
use sysbox_runc.Devices.Emulator.Views.{is_node, access_at, IsValid, access_at-rm_rule}
use sysbox_runc.Devices.Emulator.Validity.{device_rule}
use sysbox_runc.Devices.Emulator.Entries.{AreEntries, ordered_entries-AreEntries}
use sysbox_runc.Devices.Transition.{rule_at, missing_rules, apply_all, transition, is_disruptive}
use sysbox_runc.Devices.Transition.Steps.{
  apply_all-cons, rm_rule-default_allow, missing_rules-Grown, missing_rules-Shrunk,
  missing_rules-skip, missing_rules-send, missing,
}
use sysbox_runc.Devices.Transition.Correctness.{
  Reaches, disruptive_run, transition-Reaches, transition-plain, apply_all-append, plain_modes,
}

-- No rule with a wildcard for its major or its minor number names an access.
abbrev pub HasNoWildcards : DeviceRules → Type 0
HasNoWildcards rules =
    (m : DeviceMeta) → (m.major ≡ wildcard) ⊎ (m.minor ≡ wildcard) → access_at m rules ≡ no_access

no_overlap : (p o : Permissions) → access p ≡ no_access → is_empty (intersection p o) ≡ true
no_overlap p o h = ground (arith, spell-meet p o, is_empty-spell (meet (access p) (access o)))

find_hole-none :
    (rule : DeviceRule) (rules : DeviceRules) (metas : List DeviceMeta)
    → All (λ m. access_at m rules ≡ no_access) metas
    → find_hole rule rules metas ≡ none
unfolding find_hole
find_hole-none rule rules [] h = refl
find_hole-none rule rules (m ∷ metas) h =
    ground (arith, find_hole-none rule rules metas, no_overlap (perms_of m rules) rule.perms)

rm_rule_succeeds :
    (rule : DeviceRule) (e : Emulator) → HasNoWildcards e.rules → (rm_rule rule e).1 ≡ none
unfolding rm_rule
rm_rule_succeeds rule e h =
    let clear =
      find_hole-none rule e.rules (partial_metas rule.meta)
        (h _ (inl refl), (h _ (inr refl), (h _ (inl refl), tt))) in
    rw (clear, rm_rule) (ground arith)

apply_succeeds :
    (rule : Rule) (e : Emulator)
    → HasNoWildcards e.rules
    → is_node rule.node ≡ true
    → rule.allow ≡ e.default_allow
    → apply rule e ≡ ((rm_rule (device_rule rule) e).0, none)
unfolding apply
apply_succeeds rule e h n a = ground (arith, rm_rule_succeeds (device_rule rule) e h)

rm_rule-HasNoWildcards :
    (rule : DeviceRule) (e : Emulator)
    → HasNoWildcards e.rules
    → HasNoWildcards (rm_rule rule e).0.rules
rm_rule-HasNoWildcards rule e h m w = ground (
  arith,
  access_at-rm_rule rule e m,
  rm_rule_succeeds rule e h,
  h m w,
  h rule.meta,
  meta_beq_iff rule.meta m,
)

drops_succeed :
    (mode : Bool) (others : DeviceRules) (es : List DeviceRule) (e : Emulator)
    → AreEntries es
    → mode ≡ e.default_allow
    → HasNoWildcards e.rules
    → (apply_all (missing_rules mode others es) e).1 ≡ none
drops_succeed mode others [] e h a w = unfold apply_all missing_rules in refl
drops_succeed mode others (x ∷ es) e h a w =
    elim (Bool-cases (is_empty (missing mode others x es))) [
      | inl skip ↦
          rw (missing_rules-skip mode others x es skip) (drops_succeed mode others es e h.2 a w)
      | inr send ↦
          let gone = rule_at x.meta (missing mode others x es) mode in
          let e' = (rm_rule (device_rule gone) e).0 in
          let rest = missing_rules mode others es in
          let first = apply_succeeds gone e w h.1 a in
          rw (missing_rules-send mode others x es send, apply_all-cons gone rest e e' first)
            (drops_succeed mode others es e' h.2
              (a ∙ sym (rm_rule-default_allow (device_rule gone) e))
              (rm_rule-HasNoWildcards (device_rule gone) e w))
    ]

module _ (source target : Emulator) (vs : IsValid source) (vt : IsValid target) where
  plain_succeeds :
      HasNoWildcards source.rules
      → is_disruptive source target ≡ false
      → (apply_all (transition source target) source).1 ≡ none
  plain_succeeds w h =
      let mode = target.default_allow in
      let olds = ordered_entries source.rules in
      let news = ordered_entries target.rules in
      let drops = missing_rules mode target.rules olds in
      let gains = missing_rules (not mode) source.rules news in
      let same = sym (plain_modes source target vs vt h) in
      let known = ordered_entries-AreEntries source vs in
      let dropped = drops_succeed mode target.rules olds source known same w in
      let mid = (apply_all drops source).0 in
      let s = missing_rules-Shrunk mode target.rules olds source known same dropped in
      let g =
        missing_rules-Grown (not mode) source.rules news mid (ordered_entries-AreEntries target vt)
          (ap not (same ∙ sym s.keeps_mode)) in
      rw (transition-plain source target h, apply_all-append drops gains source dropped) g.succeeds

-- From a valid source to a valid target, all transition rules are accepted and reach the target
-- (its default, and its rule for every device), if the source is a black-list, has another default
-- than the target, or names no access by a rule with a wildcard number.
pub transition_total :
    (source target : Emulator)
    → IsValid source
    → IsValid target
    → (is_disruptive source target ≡ true) ⊎ HasNoWildcards source.rules
    → ((apply_all (transition source target) source).1 ≡ none)
      × Reaches target (apply_all (transition source target) source).0
transition_total source target vs vt (inl h) = disruptive_run source target vs vt h
transition_total source target vs vt (inr w) = elim (Bool-cases (is_disruptive source target)) [
  | inl h ↦ disruptive_run source target vs vt h
  | inr h ↦
      let done = plain_succeeds source target vs vt w h in
      (done, transition-Reaches source target vs vt done)
]
