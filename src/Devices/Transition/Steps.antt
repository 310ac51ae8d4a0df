-- ===== src/Devices/Transition/Steps.antt =====
-- What the rules of a transition do to the accesses that an emulator's rules name.
use sysbox_runc.Prelude.{
  ◌≡◌, refl, sym, ◌∙◌, ap, Bool, true, false, not, Option, none, List, [], ◌∷◌, if◌then◌else◌,
  arith, ◌==◌, nat_eq, Bool-cases, eq_cases, inl, inr,
}
use sysbox_runc.Devices.Device.{Permissions, Rule, is_empty, difference}
use sysbox_runc.Devices.Device.Sets.{Access, no_access, join, minus, access, access-difference}
use sysbox_runc.Devices.Emulator.{
  DeviceMeta, meta_eq, meta_beq_iff, DeviceRule, DeviceRules, Emulator, EmulatorError, perms_of,
  add_rule, rm_rule, apply,
}
use sysbox_runc.Devices.Emulator.Views.{
  is_node, access_at, access_of_is_empty, access_at-add_rule, access_at-rm_rule,
}
use sysbox_runc.Devices.Emulator.Validity.{device_rule}
use sysbox_runc.Devices.Emulator.Entries.{find_entry, perms_in, AreEntries}
use sysbox_runc.Devices.Transition.{rule_at, missing_rules, apply_all}

-- A rule against the default of the list adds to its exceptions, and never fails.
apply-adds :
    (rule : Rule) (e : Emulator)
    → is_node rule.node ≡ true
    → rule.allow ≡ not e.default_allow
    → apply rule e ≡ ((add_rule (device_rule rule) e).0, none)
unfolding apply add_rule
apply-adds rule e n a = ground arith

-- A rule along the default takes from the exceptions.
apply-removes :
    (rule : Rule) (e : Emulator)
    → is_node rule.node ≡ true
    → rule.allow ≡ e.default_allow
    → (apply rule e).1 ≡ none
    → ((apply rule e).0 ≡ (rm_rule (device_rule rule) e).0)
      × ((rm_rule (device_rule rule) e).1 ≡ none)
unfolding apply
apply-removes rule e n a h = ground arith

add_rule-default_allow :
    (rule : DeviceRule) (e : Emulator) → (add_rule rule e).0.default_allow ≡ e.default_allow
unfolding add_rule
add_rule-default_allow rule e = refl

pub rm_rule-default_allow :
    (rule : DeviceRule) (e : Emulator) → (rm_rule rule e).0.default_allow ≡ e.default_allow
unfolding rm_rule
rm_rule-default_allow rule e = ground arith

abbrev pub access_in : DeviceMeta → List DeviceRule → Access
access_in m es = access (perms_in m es)

access_in-cons :
    (m : DeviceMeta) (x : DeviceRule) (es : List DeviceRule)
    → access_in m (x ∷ es) ≡ (if x.meta == m then access x.perms else access_in m es)
unfolding perms_in find_entry
access_in-cons m x es = ground arith

pub access-nil : access [] ≡ no_access
unfolding access
access-nil = refl

access_in-absent :
    (m : DeviceMeta) (es : List DeviceRule) → find_entry m es ≡ none → access_in m es ≡ no_access
unfolding perms_in
access_in-absent m es h = ground (arith, access-nil)

no_missing :
    (p o : Permissions) → is_empty (difference p o) ≡ true → minus (access p) (access o) ≡ no_access
no_missing p o h = sym (access-difference p o) ∙ access_of_is_empty (difference p o) h ∙ access-nil

-- The state after the rules that add the missing permissions of the entries.
pub record Grown (e : Emulator) (others : DeviceRules) (es : List DeviceRule)
    (r : Emulator × Option EmulatorError) : Type 0 where
  pub succeeds : r.1 ≡ none
  pub keeps_mode : r.0.default_allow ≡ e.default_allow
  pub adds :
      (m : DeviceMeta)
      → access_at m r.0.rules
        ≡ join (access_at m e.rules) (minus (access_in m es) (access_at m others))

-- How the missing permissions of a list of entries split.
missing_split :
    (others : DeviceRules) (x : DeviceRule) (es : List DeviceRule) (m : DeviceMeta)
    → find_entry x.meta es ≡ none
    → minus (access_in m (x ∷ es)) (access_at m others)
      ≡ join
          (if x.meta == m then minus (access x.perms) (access_at x.meta others) else no_access)
          (minus (access_in m es) (access_at m others))
missing_split others x es m h = elim (eq_cases x.meta m) [
  | inl same ↦ ground (arith, meta_beq_iff x.meta m, access_in-cons m x es, access_in-absent m es)
  | inr other ↦ ground (arith, access_in-cons m x es)
]

module _ (mode : Bool) (others : DeviceRules) (x : DeviceRule) (es : List DeviceRule) where
  abbrev pub missing : Permissions
  missing = difference x.perms (perms_of x.meta others)

  pub missing_rules-skip :
      is_empty missing ≡ true → missing_rules mode others (x ∷ es) ≡ missing_rules mode others es
  unfolding missing_rules
  missing_rules-skip h = rw h

  pub missing_rules-send :
      is_empty missing ≡ false
      → missing_rules mode others (x ∷ es)
        ≡ rule_at x.meta missing mode ∷ missing_rules mode others es
  unfolding missing_rules
  missing_rules-send h = rw h

pub apply_all-cons :
    (rule : Rule) (rules : List Rule) (e e' : Emulator)
    → apply rule e ≡ (e', none)
    → apply_all (rule ∷ rules) e ≡ apply_all rules e'
unfolding apply_all
apply_all-cons rule rules e e' h = rw (h, apply_all) (ap (λ p. apply_all rules p.0) h)

module _ (mode : Bool) (others : DeviceRules) (x : DeviceRule) (es : List DeviceRule) (e : Emulator)
    (absent : find_entry x.meta es ≡ none) where
  abbrev rule : Rule
  rule = rule_at x.meta (missing mode others x es) mode

  added_step :
      (m : DeviceMeta)
      → join
          (access_at m (add_rule (device_rule rule) e).0.rules)
          (minus (access_in m es) (access_at m others))
        ≡ join (access_at m e.rules) (minus (access_in m (x ∷ es)) (access_at m others))
  added_step m = ground (
    arith,
    meta_beq_iff x.meta m,
    access_at-add_rule (device_rule rule) e m,
    access-difference x.perms (perms_of x.meta others),
    missing_split others x es m absent,
  )

pub missing_rules-Grown :
    (mode : Bool) (others : DeviceRules) (es : List DeviceRule) (e : Emulator)
    → AreEntries es
    → mode ≡ not e.default_allow
    → Grown e others es (apply_all (missing_rules mode others es) e)
missing_rules-Grown mode others [] e h a =
    unfold apply_all missing_rules in
    record {
      succeeds = refl;
      keeps_mode = refl;
      adds = λ m. rw (access_in-absent m [] (unfold find_entry in refl)) (ground arith);
    }
missing_rules-Grown mode others (x ∷ es) e h a =
    elim (Bool-cases (is_empty (missing mode others x es))) [
      | inl skip ↦
          let r = missing_rules-Grown mode others es e h.2 a in
          rw (missing_rules-skip mode others x es skip) (record {
            succeeds = r.succeeds;
            keeps_mode = r.keeps_mode;
            adds = λ m. ground (
              arith,
              r.adds m,
              missing_split others x es m h.0,
              no_missing x.perms (perms_of x.meta others),
            );
          })
      | inr send ↦
          let added = rule mode others x es e h.0 in
          let e' = (add_rule (device_rule added) e).0 in
          let r =
            missing_rules-Grown mode others es e' h.2
              (a ∙ ap not (sym (add_rule-default_allow (device_rule added) e))) in
          rw
            (
              missing_rules-send mode others x es send,
              apply_all-cons added (missing_rules mode others es) e e' (apply-adds added e h.1 a),
            )
            (record {
              succeeds = r.succeeds;
              keeps_mode = r.keeps_mode ∙ add_rule-default_allow (device_rule added) e;
              adds = λ m. r.adds m ∙ added_step mode others x es e h.0 m;
            })
    ]

-- The state after the rules that take the permissions that the entries have and the others lack,
-- if none of them fails.
pub record Shrunk (e : Emulator) (others : DeviceRules) (es : List DeviceRule)
    (r : Emulator × Option EmulatorError) : Type 0 where
  pub keeps_mode : r.0.default_allow ≡ e.default_allow
  pub takes :
      (m : DeviceMeta)
      → access_at m r.0.rules
        ≡ minus (access_at m e.rules) (minus (access_in m es) (access_at m others))

apply_all-succeeds_head :
    (rule : Rule) (rules : List Rule) (e : Emulator)
    → (apply_all (rule ∷ rules) e).1 ≡ none
    → (apply rule e).1 ≡ none
unfolding apply_all
apply_all-succeeds_head rule rules e h = ground arith

module _ (mode : Bool) (others : DeviceRules) (x : DeviceRule) (es : List DeviceRule) (e : Emulator)
    (absent : find_entry x.meta es ≡ none) where
  removed_step :
      (m : DeviceMeta)
      → (rm_rule (device_rule (rule mode others x es e absent)) e).1 ≡ none
      → minus
          (access_at m (rm_rule (device_rule (rule mode others x es e absent)) e).0.rules)
          (minus (access_in m es) (access_at m others))
        ≡ minus (access_at m e.rules) (minus (access_in m (x ∷ es)) (access_at m others))
  removed_step m done = ground (
    arith,
    meta_beq_iff x.meta m,
    access_at-rm_rule (device_rule (rule mode others x es e absent)) e m,
    access-difference x.perms (perms_of x.meta others),
    missing_split others x es m absent,
  )

pub missing_rules-Shrunk :
    (mode : Bool) (others : DeviceRules) (es : List DeviceRule) (e : Emulator)
    → AreEntries es
    → mode ≡ e.default_allow
    → (apply_all (missing_rules mode others es) e).1 ≡ none
    → Shrunk e others es (apply_all (missing_rules mode others es) e)
missing_rules-Shrunk mode others [] e h a done =
    unfold apply_all missing_rules in
    record {
      keeps_mode = refl;
      takes = λ m. rw (access_in-absent m [] (unfold find_entry in refl)) (ground arith);
    }
missing_rules-Shrunk mode others (x ∷ es) e h a done =
    elim (Bool-cases (is_empty (missing mode others x es))) [
      | inl skip ↦
          let same = missing_rules-skip mode others x es skip in
          let r = missing_rules-Shrunk mode others es e h.2 a (rw same at done) in
          rw same (record {
            keeps_mode = r.keeps_mode;
            takes = λ m. ground (
              arith,
              r.takes m,
              missing_split others x es m h.0,
              no_missing x.perms (perms_of x.meta others),
            );
          })
      | inr send ↦
          let gone = rule mode others x es e h.0 in
          let e' = (rm_rule (device_rule gone) e).0 in
          let rest = missing_rules mode others es in
          let sent = missing_rules-send mode others x es send in
          let first = apply_all-succeeds_head gone rest e (rw sent at done) in
          let (state, clear) = apply-removes gone e h.1 a first in
          let steps = apply_all-cons gone rest e e' (ground (arith, state, first)) in
          let r =
            missing_rules-Shrunk mode others es e' h.2
              (a ∙ sym (rm_rule-default_allow (device_rule gone) e)) (rw (sent, steps) at done) in
          rw (sent, steps)
            (record {
              keeps_mode = r.keeps_mode ∙ rm_rule-default_allow (device_rule gone) e;
              takes = λ m. r.takes m ∙ removed_step mode others x es e h.0 m clear;
            })
    ]
