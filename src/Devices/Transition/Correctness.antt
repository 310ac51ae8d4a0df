-- ===== src/Devices/Transition/Correctness.antt =====
-- A run of the transition rules, against the target.
use sysbox_runc.Prelude.{
  ◌≡◌, refl, sym, ◌∙◌, ap, Bool, true, false, not, none, some, List, [], ◌∷◌, ◌++◌, arith, nat_eq,
  lookup, All, Bool-cases, Option-cases, inl, inr,
}
use sysbox_runc.Devices.Device.{Permissions, Rule, is_empty, difference}
use sysbox_runc.Devices.Device.Sets.{
  no_access, minus, access, grants, spell, spell-minus, access-spell, is_empty-spell,
}
use sysbox_runc.Devices.Emulator.{
  DeviceMeta, meta_eq, DeviceRule, DeviceRules, Emulator, perms_of, ordered_entries, apply,
}
use sysbox_runc.Devices.Emulator.Views.{access_at, IsValid, IsEntry}
use sysbox_runc.Devices.Emulator.Validity.{reset, reset-IsValid, apply-IsValid}
use sysbox_runc.Devices.Emulator.Entries.{ordered_entries-AreEntries, perms_in-ordered_entries}
use sysbox_runc.Devices.Transition.{
  disruptive_rule, missing_rules, apply_all, transition, is_disruptive,
}
use sysbox_runc.Devices.Transition.Steps.{
  access-nil, access_in, missing_rules-Grown, missing_rules-Shrunk, apply_all-cons,
}

pub apply_all-append :
    (xs ys : List Rule) (e : Emulator)
    → (apply_all xs e).1 ≡ none
    → apply_all (xs ++ ys) e ≡ apply_all ys (apply_all xs e).0
unfolding apply_all
apply_all-append [] ys e h = refl
apply_all-append (x ∷ xs) ys e h = ground (arith, apply_all-append xs ys (apply x e).0)

apply_all-succeeds_front :
    (xs ys : List Rule) (e : Emulator)
    → (apply_all (xs ++ ys) e).1 ≡ none
    → (apply_all xs e).1 ≡ none
unfolding apply_all
apply_all-succeeds_front [] ys e h = refl
apply_all-succeeds_front (x ∷ xs) ys e h =
    ground (arith, apply_all-succeeds_front xs ys (apply x e).0)

difference-grants :
    (p o : Permissions)
    → is_empty (difference p o) ≡ false
    → grants (access (difference p o)) ≡ true
difference-grants p o h = ground (
  arith,
  spell-minus p o,
  access-spell (minus (access p) (access o)),
  is_empty-spell (minus (access p) (access o)),
)

IsEntry-grants : (m : DeviceMeta) (p : Permissions) → IsEntry m p → grants (access p) ≡ true
IsEntry-grants m p entry =
    let nonempty : is_empty (spell (access p)) ≡ false = rw (← entry.spelled) entry.nonempty in
    ground (arith, is_empty-spell (access p))

-- Two valid emulators that name the same accesses for a device store the same rule for it.
lookup_of_access :
    (a b : Emulator) (m : DeviceMeta)
    → IsValid a
    → IsValid b
    → access_at m a.rules ≡ access_at m b.rules
    → lookup m a.rules ≡ lookup m b.rules
unfolding perms_of
lookup_of_access a b m va vb h = elim (Option-cases (lookup m a.rules)) [
  | inl na ↦ elim (Option-cases (lookup m b.rules)) [
    | inl nb ↦ na ∙ sym nb
    | inr (q, sb) ↦ absurd (ground (arith, access-nil, IsEntry-grants m q (vb.stored m q sb)))
  ]
  | inr (p, sa) ↦ elim (Option-cases (lookup m b.rules)) [
    | inl nb ↦ absurd (ground (arith, access-nil, IsEntry-grants m p (va.stored m p sa)))
    | inr (q, sb) ↦
        let same : access p ≡ access q = ground arith in
        sa
        ∙ ap some ((va.stored m p sa).spelled ∙ ap spell same ∙ sym (vb.stored m q sb).spelled)
        ∙ sym sb
  ]
]

missing_rules-grants :
    (mode : Bool) (others : DeviceRules) (es : List DeviceRule)
    → All (λ rule. grants (access rule.permissions) ≡ true) (missing_rules mode others es)
unfolding missing_rules
missing_rules-grants mode others [] = tt
missing_rules-grants mode others (x ∷ es) =
    ground (
      arith,
      missing_rules-grants mode others es,
      difference-grants x.perms (perms_of x.meta others),
    )

apply_all-IsValid :
    (rules : List Rule) (e : Emulator)
    → All (λ rule. grants (access rule.permissions) ≡ true) rules
    → IsValid e
    → IsValid (apply_all rules e).0
unfolding apply_all
apply_all-IsValid [] e g v = v
apply_all-IsValid (x ∷ rules) e g v = elim (Option-cases (apply x e).1) [
  | inl fine ↦
      rw (fine, apply_all) (apply_all-IsValid rules (apply x e).0 g.1 (apply-IsValid x e g.0 v))
  | inr (err, failed) ↦ rw (failed, apply_all) (apply-IsValid x e g.0 v)
]

module _ (source target : Emulator) where
  transition-disruptive :
      is_disruptive source target ≡ true
      → transition source target
        ≡ disruptive_rule target.default_allow
          ∷ missing_rules (not target.default_allow) [] (ordered_entries target.rules)
  unfolding transition
  transition-disruptive h = rw (h) (unfold missing_rules ordered_entries in refl)

  pub transition-plain :
      is_disruptive source target ≡ false
      → transition source target
        ≡ missing_rules target.default_allow target.rules (ordered_entries source.rules)
          ++ missing_rules (not target.default_allow) source.rules (ordered_entries target.rules)
  unfolding transition
  transition-plain h = rw (h)

apply-disruptive_rule :
    (mode : Bool) (e : Emulator) → apply (disruptive_rule mode) e ≡ (reset mode, none)
unfolding apply
apply-disruptive_rule mode e = ground arith

access_at-nil : (m : DeviceMeta) → access_at m [] ≡ no_access
unfolding perms_of lookup
access_at-nil m = access-nil

-- What a run of rules reaches: the target's default, and the target's rule for every device.
pub record Reaches (target r : Emulator) : Type 0 where
  pub same_mode : r.default_allow ≡ target.default_allow
  pub same_rules : (m : DeviceMeta) → lookup m r.rules ≡ lookup m target.rules

module _ (source target : Emulator) (vs : IsValid source) (vt : IsValid target) where
  entries_at :
      (m : DeviceMeta) → access_in m (ordered_entries target.rules) ≡ access_at m target.rules
  entries_at m = ap access (perms_in-ordered_entries target vt m)

  pub disruptive_run :
      is_disruptive source target ≡ true
      → ((apply_all (transition source target) source).1 ≡ none)
        × Reaches target (apply_all (transition source target) source).0
  disruptive_run h =
      let entries = ordered_entries target.rules in
      let rest = missing_rules (not target.default_allow) [] entries in
      let cleared = reset target.default_allow in
      let first = apply-disruptive_rule target.default_allow source in
      let g =
        missing_rules-Grown (not target.default_allow) [] entries cleared
          (ordered_entries-AreEntries target vt) refl in
      let valid =
        apply_all-IsValid rest cleared (missing_rules-grants (not target.default_allow) [] entries)
          (reset-IsValid target.default_allow) in
      rw
        (
          transition-disruptive source target h,
          apply_all-cons (disruptive_rule target.default_allow) rest source cleared first,
        )
        (
          g.succeeds,
          record {
            same_mode = g.keeps_mode;
            same_rules = λ m.
                lookup_of_access (apply_all rest cleared).0 target m valid vt
                  (ground (arith, g.adds m, entries_at m, access_at-nil m));
          },
        )

  pub plain_modes :
      is_disruptive source target ≡ false → source.default_allow ≡ target.default_allow
  unfolding is_disruptive
  plain_modes h = ground arith

  plain_run :
      is_disruptive source target ≡ false
      → (apply_all (transition source target) source).1 ≡ none
      → Reaches target (apply_all (transition source target) source).0
  plain_run h done =
      let mode = target.default_allow in
      let olds = ordered_entries source.rules in
      let news = ordered_entries target.rules in
      let drops = missing_rules mode target.rules olds in
      let gains = missing_rules (not mode) source.rules news in
      let shape = transition-plain source target h in
      let done' = rw shape at done in
      let dropped = apply_all-succeeds_front drops gains source done' in
      let mid = (apply_all drops source).0 in
      let s =
        missing_rules-Shrunk mode target.rules olds source (ordered_entries-AreEntries source vs)
          (sym (plain_modes h)) dropped in
      let g =
        missing_rules-Grown (not mode) source.rules news mid (ordered_entries-AreEntries target vt)
          (ap not (sym (plain_modes h) ∙ sym s.keeps_mode)) in
      let valid =
        apply_all-IsValid gains mid (missing_rules-grants (not mode) source.rules news)
          (apply_all-IsValid drops source (missing_rules-grants mode target.rules olds) vs) in
      rw (shape, apply_all-append drops gains source dropped)
        (record {
          same_mode = g.keeps_mode ∙ s.keeps_mode ∙ plain_modes h;
          same_rules = λ m. lookup_of_access (apply_all gains mid).0 target m valid vt (
              ground (
                arith,
                g.adds m,
                s.takes m,
                entries_at m,
                ap access (perms_in-ordered_entries source vs m),
              ));
        })

-- If no rule is refused, the transition rules take a valid source to a valid target: the default
-- is the target's, and so is the rule stored for every device, in its exact spelling.
pub transition-Reaches :
    (source target : Emulator)
    → IsValid source
    → IsValid target
    → (apply_all (transition source target) source).1 ≡ none
    → Reaches target (apply_all (transition source target) source).0
transition-Reaches source target vs vt done = elim (Bool-cases (is_disruptive source target)) [
  | inl h ↦ (disruptive_run source target vs vt h).1
  | inr h ↦ plain_run source target vs vt h done
]
