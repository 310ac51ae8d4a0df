-- ===== src/Syscont/Seccomp/Calls.antt =====
-- Which syscalls a converted profile allows and denies.
use sysbox_runc.Prelude.{
  ◌≡◌, ◌∙◌, refl, ap, Bool, true, false, not, ◌&&◌, ◌||◌, some, List, [], ◌∷◌, ◌++◌, String, ok,
  if◌then◌else◌, string_eq, contains, contains-keep, contains-append, arith,
}
use sysbox_runc.Syscont.Namespaces.{set_difference}
use sysbox_runc.Syscont.Seccomp.{
  SeccompAction, Syscall, Seccomp, is_allow, is_deny, has_supported_arch, names_of, remove_names,
  has_names, remove_syscalls, remove_denied, allow_each, add_allowed, drop_arg_restrictions,
  add_set, rm_set, convert_syscalls, cfg_seccomp,
}

-- Whether a syscall is named with an action that passes the test.
unfoldable pub names_call : (SeccompAction → Bool) → String → List Syscall → Bool
names_call test t [] = false
names_call test t (sc ∷ syscalls) =
    (test sc.action && contains sc.names t) || names_call test t syscalls

abbrev pub allows : String → List Syscall → Bool
allows t syscalls = names_call is_allow t syscalls

abbrev pub denies : String → List Syscall → Bool
denies t syscalls = names_call is_deny t syscalls

contains-names_of :
    (test : SeccompAction → Bool) (t : String) (syscalls : List Syscall)
    → contains (names_of test syscalls) t ≡ names_call test t syscalls
unfolding names_of names_call
contains-names_of test t [] = refl
contains-names_of test t (sc ∷ syscalls) = ground (
  arith,
  contains-names_of test t syscalls,
  contains-append (if test sc.action then sc.names else []) (names_of test syscalls) t,
)

names_call-append :
    (test : SeccompAction → Bool) (t : String) (xs ys : List Syscall)
    → names_call test t (xs ++ ys) ≡ (names_call test t xs || names_call test t ys)
unfolding names_call
names_call-append test t [] ys = refl
names_call-append test t (x ∷ xs) ys = ground (arith, names_call-append test t xs ys)

has_names-contains :
    (sc : Syscall) (t : String) → has_names sc ≡ false → contains sc.names t ≡ false
has_names-contains sc t h = go sc.names h
  where
    go :
        (names : List String)
        → (elim names [ [] ↦ false | _ ∷ _ ↦ true ]) ≡ false
        → contains names t ≡ false
    go [] h = refl
    go (_ ∷ _) h = cc

remove_names_lem :
    (rm : List String) (sc : Syscall) (t : String)
    → contains (remove_names rm sc).names t ≡ (contains sc.names t && not (contains rm t))
unfolding remove_names
remove_names_lem rm sc t = ground (arith, contains-keep (λ name. not (contains rm name)) sc.names t)

denies-remove_syscalls :
    (rm : List String) (t : String) (syscalls : List Syscall)
    → denies t (remove_syscalls rm syscalls) ≡ (denies t syscalls && not (contains rm t))
unfolding remove_syscalls names_call
denies-remove_syscalls rm t [] = refl
denies-remove_syscalls rm t (sc ∷ syscalls) = ground (
  arith,
  denies-remove_syscalls rm t syscalls,
  remove_names_lem rm sc t,
  has_names-contains (remove_names rm sc) t,
)

allows-remove_syscalls :
    (rm : List String) (t : String) (syscalls : List Syscall)
    → allows t (remove_syscalls rm syscalls) ≡ allows t syscalls
unfolding remove_syscalls remove_names names_call
allows-remove_syscalls rm t [] = refl
allows-remove_syscalls rm t (sc ∷ syscalls) = ground (arith, allows-remove_syscalls rm t syscalls)

remove_denied_lem :
    (rm : List String) (t : String) (syscalls : List Syscall)
    → (denies t (remove_denied rm syscalls) ≡ (denies t syscalls && not (contains rm t)))
      × (allows t (remove_denied rm syscalls) ≡ allows t syscalls)
unfolding remove_denied
remove_denied_lem [] t syscalls = ground arith
remove_denied_lem (r ∷ rm) t syscalls =
    (denies-remove_syscalls (r ∷ rm) t syscalls, allows-remove_syscalls (r ∷ rm) t syscalls)

allow_each_lem :
    (names : List String) (t : String)
    → (allows t (allow_each names) ≡ contains names t) × (denies t (allow_each names) ≡ false)
unfolding allow_each names_call
allow_each_lem [] t = (refl, refl)
allow_each_lem (n ∷ names) t = ground (arith, allow_each_lem names t)

module _ (whitelist allow_restr : List String) (iter : List String → List String)
    (iter_members : (names : List String) (t : String)
      → contains (iter names) t ≡ contains names t) where
  add_allowed_lem :
      (added : List String) (t : String) (syscalls : List Syscall)
      → (allows t (add_allowed whitelist allow_restr iter added syscalls)
          ≡ (allows t syscalls || contains added t))
        × (denies t (add_allowed whitelist allow_restr iter added syscalls) ≡ denies t syscalls)
  unfolding add_allowed
  add_allowed_lem [] t syscalls = ground arith
  add_allowed_lem (n ∷ names) t syscalls = ground (
    arith,
    names_call-append is_allow t syscalls (allow_each (iter (n ∷ names))),
    names_call-append is_deny t syscalls (allow_each (iter (n ∷ names))),
    allow_each_lem (iter (n ∷ names)) t,
    iter_members (n ∷ names) t,
  )

  names_call-drop_arg_restrictions :
      (test : SeccompAction → Bool) (t : String) (syscalls : List Syscall)
      → names_call test t (drop_arg_restrictions whitelist allow_restr iter syscalls)
        ≡ names_call test t syscalls
  unfolding drop_arg_restrictions names_call
  names_call-drop_arg_restrictions test t [] = refl
  names_call-drop_arg_restrictions test t (sc ∷ syscalls) =
      ground (arith, names_call-drop_arg_restrictions test t syscalls)

  contains-add_set :
      (syscalls : List Syscall) (t : String)
      → contains (add_set whitelist allow_restr iter true syscalls) t
        ≡ (contains whitelist t && not (allows t syscalls))
  unfolding add_set set_difference
  contains-add_set syscalls t = ground (
    arith,
    contains-keep (λ x. not (contains (names_of is_allow syscalls) x)) whitelist t,
    contains-names_of is_allow t syscalls,
  )

  contains-add_set_black :
      (syscalls : List Syscall) (t : String)
      → contains (add_set whitelist allow_restr iter false syscalls) t ≡ false
  unfolding add_set
  contains-add_set_black syscalls t = refl

  contains-rm_set :
      (is_whitelist : Bool) (syscalls : List Syscall) (t : String)
      → contains (rm_set whitelist allow_restr iter is_whitelist syscalls) t ≡ (
          denies t syscalls
          && (if is_whitelist then contains whitelist t else not (contains whitelist t)))
  unfolding rm_set set_difference
  contains-rm_set true syscalls t =
      contains-keep (λ name. contains whitelist name) (names_of is_deny syscalls) t
      ∙ ap (λ b. b && contains whitelist t) (contains-names_of is_deny t syscalls)
  contains-rm_set false syscalls t =
      contains-keep (λ name. not (contains whitelist name)) (names_of is_deny syscalls) t
      ∙ ap (λ b. b && not (contains whitelist t)) (contains-names_of is_deny t syscalls)

  convert_syscalls_lem :
      (is_whitelist : Bool) (syscalls : List Syscall) (t : String)
      → (denies t (convert_syscalls whitelist allow_restr iter is_whitelist syscalls) ≡ (
          denies t syscalls
          && (if is_whitelist then not (contains whitelist t) else contains whitelist t)))
        × (allows t (convert_syscalls whitelist allow_restr iter is_whitelist syscalls)
            ≡ (allows t syscalls || (is_whitelist && contains whitelist t)))
  unfolding convert_syscalls
  convert_syscalls_lem true syscalls t =
      let rm = rm_set whitelist allow_restr iter true syscalls in
      let added = add_set whitelist allow_restr iter true syscalls in
      let removed = remove_denied rm syscalls in
      let done = add_allowed whitelist allow_restr iter added removed in
      ground (
        arith,
        remove_denied_lem rm t syscalls,
        contains-rm_set true syscalls t,
        contains-add_set syscalls t,
        add_allowed_lem added t removed,
        names_call-drop_arg_restrictions is_allow t done,
        names_call-drop_arg_restrictions is_deny t done,
      )
  convert_syscalls_lem false syscalls t =
      let rm = rm_set whitelist allow_restr iter false syscalls in
      let added = add_set whitelist allow_restr iter false syscalls in
      let removed = remove_denied rm syscalls in
      ground (
        arith,
        remove_denied_lem rm t syscalls,
        contains-rm_set false syscalls t,
        contains-add_set_black syscalls t,
        add_allowed_lem added t removed,
      )

  cfg_seccomp_cases :
      (seccomp out : Seccomp)
      → has_supported_arch seccomp.architectures ≡ true
      → cfg_seccomp whitelist allow_restr iter (some seccomp) ≡ ok (some out)
      → out.syscalls
        ≡ convert_syscalls whitelist allow_restr iter
            (is_deny seccomp.default_action)
            seccomp.syscalls
  unfolding cfg_seccomp
  cfg_seccomp_cases seccomp out arch e = ground arith

  -- On a supported architecture, a white-list profile that is converted denies what it denied but for
  -- the syscalls of a system container, and allows what it allowed and all of those.
  pub cfg_seccomp-whitelist :
      (seccomp out : Seccomp) (t : String)
      → has_supported_arch seccomp.architectures ≡ true
      → is_deny seccomp.default_action ≡ true
      → cfg_seccomp whitelist allow_restr iter (some seccomp) ≡ ok (some out)
      → (denies t out.syscalls ≡ (denies t seccomp.syscalls && not (contains whitelist t)))
        × (allows t out.syscalls ≡ (allows t seccomp.syscalls || contains whitelist t))
  cfg_seccomp-whitelist seccomp out t arch white e =
      rw (cfg_seccomp_cases seccomp out arch e, white)
        (convert_syscalls_lem true seccomp.syscalls t)

  -- On a supported architecture, a black-list profile that is converted still denies exactly those
  -- of its denied syscalls that a system container needs.
  pub cfg_seccomp-blacklist :
      (seccomp out : Seccomp) (t : String)
      → has_supported_arch seccomp.architectures ≡ true
      → is_deny seccomp.default_action ≡ false
      → cfg_seccomp whitelist allow_restr iter (some seccomp) ≡ ok (some out)
      → denies t out.syscalls ≡ (denies t seccomp.syscalls && contains whitelist t)
  cfg_seccomp-blacklist seccomp out t arch black e =
      rw (cfg_seccomp_cases seccomp out arch e, black)
        (convert_syscalls_lem false seccomp.syscalls t).0
