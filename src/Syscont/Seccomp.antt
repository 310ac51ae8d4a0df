-- ===== src/Syscont/Seccomp.antt =====
-- The seccomp profile of a system container: `cfgSeccomp` of libsysbox/syscont/spec.go.
-- A set of names is a list of them; the order in which `Iter` of the third-party set package yields
-- the names of a set is a parameter. So are the package's lists `syscontSyscallWhitelist` and
-- `syscontSyscallAllowRestrList`: what is shown holds for any lists.
pub mod Calls
use sysbox_runc.Prelude.{
  ℕ, ◌≡◌, Bool, true, false, not, ◌&&◌, ◌||◌, Option, none, some, List, [], ◌∷◌, ◌++◌, String,
  Result, ok, err, if◌then◌else◌, ◌==◌, string_eq, contains, keep,
}
use sysbox_runc.Syscont.Namespaces.{set_difference}

-- `specs.Arch`
pub data Arch : Type 0 where
  arch_x86_64 arch_aarch64 arch_arm : Arch
  other_arch : String → Arch

-- `specs.LinuxSeccompAction`
pub data SeccompAction : Type 0 where
  act_allow act_errno act_kill : SeccompAction
  other_action : String → SeccompAction

-- `specs.LinuxSeccompArg`
pub record SyscallArg : Type 0 where
  pub index : ℕ
  pub value : ℕ
  pub value_two : ℕ
  pub op : String

-- `specs.LinuxSyscall`
pub record Syscall : Type 0 where
  pub names : List String
  pub action : SeccompAction
  pub args : List SyscallArg

-- `specs.LinuxSeccomp`
pub record Seccomp : Type 0 where
  pub default_action : SeccompAction
  pub architectures : List Arch
  pub syscalls : List Syscall

pub data SeccompError : Type 0 where
  unsupported_default_action : SeccompAction → SeccompError

abbrev pub is_supported_arch : Arch → Bool
is_supported_arch (other_arch _) = false
is_supported_arch _ = true

unfoldable pub has_supported_arch : List Arch → Bool
has_supported_arch [] = false
has_supported_arch (arch ∷ archs) = is_supported_arch arch || has_supported_arch archs

abbrev pub is_allow : SeccompAction → Bool
is_allow act_allow = true
is_allow _ = false

-- Errno and kill, which make a profile a white-list as its default.
abbrev pub is_deny : SeccompAction → Bool
is_deny act_errno = true
is_deny act_kill = true
is_deny _ = false

-- The names of the syscalls whose action passes a test.
unfoldable pub names_of : (SeccompAction → Bool) → List Syscall → List String
names_of test [] = []
names_of test (sc ∷ syscalls) = (if test sc.action then sc.names else []) ++ names_of test syscalls

unfoldable pub remove_names : List String → Syscall → Syscall
remove_names rm_set sc = record sc { names = keep (λ name. not (contains rm_set name)) sc.names }

abbrev pub has_names : Syscall → Bool
has_names sc = elim sc.names [ [] ↦ false | _ ∷ _ ↦ true ]

unfoldable pub remove_syscalls : List String → List Syscall → List Syscall
unfolding remove_names
remove_syscalls rm_set [] = []
remove_syscalls rm_set (sc ∷ syscalls) =
    let rest = remove_syscalls rm_set syscalls in
    if is_deny sc.action
    then (if has_names (remove_names rm_set sc) then remove_names rm_set sc ∷ rest else rest)
    else sc ∷ rest

-- The guard `rmSet.Cardinality() > 0`.
unfoldable pub remove_denied : List String → List Syscall → List Syscall
remove_denied [] syscalls = syscalls
remove_denied (name ∷ names) syscalls = remove_syscalls (name ∷ names) syscalls

unfoldable pub allow_each : List String → List Syscall
allow_each [] = []
allow_each (name ∷ names) =
    record { names = name ∷ []; action = act_allow; args = [] } ∷ allow_each names

module _ (whitelist allow_restr : List String) (iter : List String → List String) where
  -- The guard `addSet.Cardinality() > 0`.
  unfoldable pub add_allowed : List String → List Syscall → List Syscall
  add_allowed [] syscalls = syscalls
  add_allowed (name ∷ names) syscalls = syscalls ++ allow_each (iter (name ∷ names))

  abbrev pub all_may_restrict : List String → Bool
  all_may_restrict [] = true
  all_may_restrict (name ∷ names) = contains allow_restr name && all_may_restrict names

  unfoldable pub drop_arg_restrictions : List Syscall → List Syscall
  drop_arg_restrictions [] = []
  drop_arg_restrictions (sc ∷ syscalls) =
      (if all_may_restrict sc.names then sc else record sc { args = [] })
      ∷ drop_arg_restrictions syscalls

  unfoldable pub add_set : Bool → List Syscall → List String
  add_set is_whitelist syscalls =
      if is_whitelist then set_difference whitelist (names_of is_allow syscalls) else []

  unfoldable pub rm_set : Bool → List Syscall → List String
  rm_set is_whitelist syscalls =
      let disallow_set = names_of is_deny syscalls in
      if is_whitelist
      then keep (λ name. contains whitelist name) disallow_set
      else set_difference disallow_set whitelist

  unfoldable pub convert_syscalls : Bool → List Syscall → List Syscall
  convert_syscalls is_whitelist syscalls =
      let removed = remove_denied (rm_set is_whitelist syscalls) syscalls in
      let added = add_allowed (add_set is_whitelist syscalls) removed in
      if is_whitelist then drop_arg_restrictions added else added

  unfoldable pub cfg_seccomp : Option Seccomp → Result SeccompError (Option Seccomp)
  cfg_seccomp none = ok none
  cfg_seccomp (some seccomp) =
      if not (has_supported_arch seccomp.architectures)
      then ok (some seccomp)
      else if not (is_allow seccomp.default_action) && not (is_deny seccomp.default_action)
      then err (unsupported_default_action seccomp.default_action)
      else ok (
          some (record seccomp {
            syscalls = convert_syscalls (is_deny seccomp.default_action) seccomp.syscalls;
          }))
