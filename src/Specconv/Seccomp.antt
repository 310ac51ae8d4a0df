-- ===== src/Specconv/Seccomp.antt =====
-- `SetupSeccomp` of libcontainer/specconv/spec_linux.go and the conversions of
-- libcontainer/seccomp/config.go. Whether the kernel and libseccomp support a flag is a parameter.
pub mod Calls
use sysbox_runc.Prelude.{
  ℕ, Bool, true, false, not, ◌&&◌, ◌||◌, Option, none, some, List, [], ◌∷◌, ◌++◌, String, Result,
  ok, err, ◌>>=◌, if◌then◌else◌, ◌==◌, string_eq,
}
use sysbox_runc.Specconv.MountOptions.{lookup}

pub data Operator : Type 0 where
  equal_to not_equal_to greater_than greater_than_or_equal_to less_than less_than_or_equal_to
        mask_equal_to :
      Operator

pub data Action : Type 0 where
  kill errno trap allow trace log notify kill_thread kill_process : Action

-- Arguments and syscalls of the spec, of which actions and operators are names.
pub record LinuxArg : Type 0 where
  pub index : ℕ
  pub value : ℕ
  pub value_two : ℕ
  pub op : String

pub record LinuxCall : Type 0 where
  pub names : List String
  pub action : String
  pub errno_ret : Option ℕ
  pub args : List LinuxArg

pub record LinuxProfile : Type 0 where
  pub default_action : String
  pub default_errno_ret : Option ℕ
  pub architectures : List String
  pub flags : Option (List String)  -- `none` is nil
  pub listener_path : String
  pub listener_metadata : String
  pub syscalls : List LinuxCall

-- `configs.Arg`, `configs.Syscall`, `configs.Seccomp`
pub record Arg : Type 0 where
  pub index : ℕ
  pub value : ℕ
  pub value_two : ℕ
  pub op : Operator

pub record Call : Type 0 where
  pub name : String
  pub action : Action
  pub errno_ret : Option ℕ
  pub args : List Arg

pub record Profile : Type 0 where
  pub default_action : Action
  pub architectures : List String
  pub flags : List String
  pub syscalls : List Call
  pub default_errno_ret : Option ℕ
  pub listener_path : String
  pub listener_metadata : String

pub data SeccompError : Type 0 where
  unsupported_flag bad_operator bad_action bad_arch : String → SeccompError

abbrev pub operators : List (String × Operator)
operators =
    ("SCMP_CMP_NE", not_equal_to)
    ∷ ("SCMP_CMP_LT", less_than)
    ∷ ("SCMP_CMP_LE", less_than_or_equal_to)
    ∷ ("SCMP_CMP_EQ", equal_to)
    ∷ ("SCMP_CMP_GE", greater_than_or_equal_to)
    ∷ ("SCMP_CMP_GT", greater_than)
    ∷ ("SCMP_CMP_MASKED_EQ", mask_equal_to)
    ∷ []

abbrev pub actions : List (String × Action)
actions =
    ("SCMP_ACT_KILL", kill)
    ∷ ("SCMP_ACT_ERRNO", errno)
    ∷ ("SCMP_ACT_TRAP", trap)
    ∷ ("SCMP_ACT_ALLOW", allow)
    ∷ ("SCMP_ACT_TRACE", trace)
    ∷ ("SCMP_ACT_LOG", log)
    ∷ ("SCMP_ACT_NOTIFY", notify)
    ∷ ("SCMP_ACT_KILL_THREAD", kill_thread)
    ∷ ("SCMP_ACT_KILL_PROCESS", kill_process)
    ∷ []

abbrev pub archs : List (String × String)
archs =
    ("SCMP_ARCH_X86", "x86")
    ∷ ("SCMP_ARCH_X86_64", "amd64")
    ∷ ("SCMP_ARCH_X32", "x32")
    ∷ ("SCMP_ARCH_ARM", "arm")
    ∷ ("SCMP_ARCH_AARCH64", "arm64")
    ∷ ("SCMP_ARCH_MIPS", "mips")
    ∷ ("SCMP_ARCH_MIPS64", "mips64")
    ∷ ("SCMP_ARCH_MIPS64N32", "mips64n32")
    ∷ ("SCMP_ARCH_MIPSEL", "mipsel")
    ∷ ("SCMP_ARCH_MIPSEL64", "mipsel64")
    ∷ ("SCMP_ARCH_MIPSEL64N32", "mipsel64n32")
    ∷ ("SCMP_ARCH_PPC", "ppc")
    ∷ ("SCMP_ARCH_PPC64", "ppc64")
    ∷ ("SCMP_ARCH_PPC64LE", "ppc64le")
    ∷ ("SCMP_ARCH_RISCV64", "riscv64")
    ∷ ("SCMP_ARCH_S390", "s390")
    ∷ ("SCMP_ARCH_S390X", "s390x")
    ∷ []

abbrev pub or_error : {V : Type 0} → SeccompError → Option V → Result SeccompError V
or_error e none = err e
or_error e (some v) = ok v

unfoldable pub convert_string_to_operator : String → Result SeccompError Operator
convert_string_to_operator s = or_error (bad_operator s) (lookup operators s)

unfoldable pub convert_string_to_action : String → Result SeccompError Action
convert_string_to_action s = or_error (bad_action s) (lookup actions s)

unfoldable pub convert_string_to_arch : String → Result SeccompError String
convert_string_to_arch s = or_error (bad_arch s) (lookup archs s)

unfoldable pub convert_archs : List String → Result SeccompError (List String)
convert_archs [] = ok []
convert_archs (a ∷ more) = do
  arch ← convert_string_to_arch a
  rest ← convert_archs more
  ok (arch ∷ rest)

unfoldable pub convert_args : List LinuxArg → Result SeccompError (List Arg)
convert_args [] = ok []
convert_args (a ∷ more) = do
  op ← convert_string_to_operator a.op
  rest ← convert_args more
  ok (record { index = a.index; value = a.value; value_two = a.value_two; op = op } ∷ rest)

-- One call for every name; with no name, the arguments are not looked at.
unfoldable pub convert_names : LinuxCall → Action → List String → Result SeccompError (List Call)
convert_names call action [] = ok []
convert_names call action (name ∷ names) = do
  args ← convert_args call.args
  rest ← convert_names call action names
  ok (record { name = name; action = action; errno_ret = call.errno_ret; args = args } ∷ rest)

unfoldable pub convert_calls : List LinuxCall → Result SeccompError (List Call)
convert_calls [] = ok []
convert_calls (call ∷ calls) = do
  action ← convert_string_to_action call.action
  first ← convert_names call action call.names
  rest ← convert_calls calls
  ok (first ++ rest)

abbrev pub spec_allow : String
spec_allow = "SECCOMP_FILTER_FLAG_SPEC_ALLOW"

module _ (supported : String → Bool) where
  unfoldable pub check_flags : List String → Result SeccompError (List String)
  check_flags [] = ok []
  check_flags (f ∷ fs) =
      let rest = check_flags fs in
      if supported f then rest >>= (λ checked. ok (f ∷ checked)) else err (unsupported_flag f)

  unfoldable pub setup_flags : Option (List String) → Result SeccompError (List String)
  setup_flags none = ok (if supported spec_allow then spec_allow ∷ [] else [])
  setup_flags (some fs) = check_flags fs

  abbrev pub is_disabled : String → List LinuxCall → Bool
  is_disabled default_action [] = default_action == ""
  is_disabled default_action (_ ∷ _) = false

  unfoldable pub convert_profile : LinuxProfile → Result SeccompError Profile
  convert_profile config = do
    checked ← setup_flags config.flags
    architectures ← convert_archs config.architectures
    default_action ← convert_string_to_action config.default_action
    calls ← convert_calls config.syscalls
    ok (record {
      default_action = default_action;
      architectures = architectures;
      flags = checked;
      syscalls = calls;
      default_errno_ret = config.default_errno_ret;
      listener_path = config.listener_path;
      listener_metadata = config.listener_metadata;
    })

  -- No profile, or nothing in it, disables seccomp.
  unfoldable pub setup_seccomp : Option LinuxProfile → Result SeccompError (Option Profile)
  setup_seccomp none = ok none
  setup_seccomp (some config) =
      if is_disabled config.default_action config.syscalls
      then ok none
      else convert_profile config >>= (λ profile. ok (some profile))
