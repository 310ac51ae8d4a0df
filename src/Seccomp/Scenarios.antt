-- ===== src/Seccomp/Scenarios.antt =====
-- Runs and tests of the seccomp patch.
use sysbox_runc.Prelude.{
  ℕ, ◌≡◌, ◌≢◌, refl, arith, ◌&&◌, Option, none, some, List, [], ◌∷◌, ◌++◌, String, Result, ok, err,
  if◌then◌else◌, ◌==◌, string_eq, ◌<◌, ◌^◌, nat_eq, lookup, put, All, any,
}
use sysbox_runc.Prelude.Int.{ℤ, pos}
use sysbox_runc.Specconv.Seccomp.{errno, allow, Call, Profile}
use sysbox_runc.Seccomp.Bpf.{
  Instruction, load_absolute, jump, jump_if, equal, bits_set, greater_than, ret_constant,
  SeccompData, word_at, passes,
}
use sysbox_runc.Seccomp.Bpf.Interpreter.{interpreter, run}
use sysbox_runc.Seccomp.Arch.{
  ScmpArch, native, amd64, x32, Libseccomp, PatchError, arch_to_native, audit_arch, unknown_amd64,
  audit_arch_x86_64,
}
use sysbox_runc.Seccomp.LastSyscalls.{
  LastSyscallMap, find_last_syscalls, find_archs, find_arch, record_largest, largest_syscall,
}
use sysbox_runc.Seccomp.LastSyscalls.Recorded.{read, names}
use sysbox_runc.Seccomp.LastSyscalls.Largest.{IsLast, find_last_syscalls-IsLast}
use sysbox_runc.Seccomp.LastSyscalls.Shape.{IsNamed}
use sysbox_runc.Seccomp.Stub.{
  ret_errno_enosys, generate_enosys_stub, add_sections, section, one_abi_section, two_abi_section,
  both_abis, two_abi_rule, mode_rule, prepend_section, add_arch_rules, arch_rule,
}
use sysbox_runc.Seccomp.Stub.Verdict.{gets_enosys}
use sysbox_runc.Seccomp.Stub.Decision.{generate_enosys_stub-gets_enosys}
use sysbox_runc.Seccomp.Patch.{MapOrder, enosys_patch_filter, generate_patch, is_allow_action}
use sysbox_runc.Seccomp.Patch.Filtered.{is_patched, enosys_patch_filter_run}
use sysbox_runc.Seccomp.Patch.Named.{enosys_patch_filter_keeps_rules}

abbrev arch_of : String → Option ScmpArch
arch_of s =
    if s == "amd64"
    then some amd64
    else if s == "x32"
    then some x32
    else if s == "native"
    then some native
    else none

abbrev number_of : String → ScmpArch → Option ℤ
number_of name x32 = if name == "read" then some (pos 0x40000000) else none
number_of name _ =
    if name == "read" then some (pos 0) else if name == "openat" then some (pos 257) else none

numbers_in_32 :
    (name : String) (arch : ScmpArch) (n : ℕ) → number_of name arch ≡ some (pos n) → n < 2 ^ 31
numbers_in_32 name x32 n h = ground arith
numbers_in_32 name _ n h = ground arith

amd64-ne-native : some amd64 ≢ some native
amd64-ne-native e = ground arith

abbrev library : Libseccomp
library = record {
  arch_from_string = arch_of;
  syscall_from_name = number_of;
  the_native = some amd64;
  real_native = amd64-ne-native;
  is_int32 = numbers_in_32;
}

abbrev in_order : MapOrder
in_order = record { visit = λ m. m; visit-IsMap = λ m h. h; visit-lookup = λ m k h. refl }

abbrev rule : String → Call
rule name = record { name = name; action = allow; errno_ret = none; args = [] }

abbrev profile : List String → Profile
profile archs = record {
  default_action = errno;
  architectures = archs;
  flags = [];
  syscalls = rule "read" ∷ rule "openat" ∷ [];
  default_errno_ret = none;
  listener_path = "";
  listener_metadata = "";
}

abbrev both : Profile
both = profile ("amd64" ∷ "x32" ∷ [])

abbrev found : LastSyscallMap
found = (audit_arch_x86_64, (amd64, pos 257) ∷ (x32, pos 0x40000000) ∷ []) ∷ []

find_both : find_last_syscalls library both ≡ ok found
unfolding find_last_syscalls find_archs arch_to_native audit_arch find_arch lookup record_largest
    largest_syscall put
find_both = refl

-- The x32 call 0x40000001 is beyond the last one of x32.
abbrev x32_call : SeccompData
x32_call = record { nr = 0x40000001; arch = audit_arch_x86_64; more = λ n. 0 }

abbrev openat_call : SeccompData
openat_call = record { nr = 257; arch = audit_arch_x86_64; more = λ n. 0 }

abbrev filter : List Instruction
filter = jump_if equal 257 0 1 ∷ ret_constant 0x7fff0000 ∷ ret_constant 0 ∷ []

abbrev stub : List Instruction
stub =
    load_absolute 4
    ∷ jump_if equal audit_arch_x86_64 1 0
    ∷ jump 7
    ∷ load_absolute 0
    ∷ jump_if bits_set 0x40000000 1 0
    ∷ jump_if greater_than 257 3 1
    ∷ jump_if greater_than 0x40000000 2 0
    ∷ jump 2
    ∷ jump 1
    ∷ ret_constant ret_errno_enosys
    ∷ []

stub_lem : generate_enosys_stub found found ≡ ok stub
unfolding generate_enosys_stub add_sections section two_abi_section both_abis two_abi_rule
    prepend_section add_arch_rules arch_rule lookup put
stub_lem = refl

generate_enosys_stub-gets_enosys_example :
    interpreter.exec x32_call (stub ++ load_absolute 0 ∷ filter) 0 ≡ (
      if gets_enosys found x32_call
      then some ret_errno_enosys
      else interpreter.exec x32_call (load_absolute 0 ∷ filter) 0)
unfolding lookup
generate_enosys_stub-gets_enosys_example =
    generate_enosys_stub-gets_enosys interpreter x32_call found found stub 0 filter 0 (refl, tt)
      (λ k absent. absent) stub_lem

find_last_syscalls-IsLast_example :
    IsLast library both.syscalls amd64
      (any (names library audit_arch_x86_64 amd64) both.architectures)
      (read found audit_arch_x86_64 amd64)
find_last_syscalls-IsLast_example =
    find_last_syscalls-IsLast library both found audit_arch_x86_64 amd64 find_both

both_IsNamed : All (IsNamed library) both.architectures
both_IsNamed = (λ e. ground arith, (λ e. ground arith, tt))

enosys_patch_filter_run_example :
    (full : List Instruction) × ((enosys_patch_filter library in_order in_order both
          (load_absolute 0 ∷ filter)
        ≡ ok full)
      × (interpreter.exec x32_call full 0 ≡ (
          if is_patched both && gets_enosys found x32_call
          then some ret_errno_enosys
          else interpreter.exec x32_call (load_absolute 0 ∷ filter) 0)))
enosys_patch_filter_run_example =
    enosys_patch_filter_run library in_order in_order both found 0 filter interpreter x32_call 0
      both_IsNamed find_both

enosys_patch_filter_keeps_rules_example :
    (full : List Instruction) × ((enosys_patch_filter library in_order in_order both
          (load_absolute 0 ∷ filter)
        ≡ ok full)
      × (interpreter.exec openat_call full 0
          ≡ interpreter.exec openat_call (load_absolute 0 ∷ filter) 0))
unfolding names arch_to_native audit_arch
enosys_patch_filter_keeps_rules_example =
    enosys_patch_filter_keeps_rules library in_order in_order both found amd64 "openat" 0 filter
      interpreter openat_call 0 both_IsNamed find_both refl refl refl (omega arith) refl

-- The x32 call is answered by the stub, and openat by the filter.
run_test : run x32_call 0 (stub ++ load_absolute 0 ∷ filter) 0 ≡ some ret_errno_enosys
unfolding run word_at passes
run_test = refl

run_test_openat : run openat_call 0 (stub ++ load_absolute 0 ∷ filter) 0 ≡ some 0x7fff0000
unfolding run word_at passes
run_test_openat = refl

abbrev native_error : Result PatchError (List Instruction)
native_error = generate_patch library in_order in_order (profile ("native" ∷ []))

-- On x86_64 a profile for the native architecture gets no patch, but an error.
native_error_test : native_error ≡ err unknown_amd64
unfolding find_last_syscalls find_archs arch_to_native audit_arch find_arch lookup record_largest
    largest_syscall put generate_patch generate_enosys_stub add_sections section one_abi_section
    mode_rule is_allow_action
native_error_test = refl
