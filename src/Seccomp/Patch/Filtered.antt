-- ===== src/Seccomp/Patch/Filtered.antt =====
-- What the patched filter decides.
use sysbox_runc.Prelude.{
  ℕ, ◌≡◌, ◌∙◌, sym, ap, arith, Bool, true, false, ◌&&◌, not, none, some, List, ◌∷◌, ◌++◌, ok,
  if◌then◌else◌, ◌==◌, Bool-cases, inl, inr, nat_eq, IsMap, Entries-lookup, Entries-of_lookup, All,
}
use sysbox_runc.Specconv.Seccomp.{allow, log, trace, Profile}
use sysbox_runc.Seccomp.Bpf.{Instruction, load_absolute, SeccompData, Machine}
use sysbox_runc.Seccomp.Arch.{Libseccomp}
use sysbox_runc.Seccomp.LastSyscalls.{LastSyscallMap, find_last_syscalls}
use sysbox_runc.Seccomp.LastSyscalls.Shape.{IsEntry, IsShaped, IsNamed, find_last_syscalls-IsShaped}
use sysbox_runc.Seccomp.Stub.{ret_errno_enosys, generate_enosys_stub}
use sysbox_runc.Seccomp.Stub.Verdict.{gets_enosys, is_beyond}
use sysbox_runc.Seccomp.Stub.Decision.{generate_enosys_stub-gets_enosys}
use sysbox_runc.Seccomp.Stub.Total.{generate_enosys_stub_total}
use sysbox_runc.Seccomp.Patch.{
  is_allow_action, MapOrder, is_enosys, generate_patch, enosys_patch_filter,
}

-- Whether a profile's filter gets a stub: not if the default errno is 0x50026, the action that returns
-- ENOSYS, and not if the default action allows, logs or traces.
abbrev pub is_patched : Profile → Bool
is_patched config =
    (elim config.default_errno_ret [ none ↦ true | some n ↦ not (n == 0x50026) ])
    && (elim config.default_action [ allow ↦ false | log ↦ false | trace ↦ false | _ ↦ true ])

is_patched_lem :
    (config : Profile)
    → is_patched config
      ≡ (not (is_enosys config.default_errno_ret) && not (is_allow_action config.default_action))
unfolding is_allow_action
is_patched_lem config = ground arith

visit-IsShaped :
    (order : MapOrder) (last : LastSyscallMap) → IsShaped last → IsShaped (order.visit last)
visit-IsShaped order last (distinct, entries) = (
  order.visit-IsMap last distinct,
  Entries-of_lookup IsEntry (order.visit last) (order.visit-IsMap last distinct) λ k v found.
      Entries-lookup IsEntry k v last entries (sym (order.visit-lookup last k distinct) ∙ found),
)

gets_enosys-visit :
    (order : MapOrder) (last : LastSyscallMap) (d : SeccompData)
    → IsMap last
    → gets_enosys (order.visit last) d ≡ gets_enosys last d
unfolding gets_enosys
gets_enosys-visit order last d distinct =
    ap (λ found. elim found [ none ↦ false | some calls ↦ is_beyond d.arch calls d.nr ])
      (order.visit-lookup last d.arch distinct)

-- A filter that begins with a load does not read what the accumulator holds.
reload :
    (machine : Machine) (d : SeccompData) (offset : ℕ) (filter : List Instruction) (a b : ℕ)
    → machine.exec d (load_absolute offset ∷ filter) a
      ≡ machine.exec d (load_absolute offset ∷ filter) b
reload machine d offset filter a b =
    machine.on_load d offset filter a ∙ sym (machine.on_load d offset filter b)

module _ (lib : Libseccomp) (first second : MapOrder) where
  unpatched :
      (config : Profile) (filter : List Instruction)
      → is_patched config ≡ false
      → enosys_patch_filter lib first second config filter ≡ ok filter
  unfolding enosys_patch_filter generate_patch
  unpatched config filter off = elim (Bool-cases (is_enosys config.default_errno_ret)) [
    | inl errno ↦ rw errno
    | inr other ↦
        let allowed : is_allow_action config.default_action ≡ true =
          ground (arith, is_patched_lem config) in
        rw (other, allowed)
  ]

  patched :
      (config : Profile) (last : LastSyscallMap) (stub filter : List Instruction)
      → is_patched config ≡ true
      → find_last_syscalls lib config ≡ ok last
      → generate_enosys_stub (first.visit last) (second.visit last) ≡ ok stub
      → enosys_patch_filter lib first second config filter ≡ ok (stub ++ filter)
  unfolding enosys_patch_filter generate_patch
  patched config last stub filter on found built =
      let other : is_enosys config.default_errno_ret ≡ false =
        ground (arith, is_patched_lem config) in
      let denied : is_allow_action config.default_action ≡ false =
        ground (arith, is_patched_lem config) in
      rw (other, denied, found, built)

  -- If no architecture of the profile is "the native one" and the last syscalls are found, the filter
  -- is patched without an error, in every order of the loops. The patched filter returns ENOSYS for
  -- the calls beyond the last ones if the profile is to be patched, and is the given filter for all
  -- others. The given filter begins with a load.
  pub enosys_patch_filter_run :
      (config : Profile) (last : LastSyscallMap) (offset : ℕ) (filter : List Instruction)
      (machine : Machine) (d : SeccompData) (a : ℕ)
      → All (IsNamed lib) config.architectures
      → find_last_syscalls lib config ≡ ok last
      → (full : List Instruction) × ((enosys_patch_filter lib first second config
              (load_absolute offset ∷ filter)
            ≡ ok full)
          × (machine.exec d full a ≡ (
              if is_patched config && gets_enosys last d
              then some ret_errno_enosys
              else machine.exec d (load_absolute offset ∷ filter) 0)))
  enosys_patch_filter_run config last offset filter machine d a named found =
      let whole = load_absolute offset ∷ filter in
      let shaped = find_last_syscalls-IsShaped lib config last named found in
      let in_order = visit-IsShaped first last shaped in
      let (stub, built) =
        generate_enosys_stub_total (first.visit last) (second.visit last) in_order.1 in
      elim (Bool-cases (is_patched config)) [
        | inr off ↦
            (whole, (unpatched config whole off, rw off (reload machine d offset filter a 0)))
        | inl on ↦ (
          stub ++ whole,
          (
            patched config last stub whole on found built,
            generate_enosys_stub-gets_enosys machine d (first.visit last) (second.visit last) stub
                  offset filter a in_order.0
                  (λ k absent.
                    first.visit-lookup last k shaped.0
                    ∙ sym (second.visit-lookup last k shaped.0)
                    ∙ absent)
                  built
                ∙ rw (on, gets_enosys-visit first last d shaped.0),
          ),
        )
      ]
