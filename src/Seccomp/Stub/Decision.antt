-- ===== src/Seccomp/Stub/Decision.antt =====
-- The decision of the stub with the filter behind it.
use mathlib.Core.List.{append_assoc}
use sysbox_runc.Prelude.{
  ℕ, ◌≡◌, ◌∙◌, refl, sym, ap, ◌-◌, ◌<◌, arith, Bool, false, ◌&&◌, ◌||◌, Option, none, some, List,
  [], ◌∷◌, ◌++◌, length, length-append, if◌then◌else◌, Bool-cases, inl, inr, ok, ◌==◌, nat_eq, leb,
  value_of, ok_inj, lookup, IsMap,
}
use sysbox_runc.Seccomp.Bpf.{
  Instruction, load_absolute, jump, equal, not_equal, SeccompData, word_at, passes, Machine, uint8,
}
use sysbox_runc.Seccomp.LastSyscalls.{LastSyscallMap}
use sysbox_runc.Seccomp.Stub.{
  ret_errno_enosys, Tail, add_sections, or_zero, JumpTable, arch_rule, add_arch_rules, first_tail,
  generate_enosys_stub,
}
use sysbox_runc.Seccomp.Stub.Verdict.{gets_enosys}
use sysbox_runc.Seccomp.Stub.Jumps.{exec-jump, exec-jump_if}
use sysbox_runc.Seccomp.Stub.Rules.{uint8_small}
use sysbox_runc.Seccomp.Stub.Landing.{
  outcome, Lands, Lands-append, Lands-zero, after_sections, add_sections-IsRouted,
}

abbrev is_key : ℕ → LastSyscallMap → Bool
is_key arch [] = false
is_key arch ((native_arch, _) ∷ last) = (arch == native_arch) || is_key arch last

is_key_lem : (arch : ℕ) (last : LastSyscallMap) → is_key arch last ≡ false → lookup arch last ≡ none
unfolding lookup
is_key_lem arch [] absent = refl
is_key_lem arch ((native_arch, calls) ∷ last) absent =
    ground (
      arith,
      is_key_lem arch last,
      nat_eq.beq_iff arch native_arch,
      nat_eq.beq_iff native_arch arch,
    )

module _ (machine : Machine) (d : SeccompData) (filter : List Instruction) (result : Option ℕ)
    (room : 0 < length filter) (entry : (a : ℕ) → machine.exec d filter a ≡ result) where
  abbrev decided : Bool → Option ℕ
  decided = outcome machine d filter result room entry

  abbrev LandsAt : List Instruction → ℕ → Bool → Type 0
  LandsAt = Lands machine d filter result room entry

  -- A rule sends its architecture to where the distance lands, and the others on.
  arch_rule_lem :
      (native_arch n : ℕ) (program : List Instruction) (here : Bool) (onward : Option ℕ)
      → LandsAt program n here
      → 0 < length program
      → machine.exec d (program ++ filter) d.arch ≡ onward
      → machine.exec d ((arch_rule native_arch (length program - n) ++ program) ++ filter) d.arch
        ≡ (if d.arch == native_arch then decided here else onward)
  unfolding arch_rule passes
  arch_rule_lem native_arch n program here onward (before, (after, (same, (size, run)))) some_p
        next =
      elim (Bool-cases (leb (length program - n) 255)) [
        | inl short ↦ rw short (
            exec-jump_if machine d equal native_arch (uint8 (length program - n)) 0
              (program ++ filter) d.arch (decided here) onward
              (land (uint8 (length program - n))
                (uint8_small (length program - n) short ∙ distance_lem))
              (exec-jump machine d 0 [] (program ++ filter) d.arch refl room' ∙ next))
        | inr long ↦ rw long (
            exec-jump_if machine d not_equal native_arch 1 0
              (jump (length program - n) ∷ (program ++ filter)) d.arch onward (decided here)
              (exec-jump machine d 1 (jump (length program - n) ∷ []) (program ++ filter) d.arch
                  refl room'
                ∙ next)
              (exec-jump machine d 0 [] (jump (length program - n) ∷ (program ++ filter)) d.arch
                  refl (omega arith)
                ∙ land (length program - n) distance_lem)
            ∙ ground arith)
      ]
    where
      distance_lem : length program - n ≡ length before
      distance_lem =
          omega
            (arith, ap (λ (p : List Instruction). length p) same, length-append before after, size)

      room' : 0 < length (program ++ filter)
      room' = omega (arith, length-append program filter, some_p)

      land :
          (m : ℕ)
          → m ≡ length before
          → machine.exec d (jump m ∷ (program ++ filter)) d.arch ≡ decided here
      land m at =
          ap (λ p. machine.exec d (jump m ∷ p) d.arch)
            (ap (λ p. p ++ filter) same ∙ append_assoc before after filter)
          ∙ exec-jump machine d m before (after ++ filter) d.arch at
              (omega (arith, length-append after filter, room))
          ∙ run d.arch

  add_arch_rules_lem :
      (table : JumpTable) (again : LastSyscallMap) (program : List Instruction) (v : ℕ → Bool)
      (covered : Bool)
      → ((j : ℕ) → LandsAt program (or_zero (lookup j table)) (v j))
      → 0 < length program
      → machine.exec d (program ++ filter) d.arch ≡ decided (covered && v d.arch)
      → machine.exec d (add_arch_rules table again program ++ filter) d.arch
        ≡ decided ((covered || is_key d.arch again) && v d.arch)
  unfolding add_arch_rules
  add_arch_rules_lem table [] program v covered lands some_p next = next ∙ ground arith
  add_arch_rules_lem table ((native_arch, calls) ∷ again) program v covered lands some_p next =
      let n = or_zero (lookup native_arch table) in
      let rule = arch_rule native_arch (length program - n) in
      let step =
        arch_rule_lem native_arch n program (v native_arch) (decided (covered && v d.arch))
          (lands native_arch) some_p next in
      add_arch_rules_lem table again (rule ++ program) v (covered || (d.arch == native_arch))
        (λ j.
          Lands-append machine d filter result room entry rule program (or_zero (lookup j table))
            (v j) (lands j))
        (omega (arith, length-append rule program, some_p))
        (step ∙ ground (arith, nat_eq.beq_iff d.arch native_arch))
      ∙ ground arith

  add_arch_rules-pos :
      (table : JumpTable) (again : LastSyscallMap) (program : List Instruction)
      → 0 < length program
      → 0 < length (add_arch_rules table again program)
  unfolding add_arch_rules
  add_arch_rules-pos table [] program some_p = some_p
  add_arch_rules-pos table ((native_arch, calls) ∷ again) program some_p =
      let rule = arch_rule native_arch (length program - or_zero (lookup native_arch table)) in
      add_arch_rules-pos table again (rule ++ program)
        (omega (arith, length-append rule program, some_p))

  stub_lem :
      (last again : LastSyscallMap) (stub : List Instruction) (a : ℕ)
      → IsMap last
      → generate_enosys_stub last again ≡ ok stub
      → machine.exec d (stub ++ filter) a
        ≡ decided (
            is_key d.arch again
            && after_sections machine d filter result room entry last (λ j. false) d.arch)
  unfolding generate_enosys_stub word_at lookup
  stub_lem last again stub a distinct built =
      let start : Tail = record { program = first_tail; table = [] } in
      let (t, (added, joined)) = value_of (add_sections last start) _ stub built in
      let routed =
        add_sections-IsRouted machine d filter result room entry last start t (λ j. false) added
          distinct (λ j. inr refl)
          (record {
            front = jump 1 ∷ [];
            ends = refl;
            lands = λ j. Lands-zero machine d filter result room entry first_tail;
          }) in
      let v = after_sections machine d filter result room entry last (λ j. false) in
      let whole = jump (length t.program) ∷ t.program in
      let shape : load_absolute 4 ∷ add_arch_rules t.table again whole ≡ stub = ok_inj joined in
      rw (← shape) (
        machine.on_load d 4 (add_arch_rules t.table again whole ++ filter) a
        ∙ add_arch_rules_lem t.table again whole v false
            (λ j.
              Lands-append machine d filter result room entry (jump (length t.program) ∷ [])
                t.program (or_zero (lookup j t.table)) (v j) (routed.lands j))
            (omega arith)
            (exec-jump machine d (length t.program) t.program filter d.arch refl room
              ∙ entry d.arch))

-- The stub decides alike whatever the orders of the two loops, for a map and a second order that has
-- all its keys. A run of the stub with a filter behind it, one that begins with a load as those of
-- libseccomp do, returns ENOSYS for exactly the calls beyond the last one of their architecture and
-- ABI, or setup(2) on s390, and is the run of the filter alone for all others.
pub generate_enosys_stub-gets_enosys :
    (machine : Machine) (d : SeccompData) (last again : LastSyscallMap) (stub : List Instruction)
    (offset : ℕ) (filter : List Instruction) (a : ℕ)
    → IsMap last
    → ((k : ℕ) → lookup k again ≡ none → lookup k last ≡ none)
    → generate_enosys_stub last again ≡ ok stub
    → machine.exec d (stub ++ load_absolute offset ∷ filter) a ≡ (
        if gets_enosys last d
        then some ret_errno_enosys
        else machine.exec d (load_absolute offset ∷ filter) 0)
unfolding gets_enosys lookup
generate_enosys_stub-gets_enosys machine d last again stub offset filter a distinct same_keys
      built =
    let whole = load_absolute offset ∷ filter in
    stub_lem machine d whole (machine.exec d whole 0) (omega arith)
      (λ b. machine.on_load d offset filter b ∙ sym (machine.on_load d offset filter 0)) last again
      stub a distinct built
    ∙ ap (λ b. if b then some ret_errno_enosys else machine.exec d whole 0)
        (ground (arith, is_key_lem d.arch again, same_keys d.arch))
