-- ===== src/Seccomp/Stub/Sections.antt =====
-- The decision of a section: ENOSYS for the calls beyond the last one, the filter for the others.
use sysbox_runc.Prelude.{
  ℕ, ◌≡◌, ◌∙◌, refl, ◌+◌, ◌-◌, ◌<◌, arith, Bool, ◌&&◌, Option, some, List, [], ◌∷◌, ◌++◌, length,
  if◌then◌else◌, Bool-cases, inl, inr, ok, ◌==◌, nat_eq, leb, ltb,
}
use sysbox_runc.Prelude.Int.{ℤ}
use sysbox_runc.Seccomp.Bpf.{
  JumpTest, Instruction, jump, jump_if, ret_constant, SeccompData, passes, Machine, uint8,
  greater_than, less_or_equal, bits_set, bits_not_set, not_equal,
}
use sysbox_runc.Seccomp.Arch.{ScmpArch, arch_eq, amd64, x32, s390, s390x, audit_arch_x86_64}
use sysbox_runc.Seccomp.Stub.{
  ret_errno_enosys, uint32, x32_bit, setup_rule, sysno_rule, mode_rule, two_abi_rule,
}
use sysbox_runc.Seccomp.Stub.Verdict.{is_x32_call, is_s390, in_mode}
use sysbox_runc.Seccomp.Stub.Rules.{
  uint8_small, rest, outcome, to_filter, short_rule, long_rule, sysno_rule_lem, past_sysno,
  sysno_rule-pos,
}
use sysbox_runc.Seccomp.Stub.Jumps.{exec-jump, exec-jump_if, jump-enosys}

module _ (machine : Machine) (d : SeccompData) (front filter : List Instruction) (result : Option ℕ)
    (room : 0 < length filter) (entry : (a : ℕ) → machine.exec d filter a ≡ result) where
  abbrev behind : List Instruction
  behind = rest machine d front filter result room entry

  abbrev decided : Bool → Option ℕ
  decided = outcome machine d front filter result room entry

  -- The check of the mode before the rule.
  pub mode_rule_lem :
      (native_arch : ℕ) (arch : ScmpArch) (sysno : ℤ) (tail : List Instruction) (a : ℕ)
      → mode_rule native_arch arch (sysno_rule (length front) sysno) ≡ ok tail
      → machine.exec d (tail ++ behind) a
        ≡ decided (in_mode native_arch arch a && ltb (uint32 sysno) a)
  unfolding mode_rule passes
  mode_rule_lem native_arch arch sysno tail a built =
      elim (Bool-cases (native_arch == audit_arch_x86_64)) [
        | inl x86_64 ↦ elim (Bool-cases (arch == amd64)) [
          | inl is_amd64 ↦
              let same : arch ≡ amd64 = (arch_eq.beq_iff arch amd64).0 is_amd64 in
              let shape : guarded bits_set ≡ tail = ground arith in
              rw (← shape) (checked bits_set ∙ rw (x86_64, same) (ground arith))
          | inr not_amd64 ↦ elim (Bool-cases (arch == x32)) [
            | inl is_x32 ↦
                let shape : guarded bits_not_set ≡ tail = ground arith in
                rw (← shape) (checked bits_not_set ∙ ground arith)
            | inr neither ↦ ground arith
          ]
        ]
        | inr plain ↦
            let shape : sysno_rule (length front) sysno ≡ tail = ground arith in
            rw (← shape)
              (sysno_rule_lem machine d front filter result room entry sysno a ∙ ground arith)
      ]
    where
      guarded : JumpTest → List Instruction
      guarded test =
          jump_if test x32_bit (uint8 (length (sysno_rule (length front) sysno) - 1)) 0
          ∷ sysno_rule (length front) sysno

      checked :
          (test : JumpTest)
          → machine.exec d (guarded test ++ behind) a
            ≡ (if passes test a x32_bit then result else decided (ltb (uint32 sysno) a))
      checked test =
          exec-jump_if machine d test x32_bit (uint8 (length (sysno_rule (length front) sysno) - 1))
            0 (sysno_rule (length front) sysno ++ behind) a result (decided (ltb (uint32 sysno) a))
            (past_sysno machine d front filter result room entry sysno a)
            (exec-jump machine d 0 [] (sysno_rule (length front) sysno ++ behind) a refl
                (sysno_rule-pos machine d front filter result room entry sysno)
              ∙ sysno_rule_lem machine d front filter result room entry sysno a)

  setup_checked :
      (k : List Instruction) (a : ℕ)
      → 0 < length k
      → machine.exec d (jump_if not_equal 0 1 0 ∷ ret_constant ret_errno_enosys ∷ k) a
        ≡ (if a == 0 then some ret_errno_enosys else machine.exec d k a)
  unfolding passes
  setup_checked k a some_k =
      exec-jump_if machine d not_equal 0 1 0 (ret_constant ret_errno_enosys ∷ k) a
        (machine.exec d k a) (some ret_errno_enosys)
        (exec-jump machine d 1 (ret_constant ret_errno_enosys ∷ []) k a refl some_k)
        (exec-jump machine d 0 [] (ret_constant ret_errno_enosys ∷ k) a refl (omega arith)
          ∙ machine.on_return d ret_errno_enosys k a)
      ∙ ground arith

  -- What s390(x) has before.
  pub setup_rule_lem :
      (arch : ScmpArch) (k : List Instruction) (a : ℕ)
      → 0 < length k
      → machine.exec d (setup_rule arch ++ k) a
        ≡ (if is_s390 arch && a == 0 then some ret_errno_enosys else machine.exec d k a)
  unfolding setup_rule passes
  setup_rule_lem s390 k a some_k = setup_checked k a some_k
  setup_rule_lem s390x k a some_k = setup_checked k a some_k
  setup_rule_lem _ k a some_k = refl

  -- The mode chooses between two rules, of which the first is skipped over by one jump.
  choose_abi :
      (first : Instruction) (k : List Instruction) (v w a : ℕ)
      → 0 < length k
      → machine.exec d (first ∷ k) a ≡ decided (ltb v a)
      → machine.exec d k a ≡ decided (ltb w a)
      → machine.exec d (jump_if bits_set x32_bit 1 0 ∷ first ∷ k) a
        ≡ decided (ltb (if is_x32_call a then w else v) a)
  unfolding passes
  choose_abi first k v w a some_k x86_run x32_run =
      exec-jump_if machine d bits_set x32_bit 1 0 (first ∷ k) a (decided (ltb w a))
        (decided (ltb v a)) (exec-jump machine d 1 (first ∷ []) k a refl some_k ∙ x32_run)
        (exec-jump machine d 0 [] (first ∷ k) a refl (omega arith) ∙ x86_run)
      ∙ ground arith

  pub two_abi_rule_lem :
      (x86_sysno x32_sysno : ℤ) (a : ℕ)
      → machine.exec d (two_abi_rule (length front) x86_sysno x32_sysno ++ behind) a
        ≡ decided (ltb (if is_x32_call a then uint32 x32_sysno else uint32 x86_sysno) a)
  unfolding two_abi_rule passes
  two_abi_rule_lem x86_sysno x32_sysno a = elim (Bool-cases (leb (length front + 2) 255)) [
    | inl short ↦
        let x32_rule : Instruction =
          jump_if greater_than (uint32 x32_sysno) (uint8 (length front + 1)) 0 in
        rw short (
          choose_abi (jump_if greater_than (uint32 x86_sysno) (uint8 (length front + 2)) 1)
            (x32_rule ∷ jump (length front + 1) ∷ behind) (uint32 x86_sysno) (uint32 x32_sysno) a
            (omega arith)
            (exec-jump_if machine d greater_than (uint32 x86_sysno) (uint8 (length front + 2)) 1
              (x32_rule ∷ jump (length front + 1) ∷ behind) a (some ret_errno_enosys) result
              (jump-enosys machine d front filter room (uint8 (length front + 2))
                (x32_rule ∷ jump (length front + 1) ∷ []) a
                (uint8_small (length front + 2) short ∙ omega arith))
              (exec-jump machine d 1 (x32_rule ∷ []) (jump (length front + 1) ∷ behind) a refl
                  (omega arith)
                ∙ to_filter machine d front filter result room entry (length front + 1) [] a
                    (omega arith)))
            (short_rule machine d front filter result room entry (uint32 x32_sysno) a
              (ground arith)))
    | inr long ↦
        let x32_rule : Instruction = jump_if less_or_equal (uint32 x32_sysno) 1 0 in
        rw long (
          choose_abi (jump_if greater_than (uint32 x86_sysno) 1 2)
            (x32_rule ∷ ret_constant ret_errno_enosys ∷ jump (length front + 1) ∷ behind)
            (uint32 x86_sysno) (uint32 x32_sysno) a (omega arith)
            (exec-jump_if machine d greater_than (uint32 x86_sysno) 1 2
              (x32_rule ∷ ret_constant ret_errno_enosys ∷ jump (length front + 1) ∷ behind) a
              (some ret_errno_enosys) result
              (exec-jump machine d 1 (x32_rule ∷ [])
                  (ret_constant ret_errno_enosys ∷ jump (length front + 1) ∷ behind) a refl
                  (omega arith)
                ∙ machine.on_return d ret_errno_enosys (jump (length front + 1) ∷ behind) a)
              (exec-jump machine d 2 (x32_rule ∷ ret_constant ret_errno_enosys ∷ [])
                  (jump (length front + 1) ∷ behind) a refl (omega arith)
                ∙ to_filter machine d front filter result room entry (length front + 1) [] a
                    (omega arith)))
            (long_rule machine d front filter result room entry (uint32 x32_sysno) a))
  ]
