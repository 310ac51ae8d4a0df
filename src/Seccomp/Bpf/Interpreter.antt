-- ===== src/Seccomp/Bpf/Interpreter.antt =====
-- A machine that satisfies the documented laws: it counts the instructions that are still to skip.
use sysbox_runc.Prelude.{
  ℕ, suc, zero, ◌≡◌, refl, Option, none, some, List, [], ◌∷◌, ◌++◌, if◌then◌else◌, length,
}
use sysbox_runc.Seccomp.Bpf.{
  Instruction, load_absolute, jump, jump_if, ret_constant, SeccompData, word_at, passes, Machine,
}

unfoldable pub run : SeccompData → ℕ → List Instruction → ℕ → Option ℕ
run d n [] a = none
run d (suc n) (i ∷ k) a = run d n k a
run d zero (load_absolute offset ∷ k) a = run d zero k (word_at offset d)
run d zero (jump n ∷ k) a = run d n k a
run d zero (jump_if test v yes_skip no_skip ∷ k) a =
    run d (if passes test a v then yes_skip else no_skip) k a
run d zero (ret_constant v ∷ k) a = some v

pub run-length :
    (d : SeccompData) (over k : List Instruction) (a : ℕ)
    → run d (length over) (over ++ k) a ≡ run d 0 k a
unfolding run
run-length d [] k a = refl
run-length d (i ∷ over) k a = run-length d over k a

abbrev pub interpreter : Machine
unfolding run
interpreter = record {
  exec = λ d k a. run d 0 k a;
  on_load = λ d offset k a. refl;
  on_jump = λ d over k a h. run-length d over k a;
  on_jump_if = λ d test v yes_skip no_skip k a. refl;
  on_return = λ d v k a. refl;
}
