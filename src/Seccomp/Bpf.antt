-- ===== src/Seccomp/Bpf.antt =====
-- The instructions that libcontainer/seccomp/patchbpf/enosys_linux.go builds of the third-party bpf
-- package, and the kernel's machine that runs them, as a parameter with its documented laws.
pub mod Interpreter
use Prim.Native.Nat.{bit_and}
use sysbox_runc.Prelude.{
  ℕ, ◌≡◌, ◌<◌, ◌%◌, ◌^◌, Bool, true, false, not, Option, none, some, List, [], ◌∷◌, ◌++◌,
  if◌then◌else◌, ◌==◌, nat_eq, ltb, leb, length,
}

pub data JumpTest : Type 0 where
  equal not_equal greater_than less_or_equal bits_set bits_not_set : JumpTest

-- A jump skips instructions: `jump_if` skips the one number if its test holds, and the other if not.
pub data Instruction : Type 0 where
  load_absolute : ℕ → Instruction
  jump : ℕ → Instruction
  jump_if : JumpTest → ℕ → ℕ → ℕ → Instruction
  ret_constant : ℕ → Instruction

-- `struct seccomp_data`: the number of the syscall, the architecture, and the words behind them.
pub record SeccompData : Type 0 where
  pub nr : ℕ
  pub arch : ℕ
  pub more : ℕ → ℕ

unfoldable pub word_at : ℕ → SeccompData → ℕ
word_at offset d = if offset == 0 then d.nr else if offset == 4 then d.arch else d.more offset

unfoldable pub passes : JumpTest → ℕ → ℕ → Bool
passes equal a v = a == v
passes not_equal a v = not (a == v)
passes greater_than a v = ltb v a
passes less_or_equal a v = leb a v
passes bits_set a v = not (bit_and a v == 0)
passes bits_not_set a v = bit_and a v == 0

-- `exec` is the value that a run returns, of a program and what its accumulator holds. A jump has to
-- reach an instruction of the program.
pub record Machine : Type 0 where
  pub exec : SeccompData → List Instruction → ℕ → Option ℕ
  pub on_load :
      (d : SeccompData) (offset : ℕ) (k : List Instruction) (a : ℕ)
      → exec d (load_absolute offset ∷ k) a ≡ exec d k (word_at offset d)
  pub on_jump :
      (d : SeccompData) (over k : List Instruction) (a : ℕ)
      → 0 < length k
      → exec d (jump (length over) ∷ (over ++ k)) a ≡ exec d k a
  pub on_jump_if :
      (d : SeccompData) (test : JumpTest) (v yes_skip no_skip : ℕ) (k : List Instruction) (a : ℕ)
      → exec d (jump_if test v yes_skip no_skip ∷ k) a
        ≡ exec d (jump (if passes test a v then yes_skip else no_skip) ∷ k) a
  pub on_return :
      (d : SeccompData) (v : ℕ) (k : List Instruction) (a : ℕ)
      → exec d (ret_constant v ∷ k) a ≡ some v

-- Go's `uint8(n)`.
abbrev pub uint8 : ℕ → ℕ
uint8 n = n % 2 ^ 8
