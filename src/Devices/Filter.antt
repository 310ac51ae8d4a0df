-- ===== src/Devices/Filter.antt =====
-- The eBPF device filter: libcontainer/cgroups/ebpf/devicefilter/devicefilter.go.
-- Instructions are those that the file builds of the third-party asm package; a symbol is the number
-- of its block. A block that is marked by `Sym` is a label before its first instruction.
pub mod Machine
pub mod Verdict
pub mod Run
pub mod Decision
pub mod Grants
pub mod Interpreter
mod Scenarios
use Prim.Native.Nat.{bit_and, bit_or}
use sysbox_runc.Prelude.{
  ℕ, ◌≡◌, ◌+◌, ◌-◌, ◌^◌, Bool, true, false, not, ◌&&◌, ◌||◌, Option, none, some, List, [], ◌∷◌,
  ◌++◌, reverse, Result, ok, err, if◌then◌else◌, ◌==◌, nat_eq, leb, suc,
}
use sysbox_runc.Prelude.Int.{ℤ, pos, negsuc}
use sysbox_runc.Devices.Device.{
  DeviceType, Permissions, Rule, wildcard_device, block_device, char_device,
}

pub data Register : Type 0 where
  r0 r1 r2 r3 r4 r5 : Register

-- The instructions that the program uses; an immediate is an int32, given as a uint32.
pub data Instruction : Type 0 where
  load_word : Register → Register → ℕ → Instruction  -- asm.LoadMem(dst, src, offset, asm.Word)
  and_imm32 : Register → ℕ → Instruction
  rsh_imm32 : Register → ℕ → Instruction
  mov_reg32 : Register → Register → Instruction
  mov_imm32 : Register → ℕ → Instruction
  jne_imm : Register → ℕ → ℕ → Instruction  -- register, immediate, block
  jeq_imm : Register → ℕ → ℕ → Instruction
  block : ℕ → Instruction  -- the symbol of the next instruction
  return : Instruction

pub data FilterError : Type 0 where
  invalid_type invalid_major invalid_minor unknown_access finalized : FilterError

pub record Program : Type 0 where
  pub insts : List Instruction
  pub has_wild_card : Bool
  pub block_id : Option ℕ  -- `none` is -1

abbrev pub init_insts : List Instruction
init_insts =
    load_word r2 r1 0
    ∷ and_imm32 r2 0xffff
    ∷ load_word r3 r1 0
    ∷ rsh_imm32 r3 16
    ∷ load_word r4 r1 4
    ∷ load_word r5 r1 8
    ∷ []

abbrev pub init : Program
init = record { insts = init_insts; has_wild_card = false; block_id = some 0 }

-- The values of linux/bpf.h.
abbrev pub dev_block : ℕ
dev_block = 1

abbrev pub dev_char : ℕ
dev_char = 2

abbrev pub acc_mknod : ℕ
acc_mknod = 1

abbrev pub acc_read : ℕ
acc_read = 2

abbrev pub acc_write : ℕ
acc_write = 4

-- The type to compare with, if there is one.
unfoldable pub bpf_type : DeviceType → Result FilterError (Option ℕ)
bpf_type t =
    if t == char_device
    then ok (some dev_char)
    else if t == block_device
    then ok (some dev_block)
    else if t == wildcard_device
    then ok none
    else err invalid_type

-- The bit of an access.
unfoldable pub access_bit : ℕ → Option ℕ
access_bit r =
    if r == b'r'
    then some acc_read
    else if r == b'w'
    then some acc_write
    else if r == b'm'
    then some acc_mknod
    else none

unfoldable pub bpf_access : ℕ → Permissions → Result FilterError ℕ
bpf_access access [] = ok access
bpf_access access (r ∷ permissions) = elim (access_bit r) [
  | none ↦ err unknown_access
  | some bit ↦ bpf_access (bit_or access bit) permissions
]

abbrev pub max_uint32 : ℕ
max_uint32 = 2 ^ 32 - 1

-- A number that is not below zero is compared; it has to be a uint32.
unfoldable pub number_of : FilterError → ℤ → Result FilterError (Option ℕ)
number_of e (negsuc _) = ok none
number_of e (pos n) = if leb n max_uint32 then ok (some n) else err e

-- A rule as the program tests it.
pub record Test : Type 0 where
  pub type : Option ℕ
  pub access : ℕ
  pub major : Option ℕ
  pub minor : Option ℕ
  pub allow : Bool

abbrev pub and_then :
    {A B : Type 0} → Result FilterError A → (A → Result FilterError B) → Result FilterError B
and_then (ok a) f = f a
and_then (err e) f = err e

unfoldable pub test_of_rule : Rule → Result FilterError Test
test_of_rule dev = and_then (bpf_type dev.node) λ type.
    and_then (number_of invalid_major dev.major) λ major.
      and_then (number_of invalid_minor dev.minor) λ minor.
        and_then (bpf_access 0 dev.permissions) λ access.
          ok (record {
            type = type;
            access = access;
            major = major;
            minor = minor;
            allow = dev.allow;
          })

abbrev pub all_access : ℕ
all_access = 7

unfoldable pub has_access : Test → Bool
has_access t = not (t.access == all_access)

unfoldable pub check_equal : Register → ℕ → Option ℕ → List Instruction
check_equal reg next none = []
check_equal reg next (some n) = jne_imm reg n next ∷ []

unfoldable pub check_access : ℕ → Test → List Instruction
unfolding has_access
check_access next t =
    if has_access t then mov_reg32 r1 r3 ∷ and_imm32 r1 t.access ∷ jeq_imm r1 0 next ∷ [] else []

abbrev pub accept_block : Bool → List Instruction
accept_block accept = mov_imm32 r0 (if accept then 1 else 0) ∷ return ∷ []

-- The instructions that one rule adds, its symbol first.
unfoldable pub block_of_test : ℕ → Test → List Instruction
block_of_test id t =
    block id
    ∷ (check_equal r2 (suc id) t.type
        ++ (check_access (suc id) t
            ++ (check_equal r4 (suc id) t.major
                ++ (check_equal r5 (suc id) t.minor ++ accept_block t.allow))))

abbrev pub is_absent : Option ℕ → Bool
is_absent none = true
is_absent (some _) = false

unfoldable pub is_wild_card : Test → Bool
unfolding has_access
is_wild_card t = is_absent t.type && not (has_access t) && is_absent t.major && is_absent t.minor

unfoldable pub append_test : Program → ℕ → Test → Program
append_test p id t = record {
  insts = p.insts ++ block_of_test id t;
  has_wild_card = is_wild_card t;
  block_id = some (suc id);
}

unfoldable pub append_device : Rule → Program → Result FilterError Program
append_device dev p = elim p.block_id [
  | none ↦ err finalized
  | some id ↦
      if p.has_wild_card then ok p else and_then (test_of_rule dev) λ t. ok (append_test p id t)
]

unfoldable pub finalize : Program → List Instruction
finalize p = if p.has_wild_card then p.insts else elim p.block_id [
  | none ↦ p.insts ++ mov_imm32 r0 0 ∷ return ∷ []
  | some id ↦ p.insts ++ block id ∷ mov_imm32 r0 0 ∷ return ∷ []
]

unfoldable pub append_devices : List Rule → Program → Result FilterError Program
append_devices [] p = ok p
append_devices (dev ∷ devices) p = and_then (append_device dev p) (append_devices devices)

-- The loop runs from the last rule to the first.
unfoldable pub device_filter : List Rule → Result FilterError (List Instruction)
device_filter devices = and_then (append_devices (reverse devices) init) λ p. ok (finalize p)
