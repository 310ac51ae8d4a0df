-- ===== src/Cgroups/Convert.antt =====
-- The conversions from cgroup v1 to v2 of libcontainer/cgroups/utils.go. A uint64 wraps at 2^64.
pub mod Bounds
use sysbox_runc.Prelude.{
  ℕ, ◌≡◌, ◌+◌, ◌-◌, ◌*◌, ◌/◌, ◌%◌, ◌^◌, Bool, true, false, ◌&&◌, ◌||◌, Result, ok, err,
  if◌then◌else◌, ◌==◌, nat_eq, leb,
}
use sysbox_runc.Prelude.Int.{ℤ, pos, negsuc, int_eq, ltb_ℤ, ◌-ℤ◌}

abbrev pub u64 : ℕ → ℕ
u64 n = n % 2 ^ 64

-- `a - b` of two uint64.
abbrev pub sub_u64 : ℕ → ℕ → ℕ
sub_u64 a b = u64 (a + 2 ^ 64 - b)

unfoldable pub convert_blk_io : ℕ → ℕ
convert_blk_io weight = if weight == 0 then 0 else u64 (1 + u64 (sub_u64 weight 10 * 9999) / 990)

unfoldable pub convert_cpu_shares : ℕ → ℕ
convert_cpu_shares shares =
    if shares == 0 then 0 else u64 (1 + u64 (sub_u64 shares 2 * 9999) / 262142)

pub data SwapError : Type 0 where
  swap_without_memory invalid_memory swap_below_memory : SwapError

unfoldable pub convert_memory_swap : ℤ → ℤ → Result SwapError ℤ
convert_memory_swap memory_swap memory =
    if (memory == negsuc 0) && (memory_swap == pos 0)
    then ok (negsuc 0)
    else if (memory_swap == negsuc 0) || (memory_swap == pos 0)
    then ok memory_swap
    else if (memory == pos 0) || (memory == negsuc 0)
    then err swap_without_memory
    else if ltb_ℤ memory (pos 0)
    then err invalid_memory
    else if ltb_ℤ memory_swap memory
    then err swap_below_memory
    else ok (memory_swap -ℤ memory)
