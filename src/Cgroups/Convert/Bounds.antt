-- ===== src/Cgroups/Convert/Bounds.antt =====
-- The ranges of the conversions.
use sysbox_runc.Prelude.{ℕ, ◌≡◌, ◌+◌, ◌-◌, ◌*◌, ◌/◌, ◌<◌, ◌≤◌, arith, ok, nat_eq}
use sysbox_runc.Prelude.Int.{ℤ, pos, int_eq}
use sysbox_runc.Cgroups.Convert.{convert_blk_io, convert_cpu_shares, convert_memory_swap}

cpu_linear :
    (shares : ℕ)
    → 2 ≤ shares
    → shares ≤ 262144
    → convert_cpu_shares shares ≡ 1 + (shares - 2) * 9999 / 262142
unfolding convert_cpu_shares
cpu_linear shares lo hi = ground arith

blk_io_linear :
    (weight : ℕ)
    → 10 ≤ weight
    → weight ≤ 1000
    → convert_blk_io weight ≡ 1 + (weight - 10) * 9999 / 990
unfolding convert_blk_io
blk_io_linear weight lo hi = ground arith

-- CPU shares from 2 to 262144 convert to weights from 1 to 10000, in the same order.
pub convert_cpu_shares_range :
    (s t : ℕ)
    → 2 ≤ s
    → s ≤ t
    → t ≤ 262144
    → (1 ≤ convert_cpu_shares s)
      × (convert_cpu_shares s ≤ convert_cpu_shares t)
      × (convert_cpu_shares t ≤ 10000)
convert_cpu_shares_range s t lo le hi =
    rw (cpu_linear s lo (omega arith), cpu_linear t (omega arith) hi)
      (omega arith, omega arith, omega arith)

-- Block I/O weights from 10 to 1000 convert to weights from 1 to 10000, in the same order.
pub convert_blk_io_range :
    (s t : ℕ)
    → 10 ≤ s
    → s ≤ t
    → t ≤ 1000
    → (1 ≤ convert_blk_io s) × (convert_blk_io s ≤ convert_blk_io t) × (convert_blk_io t ≤ 10000)
convert_blk_io_range s t lo le hi =
    rw (blk_io_linear s lo (omega arith), blk_io_linear t (omega arith) hi)
      (omega arith, omega arith, omega arith)

-- Block I/O weights from 1 to 9 wrap below zero: they convert to weights beyond 10000.
pub convert_blk_io_wraps : (w : ℕ) → 1 ≤ w → w ≤ 9 → 10000 < convert_blk_io w
unfolding convert_blk_io
convert_blk_io_wraps w lo hi = ground arith

-- A swap limit that is converted from positive limits for memory and for memory and swap together is
-- what the second leaves beyond the first.
pub convert_memory_swap_sum :
    (t m : ℕ) {s : ℤ}
    → 0 < t
    → convert_memory_swap (pos t) (pos m) ≡ ok s
    → (k : ℕ) × (s ≡ pos k) × (m + k ≡ t) × (0 < m)
unfolding convert_memory_swap
convert_memory_swap_sum t m positive e = (t - m, ground arith, ground arith, ground arith)
