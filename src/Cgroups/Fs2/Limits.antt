-- ===== src/Cgroups/Fs2/Limits.antt =====
-- The files that the limits are written to.
use sysbox_runc.Prelude.{
  ℕ, ◌≡◌, ◌≢◌, ◌-◌, ◌<◌, arith, true, not, ◌||◌, Option, none, List, ◌∷◌, String, nat_eq,
}
use sysbox_runc.Prelude.Int.{pos, int_eq, ltb_ℤ}
use sysbox_runc.Prelude.Decimal.{format_nat}
use sysbox_runc.Cgroups.Convert.{convert_memory_swap}
use sysbox_runc.Cgroups.Fs2.{
  Resources, Write, num_to_str, is_memory_set, swap_text, write, write_limit, write_memory,
  set_memory,
}

module _ (write_file : List Write → Write → Option String) where
  -- With a limit for memory, a greater one for memory and swap together and no reservation, memory
  -- that is set without an error has had two files written: the swap limit is the difference.
  pub set_memory_writes :
      (r : Resources) (m t : ℕ) (log : List Write)
      → r.memory ≡ pos m
      → r.memory_swap ≡ pos t
      → r.memory_reservation ≡ pos 0
      → 0 < m
      → m < t
      → (set_memory write_file r log).0 ≡ none
      → (set_memory write_file r log).1
        ≡ ("memory.max", format_nat m) ∷ ("memory.swap.max", format_nat (t - m)) ∷ log
  unfolding set_memory write_memory write_limit write swap_text num_to_str is_memory_set
      convert_memory_swap
  set_memory_writes r m t log em et er lo hi done = ground arith

  -- A limit for memory and swap together without a limit for memory, or below it, is refused, and
  -- nothing is written.
  pub set_memory_refused :
      (r : Resources) (t : ℕ) (log : List Write)
      → r.memory_swap ≡ pos t
      → 0 < t
      → ltb_ℤ r.memory_swap r.memory || not (ltb_ℤ (pos 0) r.memory) ≡ true
      → ((set_memory write_file r log).0 ≢ none) × ((set_memory write_file r log).1 ≡ log)
  unfolding set_memory is_memory_set convert_memory_swap
  set_memory_refused r t log et lo bad = ground arith
