-- ===== src/Cgroups/Fs2.antt =====
-- The memory and CPU limits of libcontainer/cgroups/fs2: `setMemory` and `numToStr` of memory.go, and
-- `setCpu` of cpu.go. A call writes files of the cgroup; whether a write fails depends on those before.
pub mod Limits
use sysbox_runc.Prelude.{
  ℕ, ◌≡◌, ◌+◌, Bool, true, false, not, ◌&&◌, ◌||◌, Option, none, some, List, [], ◌∷◌, ◌++◌, String,
  Result, ok, err, if◌then◌else◌, ◌==◌, nat_eq,
}
use sysbox_runc.Prelude.Int.{ℤ, pos, negsuc, int_eq, ltb_ℤ}
use sysbox_runc.Prelude.Text.{Text, runes}
use sysbox_runc.Prelude.Decimal.{format_nat}
use sysbox_runc.Cgroups.Convert.{convert_memory_swap, SwapError}

-- The parts of `configs.Resources` that are read.
pub record Resources : Type 0 where
  pub memory : ℤ
  pub memory_reservation : ℤ
  pub memory_swap : ℤ
  pub cpu_weight : ℕ
  pub cpu_quota : ℤ
  pub cpu_period : ℕ

pub data FsError : Type 0 where
  bad_swap : SwapError → FsError
  write_failed : String → FsError

-- A file's name and what is written to it.
abbrev pub Write : Type 0
Write = String × Text

-- The writes that have been made, the last one first, and an error.
abbrev pub Writer : Type 0
Writer = List Write → Option FsError × List Write

abbrev pub skip : Writer
skip log = (none, log)

abbrev pub after : Option FsError × List Write → Writer → Option FsError × List Write
after (none, log) k = k log
after (some e, log) k = (some e, log)

-- `if err := m(); err != nil { return err }`, then the rest.
abbrev pub then_do : Writer → Writer → Writer
then_do m k log = after (m log) k

-- `strconv.FormatInt(value, 10)`
abbrev pub format_int : ℤ → Text
format_int (pos n) = format_nat n
format_int (negsuc n) = b'-' ∷ format_nat (n + 1)

-- `none` is the empty string.
unfoldable pub num_to_str : ℤ → Option Text
num_to_str value =
    if value == pos 0
    then none
    else if value == negsuc 0
    then some (runes "max")
    else some (format_int value)

unfoldable pub is_memory_set : Resources → Bool
is_memory_set r =
    not (r.memory_reservation == pos 0) || not (r.memory == pos 0) || not (r.memory_swap == pos 0)

unfoldable pub is_cpu_set : Resources → Bool
is_cpu_set r = not (r.cpu_weight == 0) || not (r.cpu_quota == pos 0) || not (r.cpu_period == 0)

-- Equal limits for memory and for memory and swap together disable swap.
unfoldable pub swap_text : ℤ → ℤ → Option Text
unfolding num_to_str
swap_text swap memory_swap =
    if (swap == pos 0) && ltb_ℤ (pos 0) memory_swap then some (runes "0") else num_to_str swap

unfoldable pub cpu_max : Resources → Text
cpu_max r =
    (if ltb_ℤ (pos 0) r.cpu_quota then format_int r.cpu_quota else runes "max")
    ++ b' ' ∷ format_nat (if r.cpu_period == 0 then 100000 else r.cpu_period)

module _ (write_file : List Write → Write → Option String) where
  unfoldable pub write : String → Text → Writer
  write file value log = elim (write_file log (file, value)) [
    | none ↦ (none, (file, value) ∷ log)
    | some message ↦ (some (write_failed message), log)
  ]

  unfoldable pub write_limit : String → Option Text → Writer
  write_limit file value = elim value [ none ↦ skip | some text ↦ write file text ]

  unfoldable pub write_memory : ℤ → Resources → Writer
  write_memory swap r = then_do (write_limit "memory.swap.max" (swap_text swap r.memory_swap)) (
      then_do (write_limit "memory.max" (num_to_str r.memory))
        (write_limit "memory.low" (num_to_str r.memory_reservation)))

  unfoldable pub set_memory : Resources → Writer
  set_memory r log =
      if not (is_memory_set r)
      then (none, log)
      else elim (convert_memory_swap r.memory_swap r.memory) [
        | err e ↦ (some (bad_swap e), log)
        | ok swap ↦ write_memory swap r log
      ]

  unfoldable pub set_cpu : Resources → Writer
  set_cpu r log =
      if not (is_cpu_set r)
      then (none, log)
      else then_do
          (if not (r.cpu_weight == 0) then write "cpu.weight" (format_nat r.cpu_weight) else skip)
          (if not (r.cpu_quota == pos 0) || not (r.cpu_period == 0)
            then write "cpu.max" (cpu_max r)
            else skip)
          log
