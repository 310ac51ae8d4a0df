-- ===== src/Specconv/MountOptions.antt =====
-- `parseMountOptions` of libcontainer/specconv/spec_linux.go. A word of flags is the list of its bits,
-- from bit 0; the values of the flags are those of the Linux headers.
pub mod Effect
use sysbox_runc.Prelude.{
  ℕ, zero, suc, Bool, true, false, not, ◌&&◌, ◌||◌, Option, none, some, List, [], ◌∷◌, ◌++◌, String,
  map, any, if◌then◌else◌, ◌==◌, nat_eq, string_eq,
}
use sysbox_runc.Prelude.Text.{Text, runes, join}

-- Flags with `clear`, and the positions of their bits.
pub record Flag : Type 0 where
  pub clear : Bool
  pub bits : List ℕ

abbrev pub Word : Type 0
Word = List Bool

-- Bit 0 of MS_RDONLY and so on.
abbrev set : List ℕ → Flag
set bits = record { clear = false; bits = bits }

abbrev unset : List ℕ → Flag
unset bits = record { clear = true; bits = bits }

unfoldable pub mount_flags : List (String × Flag)
mount_flags =
    ("acl", set (16 ∷ []))
    ∷ ("async", unset (4 ∷ []))
    ∷ ("atime", unset (10 ∷ []))
    ∷ ("bind", set (12 ∷ []))
    ∷ ("defaults", set [])
    ∷ ("dev", unset (2 ∷ []))
    ∷ ("diratime", unset (11 ∷ []))
    ∷ ("dirsync", set (7 ∷ []))
    ∷ ("exec", unset (3 ∷ []))
    ∷ ("iversion", set (23 ∷ []))
    ∷ ("lazytime", set (25 ∷ []))
    ∷ ("loud", unset (15 ∷ []))
    ∷ ("mand", set (6 ∷ []))
    ∷ ("noacl", unset (16 ∷ []))
    ∷ ("noatime", set (10 ∷ []))
    ∷ ("nodev", set (2 ∷ []))
    ∷ ("nodiratime", set (11 ∷ []))
    ∷ ("noexec", set (3 ∷ []))
    ∷ ("noiversion", unset (23 ∷ []))
    ∷ ("nolazytime", unset (25 ∷ []))
    ∷ ("nomand", unset (6 ∷ []))
    ∷ ("norelatime", unset (21 ∷ []))
    ∷ ("nostrictatime", unset (24 ∷ []))
    ∷ ("nosuid", set (1 ∷ []))
    ∷ ("rbind", set (12 ∷ 14 ∷ []))
    ∷ ("relatime", set (21 ∷ []))
    ∷ ("remount", set (5 ∷ []))
    ∷ ("ro", set (0 ∷ []))
    ∷ ("rw", unset (0 ∷ []))
    ∷ ("silent", set (15 ∷ []))
    ∷ ("strictatime", set (24 ∷ []))
    ∷ ("suid", unset (1 ∷ []))
    ∷ ("sync", set (4 ∷ []))
    ∷ []

-- MS_UNBINDABLE, MS_PRIVATE, MS_SLAVE, MS_SHARED are the bits 17 to 20, MS_REC is bit 14.
unfoldable pub propagation_flags : List (String × List ℕ)
propagation_flags =
    ("private", 18 ∷ [])
    ∷ ("shared", 20 ∷ [])
    ∷ ("slave", 19 ∷ [])
    ∷ ("unbindable", 17 ∷ [])
    ∷ ("rprivate", 18 ∷ 14 ∷ [])
    ∷ ("rshared", 20 ∷ 14 ∷ [])
    ∷ ("rslave", 19 ∷ 14 ∷ [])
    ∷ ("runbindable", 17 ∷ 14 ∷ [])
    ∷ []

-- EXT_COPYUP is bit 0.
unfoldable pub extension_flags : List (String × Flag)
extension_flags = ("tmpcopyup", set (0 ∷ [])) ∷ []

unfoldable pub lookup : {V : Type 0} → List (String × V) → String → Option V
lookup [] o = none
lookup ((name, f) ∷ table) o = if name == o then some f else lookup table o

unfoldable pub bit : Word → ℕ → Bool
bit [] i = false
bit (b ∷ w) zero = b
bit (b ∷ w) (suc i) = bit w i

unfoldable pub put_bit : Bool → ℕ → Word → Word
put_bit b zero [] = b ∷ []
put_bit b zero (c ∷ w) = b ∷ w
put_bit b (suc i) [] = false ∷ put_bit b i []
put_bit b (suc i) (c ∷ w) = c ∷ put_bit b i w

-- `flag |= bits`, or `flag &= ^bits`.
unfoldable pub put_bits : Bool → List ℕ → Word → Word
put_bits b [] w = w
put_bits b (i ∷ is) w = put_bits b is (put_bit b i w)

unfoldable pub apply_flag : Flag → Word → Word
apply_flag f w = put_bits (not f.clear) f.bits w

-- What an option stands for: a flag that is 0 counts as none.
pub data Meaning : Type 0 where
  mount_flag : Flag → Meaning
  propagation : List ℕ → Meaning
  extension : Flag → Meaning
  data_value : Meaning

abbrev pub is_zero : List ℕ → Bool
is_zero [] = true
is_zero (_ ∷ _) = false

abbrev extension_meaning : Option Flag → Meaning
extension_meaning none = data_value
extension_meaning (some f) = if is_zero f.bits then data_value else extension f

abbrev propagation_meaning : Meaning → Option (List ℕ) → Meaning
propagation_meaning other none = other
propagation_meaning other (some bits) = if is_zero bits then other else propagation bits

abbrev flag_meaning : Meaning → Option Flag → Meaning
flag_meaning other none = other
flag_meaning other (some f) = if is_zero f.bits then other else mount_flag f

unfoldable pub meaning : String → Meaning
unfolding lookup
meaning o =
    flag_meaning
      (propagation_meaning (extension_meaning (lookup extension_flags o))
        (lookup propagation_flags o))
      (lookup mount_flags o)

pub record MountOptions : Type 0 where
  pub flag : Word
  pub pgflag : List (List ℕ)
  pub data_values : List String
  pub ext_flags : Word

abbrev pub apply_meaning : String → Meaning → MountOptions → MountOptions
apply_meaning o (mount_flag f) r = record r { flag = apply_flag f r.flag }
apply_meaning o (propagation bits) r = record r { pgflag = r.pgflag ++ bits ∷ [] }
apply_meaning o (extension f) r = record r { ext_flags = apply_flag f r.ext_flags }
apply_meaning o data_value r = record r { data_values = r.data_values ++ o ∷ [] }

unfoldable pub apply_option : String → MountOptions → MountOptions
apply_option o r = apply_meaning o (meaning o) r

unfoldable pub apply_options : List String → MountOptions → MountOptions
apply_options [] r = r
apply_options (o ∷ options) r = apply_options options (apply_option o r)

abbrev pub no_options : MountOptions
no_options = record { flag = []; pgflag = []; data_values = []; ext_flags = [] }

-- The flags, the propagation flags, the data and the extension flags.
unfoldable pub parse_mount_options : List String → Word × (List (List ℕ) × (Text × Word))
parse_mount_options options =
    let r = apply_options options no_options in
    (r.flag, (r.pgflag, (join b',' (map (λ v. runes v) r.data_values), r.ext_flags)))
