-- ===== src/Devices/Device.antt =====
-- libcontainer/devices/device.go: device types, permissions and rules.
-- A Go string of permissions is the list of its runes, and a `Type` is a rune.
pub mod Sets
use Prim.Native.Nat.{bit_and, bit_or, bit_xor}
use sysbox_runc.Prelude.{
  ℕ, ◌≡◌, refl, Bool, true, false, ◌&&◌, ◌||◌, List, [], ◌∷◌, ◌++◌, if◌then◌else◌, ◌==◌, nat_eq,
  list_eq,
}
use sysbox_runc.Prelude.Int.{ℤ, pos, negsuc}

abbrev pub wildcard : ℤ
wildcard = negsuc 0

abbrev pub Permissions : Type 0
Permissions = List ℕ

abbrev pub device_read : ℕ
device_read = 1

abbrev pub device_write : ℕ
device_write = 2

abbrev pub device_mknod : ℕ
device_mknod = 4

-- The `switch` in the loop of `toSet`.
abbrev add_perm : ℕ → ℕ → ℕ
add_perm perm set =
    if perm == b'r'
    then bit_or set device_read
    else if perm == b'w'
    then bit_or set device_write
    else if perm == b'm'
    then bit_or set device_mknod
    else set

to_set_from : ℕ → Permissions → ℕ
to_set_from set [] = set
to_set_from set (perm ∷ p) = to_set_from (add_perm perm set) p

unfoldable pub to_set : Permissions → ℕ
unfolding to_set_from
to_set p = to_set_from 0 p

unfoldable pub from_set : ℕ → Permissions
from_set set =
    (if bit_and set device_read == device_read then b'r' ∷ [] else [])
    ++ (if bit_and set device_write == device_write then b'w' ∷ [] else [])
    ++ (if bit_and set device_mknod == device_mknod then b'm' ∷ [] else [])

unfoldable pub union : Permissions → Permissions → Permissions
unfolding to_set from_set
union p o = from_set (bit_or (to_set p) (to_set o))

-- `lhs &^ rhs` clears in `lhs` the bits that are set in `rhs`.
unfoldable pub difference : Permissions → Permissions → Permissions
unfolding to_set from_set
difference p o = from_set (bit_xor (to_set p) (bit_and (to_set p) (to_set o)))

unfoldable pub intersection : Permissions → Permissions → Permissions
unfolding to_set from_set
intersection p o = from_set (bit_and (to_set p) (to_set o))

unfoldable pub is_empty : Permissions → Bool
is_empty [] = true
is_empty (_ ∷ _) = false

unfoldable pub is_valid : Permissions → Bool
unfolding to_set from_set
is_valid p = p == from_set (to_set p)

-- `type Type rune`: the rune itself, so that any value can stand in a rule.
abbrev pub DeviceType : Type 0
DeviceType = ℕ

abbrev pub wildcard_device : DeviceType
wildcard_device = b'a'

abbrev pub block_device : DeviceType
block_device = b'b'

abbrev pub char_device : DeviceType
char_device = b'c'

abbrev pub fifo_device : DeviceType
fifo_device = b'p'

unfoldable pub can_mknod : DeviceType → Bool
can_mknod t = (t == block_device) || (t == char_device) || (t == fifo_device)

unfoldable pub can_cgroup : DeviceType → Bool
can_cgroup t = (t == wildcard_device) || (t == block_device) || (t == char_device)

-- `type`, `allow`
pub record Rule : Type 0 where
  pub node : DeviceType
  pub major : ℤ
  pub minor : ℤ
  pub permissions : Permissions
  pub allow : Bool
