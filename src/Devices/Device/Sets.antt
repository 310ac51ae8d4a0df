-- ===== src/Devices/Device/Sets.antt =====
-- Permission strings as sets of accesses: what the set operations of device.go mean.
use Prim.Native.Nat.{bit_and, bit_or, bit_xor}
use mathlib.Core.Bool.{or_assoc}
use sysbox_runc.Prelude.{
  ℕ, ◌≡◌, ◌∙◌, Bool, true, false, not, ◌&&◌, ◌||◌, [], ◌∷◌, ◌==◌, nat_eq, list_eq, arith, contains,
  ◌↔◌,
}
use sysbox_runc.Devices.Device.{
  Permissions, add_perm, to_set_from, to_set, from_set, union, difference, intersection, is_empty,
  is_valid,
}

-- The accesses that a permission string grants: the specification of the bit sets.
pub record Access : Type 0 where
  pub read : Bool
  pub write : Bool
  pub mknod : Bool

abbrev pub no_access : Access
no_access = record { read = false; write = false; mknod = false }

abbrev pub join : Access → Access → Access
join a b = record {
  read = a.read || b.read;
  write = a.write || b.write;
  mknod = a.mknod || b.mknod;
}

abbrev pub meet : Access → Access → Access
meet a b = record {
  read = a.read && b.read;
  write = a.write && b.write;
  mknod = a.mknod && b.mknod;
}

abbrev pub minus : Access → Access → Access
minus a b = record {
  read = a.read && not b.read;
  write = a.write && not b.write;
  mknod = a.mknod && not b.mknod;
}

unfoldable pub access : Permissions → Access
access p = record { read = contains p b'r'; write = contains p b'w'; mknod = contains p b'm' }

abbrev pub bits : Bool → Bool → Bool → ℕ
bits false false false = 0
bits true false false = 1
bits false true false = 2
bits true true false = 3
bits false false true = 4
bits true false true = 5
bits false true true = 6
bits true true true = 7

abbrev pub encode : Access → ℕ
encode a = bits a.read a.write a.mknod

-- The canonical spelling of a set, the only one that `IsValid` accepts.
unfoldable pub spell : Access → Permissions
unfolding from_set
spell a = from_set (encode a)

add_perm-bits :
    (c : ℕ) (r w m : Bool)
    → add_perm c (bits r w m) ≡ bits (r || (c == b'r')) (w || (c == b'w')) (m || (c == b'm'))
add_perm-bits c true true true = ground arith
add_perm-bits c _ _ _ = ground arith

to_set_from-bits :
    (p : Permissions) (r w m : Bool)
    → to_set_from (bits r w m) p
      ≡ bits (r || contains p b'r') (w || contains p b'w') (m || contains p b'm')
unfolding to_set_from
to_set_from-bits [] r w m = ground arith
to_set_from-bits (c ∷ p) r w m =
    rw (add_perm-bits c r w m) (to_set_from-bits p _ _ _ ∙ simp or_assoc)

to_set-encode : (p : Permissions) → to_set p ≡ encode (access p)
unfolding to_set access
to_set-encode p = to_set_from-bits p false false false

pub access-spell : (a : Access) → access (spell a) ≡ a
unfolding spell access
access-spell a = go a.read a.write a.mknod
  where
    go : (r w m : Bool) → access (from_set (bits r w m)) ≡ record { read = r; write = w; mknod = m }
    go r w m = ground arith

pub spell-join : (p o : Permissions) → union p o ≡ spell (join (access p) (access o))
unfolding union spell
spell-join p o = rw (to_set-encode p, to_set-encode o) (go (access p) (access o))
  where
    go : (a b : Access) → from_set (bit_or (encode a) (encode b)) ≡ from_set (encode (join a b))
    go a b = ground arith

pub spell-minus : (p o : Permissions) → difference p o ≡ spell (minus (access p) (access o))
unfolding difference spell
spell-minus p o = rw (to_set-encode p, to_set-encode o) (go (access p) (access o))
  where
    go :
        (a b : Access)
        → from_set (bit_xor (encode a) (bit_and (encode a) (encode b)))
          ≡ from_set (encode (minus a b))
    go a b = ground arith

pub spell-meet : (p o : Permissions) → intersection p o ≡ spell (meet (access p) (access o))
unfolding intersection spell
spell-meet p o = rw (to_set-encode p, to_set-encode o) (go (access p) (access o))
  where
    go : (a b : Access) → from_set (bit_and (encode a) (encode b)) ≡ from_set (encode (meet a b))
    go a b = ground arith

pub access-union : (p o : Permissions) → access (union p o) ≡ join (access p) (access o)
access-union p o = rw (spell-join p o) (access-spell _)

pub access-difference : (p o : Permissions) → access (difference p o) ≡ minus (access p) (access o)
access-difference p o = rw (spell-minus p o) (access-spell _)

pub access-intersection :
    (p o : Permissions) → access (intersection p o) ≡ meet (access p) (access o)
access-intersection p o = rw (spell-meet p o) (access-spell _)

-- A permission string is valid exactly when it is the canonical spelling of its set of accesses.
pub is_valid_iff : (p : Permissions) → (is_valid p ≡ true) ↔ (p ≡ spell (access p))
unfolding is_valid spell
is_valid_iff p = rw (to_set-encode p) (list_eq.beq_iff p _)

abbrev pub grants : Access → Bool
grants a = a.read || a.write || a.mknod

-- A spelled set is empty exactly when it grants nothing.
pub is_empty-spell : (a : Access) → is_empty (spell a) ≡ not (grants a)
unfolding spell is_empty
is_empty-spell a = go a.read a.write a.mknod
  where
    go : (r w m : Bool) → is_empty (from_set (bits r w m)) ≡ not (r || w || m)
    go r w m = ground arith
