-- ===== src/Devices/Lines/RoundTrip.antt =====
-- The text of device rules, printed and read back.
use sysbox_runc.Prelude.{
  ℕ, ◌≡◌, ◌≢◌, refl, Bool, true, false, some, List, [], ◌∷◌, ◌++◌, ◌==◌, nat_eq, list_eq, ok, ◌^◌,
  ◌<◌, arith, All,
}
use sysbox_runc.Prelude.Int.{ℤ, pos, negsuc, int_eq}
use sysbox_runc.Prelude.Decimal.{
  is_digit, format_nat, value_of-format_nat, format_nat-is_digit, format_nat-ne-nil,
}
use sysbox_runc.Devices.Device.{Permissions, from_set, Rule, is_valid, is_empty}
use sysbox_runc.Devices.Device.Sets.{Access, is_valid_iff, spell, access}
use sysbox_runc.Devices.Emulator.Views.{is_node}
use sysbox_runc.Devices.Emulator.Validity.{device_rule}
use sysbox_runc.Devices.Lines.{
  format_int, format_device, cgroup_string, is_space, is_perm, span, skip_spaces, match_number,
  match_colon, match_perms, match_rest, match_line, parse_number, parse_groups, parse_line,
  LineError, bad_major, bad_minor,
}

-- A device number of a rule: the wildcard or a 32-bit number.
abbrev pub IsNumber : ℤ → Type 0
IsNumber (pos n) = n < 2 ^ 32
IsNumber (negsuc n) = n ≡ 0

span-All : (p : ℕ → Bool) (cs : List ℕ) → All (λ c. p c ≡ true) cs → span p cs ≡ (cs, [])
unfolding span
span-All p [] h = refl
span-All p (c ∷ cs) h = ground (arith, span-All p cs)

span_stop :
    (p : ℕ → Bool) (cs : List ℕ) (d : ℕ) (rest : List ℕ)
    → All (λ c. p c ≡ true) cs
    → p d ≡ false
    → span p (cs ++ (d ∷ rest)) ≡ (cs, d ∷ rest)
unfolding span
span_stop p [] d rest h stop = ground arith
span_stop p (c ∷ cs) d rest h stop = ground (arith, span_stop p cs d rest)

-- A number is read up to the rune after it.
match_number-digits :
    (cs : List ℕ) (d : ℕ) (rest : List ℕ)
    → All (λ c. is_digit c ≡ true) cs
    → cs ≢ []
    → is_digit d ≡ false
    → match_number (cs ++ (d ∷ rest)) ≡ some (cs, d ∷ rest)
unfolding match_number
match_number-digits [] d rest h ne stop = absurd (ne refl)
match_number-digits (c ∷ cs) d rest h ne stop = ground (arith, span_stop is_digit cs d rest)

match_number-format_device :
    (n : ℤ) (d : ℕ) (rest : List ℕ)
    → IsNumber n
    → is_digit d ≡ false
    → match_number (format_device n ++ (d ∷ rest)) ≡ some (format_device n, d ∷ rest)
unfolding format_device format_int
match_number-format_device (pos n) d rest h stop =
    match_number-digits (format_nat n) d rest (format_nat-is_digit n) (format_nat-ne-nil n) stop
match_number-format_device (negsuc n) d rest h stop = rw h (unfold match_number is_digit in refl)

not_star : (cs : List ℕ) → All (λ c. is_digit c ≡ true) cs → (cs == b'*' ∷ []) ≡ false
unfolding is_digit
not_star [] h = refl
not_star (c ∷ cs) h = ground arith

parse_number-format_device :
    (e : LineError) (n : ℤ) → IsNumber n → parse_number e (format_device n) ≡ ok n
unfolding format_device format_int parse_number
parse_number-format_device e (pos n) h =
    ground (arith, not_star (format_nat n) (format_nat-is_digit n), value_of-format_nat n)
parse_number-format_device e (negsuc n) h = rw h

skip_spaces-stop :
    (c : ℕ) (cs : List ℕ) → is_space c ≡ false → skip_spaces (b' ' ∷ c ∷ cs) ≡ some (c ∷ cs)
unfolding skip_spaces span is_space
skip_spaces-stop c cs h = ground arith

skip_spaces-digits :
    (cs rest : List ℕ)
    → All (λ c. is_digit c ≡ true) cs
    → cs ≢ []
    → skip_spaces (b' ' ∷ (cs ++ rest)) ≡ some (cs ++ rest)
skip_spaces-digits [] rest h ne = absurd (ne refl)
skip_spaces-digits (c ∷ cs) rest h ne =
    let digit = h.0 in skip_spaces-stop c (cs ++ rest) (unfold is_space is_digit in ground arith)

skip_spaces-format_device :
    (n : ℤ) (rest : List ℕ)
    → IsNumber n
    → skip_spaces (b' ' ∷ (format_device n ++ rest)) ≡ some (format_device n ++ rest)
unfolding format_device format_int
skip_spaces-format_device (pos n) rest h =
    skip_spaces-digits (format_nat n) rest (format_nat-is_digit n) (format_nat-ne-nil n)
skip_spaces-format_device (negsuc n) rest h = rw h (unfold skip_spaces span is_space in refl)

spell-is_perm : (a : Access) → All (λ c. is_perm c ≡ true) (spell a)
unfolding spell from_set is_perm
spell-is_perm a = ground arith

perms_read :
    (p : Permissions)
    → All (λ c. is_perm c ≡ true) p
    → is_empty p ≡ false
    → (skip_spaces (b' ' ∷ p) ≡ some p) × (match_perms p ≡ some p)
unfolding match_perms is_empty
perms_read [] h ne = cc
perms_read (c ∷ cs) h ne = (
  skip_spaces-stop c cs (unfold is_space is_perm in ground arith),
  rw (span-All is_perm (c ∷ cs) h, match_perms),
)

perms_of_is_valid : (p : Permissions) → is_valid p ≡ true → All (λ c. is_perm c ≡ true) p
perms_of_is_valid p v = rw ((is_valid_iff p).0 v) (spell-is_perm (access p))

match_line-cgroup_string :
    (rule : Rule)
    → is_node rule.node ≡ true
    → IsNumber rule.major
    → IsNumber rule.minor
    → All (λ c. is_perm c ≡ true) rule.permissions
    → is_empty rule.permissions ≡ false
    → match_line (cgroup_string rule)
      ≡ some (record {
        node = rule.node;
        major = format_device rule.major;
        minor = format_device rule.minor;
        perms = rule.permissions;
      })
unfolding match_line cgroup_string match_rest
match_line-cgroup_string rule n hma hmi all ne =
    let last = b' ' ∷ rule.permissions in
    let tail = b':' ∷ (format_device rule.minor ++ last) in
    let colon : match_colon tail ≡ some (format_device rule.minor ++ last) =
      unfold match_colon in refl in
    ground (
      arith,
      skip_spaces-format_device rule.major tail hma,
      match_number-format_device rule.major b':' (format_device rule.minor ++ last) hma
          (unfold is_digit in refl),
      colon,
      match_number-format_device rule.minor b' ' rule.permissions hmi (unfold is_digit in refl),
      perms_read rule.permissions all ne,
    )

-- The line printed for a block or character device, with numbers of 32 bits or wildcards and with
-- permissions in canonical spelling that are not empty, is read back as the same rule.
pub parse_line-cgroup_string :
    (rule : Rule)
    → is_node rule.node ≡ true
    → IsNumber rule.major
    → IsNumber rule.minor
    → is_valid rule.permissions ≡ true
    → is_empty rule.permissions ≡ false
    → parse_line (cgroup_string rule) ≡ ok (some (device_rule rule))
unfolding parse_line parse_groups
parse_line-cgroup_string rule n hma hmi v ne = ground (
  arith,
  match_line-cgroup_string rule n hma hmi (perms_of_is_valid rule.permissions v) ne,
  parse_number-format_device bad_major rule.major hma,
  parse_number-format_device bad_minor rule.minor hmi,
)
