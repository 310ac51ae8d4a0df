-- ===== src/Specconv/MountOptions/Effect.antt =====
-- What the options of a mount come to.
use sysbox_runc.Prelude.{
  ℕ, zero, suc, ◌≡◌, ◌∙◌, refl, ap, sym, arith, Bool, true, false, not, Option, none, some, List,
  [], ◌∷◌, ◌++◌, String, if◌then◌else◌, ◌==◌, nat_eq, string_eq, keep, contains, All, map, ◌≢◌,
}
use mathlib.Core.List.{append-nil, append_assoc}
use sysbox_runc.Prelude.Text.{runes, split, join, split-join}
use sysbox_runc.Specconv.MountOptions.{
  Word, Meaning, apply_meaning, mount_flag, propagation, extension, data_value, meaning, bit,
  put_bit, put_bits, apply_flag, MountOptions, apply_option, apply_options, no_options,
  parse_mount_options,
}

-- What an option says of one bit of the flags, if it says anything.
abbrev says_of : ℕ → Meaning → Option Bool
says_of i (mount_flag f) = if contains f.bits i then some (not f.clear) else none
says_of i (propagation bits) = none
says_of i (extension f) = none
says_of i data_value = none

unfoldable pub says : ℕ → String → Option Bool
says i o = says_of i (meaning o)

abbrev later : Bool → Option Bool → Bool
later b none = b
later b (some c) = c

-- What the last option that says anything of a bit says of it; no flag is set at first.
unfoldable pub last_word : ℕ → Bool → List String → Bool
last_word i b [] = b
last_word i b (o ∷ options) = last_word i (later b (says i o)) options

bit-put_bit :
    (b : Bool) (i j : ℕ) (w : Word) → bit (put_bit b i w) j ≡ (if i == j then b else bit w j)
unfolding bit put_bit
bit-put_bit b zero zero [] = ground arith
bit-put_bit b zero (suc j) [] = ground arith
bit-put_bit b zero zero (c ∷ w) = ground arith
bit-put_bit b zero (suc j) (c ∷ w) = ground arith
bit-put_bit b (suc i) zero [] = ground arith
bit-put_bit b (suc i) (suc j) [] = ground (arith, bit-put_bit b i j [])
bit-put_bit b (suc i) zero (c ∷ w) = ground arith
bit-put_bit b (suc i) (suc j) (c ∷ w) = ground (arith, bit-put_bit b i j w)

bit-put_bits :
    (b : Bool) (is : List ℕ) (j : ℕ) (w : Word)
    → bit (put_bits b is w) j ≡ (if contains is j then b else bit w j)
unfolding put_bits
bit-put_bits b [] j w = refl
bit-put_bits b (i ∷ is) j w =
    ground (arith, bit-put_bits b is j (put_bit b i w), bit-put_bit b i j w)

-- One option changes a bit as it says.
bit-apply_meaning :
    (o : String) (what : Meaning) (r : MountOptions) (i : ℕ)
    → bit (apply_meaning o what r).flag i ≡ later (bit r.flag i) (says_of i what)
unfolding apply_flag
bit-apply_meaning o (mount_flag f) r i = ground (arith, bit-put_bits (not f.clear) f.bits i r.flag)
bit-apply_meaning o (propagation bits) r i = refl
bit-apply_meaning o (extension f) r i = refl
bit-apply_meaning o data_value r i = refl

bit-apply_options :
    (options : List String) (r : MountOptions) (i : ℕ)
    → bit (apply_options options r).flag i ≡ last_word i (bit r.flag i) options
unfolding apply_options last_word apply_option says
bit-apply_options [] r i = refl
bit-apply_options (o ∷ options) r i =
    bit-apply_options options (apply_option o r) i
    ∙ ap (λ b. last_word i b options) (bit-apply_meaning o (meaning o) r i)

-- A bit of the flags is what the last option that sets or clears it makes of it, and clear if none does.
pub parse_mount_options_flag :
    (options : List String) (i : ℕ)
    → bit (parse_mount_options options).0 i ≡ last_word i false options
unfolding parse_mount_options bit
parse_mount_options_flag options i = bit-apply_options options no_options i

abbrev is_data_value : Meaning → Bool
is_data_value data_value = true
is_data_value _ = false

-- An option that is in no table.
unfoldable pub is_data : String → Bool
is_data o = is_data_value (meaning o)

data-apply_meaning :
    (o : String) (what : Meaning) (r : MountOptions)
    → (apply_meaning o what r).data_values
      ≡ r.data_values ++ (if is_data_value what then o ∷ [] else [])
data-apply_meaning o (mount_flag f) r = sym (append-nil r.data_values)
data-apply_meaning o (propagation bits) r = sym (append-nil r.data_values)
data-apply_meaning o (extension f) r = sym (append-nil r.data_values)
data-apply_meaning o data_value r = refl

kept_step :
    (b : Bool) (xs : List String) (o : String) (rest : List String)
    → (xs ++ (if b then o ∷ [] else [])) ++ rest ≡ xs ++ (if b then o ∷ rest else rest)
kept_step true xs o rest = append_assoc xs (o ∷ []) rest
kept_step false xs o rest = ap (λ ys. ys ++ rest) (append-nil xs)

split_names :
    (names : List String)
    → All (λ o. contains (runes o) b',' ≡ false) names
    → names ≢ []
    → split b',' (join b',' (map (λ o. runes o) names)) ≡ map (λ o. runes o) names
split_names [] plain some_data = absurd (some_data refl)
split_names (o ∷ names) plain some_data =
    split-join b',' (runes o) (map (λ v. runes v) names) (plain.0, plain_texts names plain.1)
  where
    plain_texts :
        (vs : List String)
        → All (λ v. contains (runes v) b',' ≡ false) vs
        → All (λ p. contains p b',' ≡ false) (map (λ v. runes v) vs)
    plain_texts [] h = tt
    plain_texts (v ∷ vs) h = (h.0, plain_texts vs h.1)

data-apply_options :
    (options : List String) (r : MountOptions)
    → (apply_options options r).data_values ≡ r.data_values ++ keep is_data options
unfolding apply_options apply_option is_data
data-apply_options [] r = sym (append-nil r.data_values)
data-apply_options (o ∷ options) r =
    data-apply_options options (apply_meaning o (meaning o) r)
    ∙ ap (λ xs. xs ++ keep is_data options) (data-apply_meaning o (meaning o) r)
    ∙ kept_step (is_data_value (meaning o)) r.data_values o (keep is_data options)

-- If the options that are in no table hold no comma, and there are some, the data splits into them, in
-- their order.
pub parse_mount_options_data :
    (options : List String)
    → All (λ o. contains (runes o) b',' ≡ false) (keep is_data options)
    → keep is_data options ≢ []
    → split b',' (parse_mount_options options).1.1.0 ≡ map (λ o. runes o) (keep is_data options)
unfolding parse_mount_options
parse_mount_options_data options plain some_data =
    ap (λ names. split b',' (join b',' (map (λ o. runes o) names)))
      (data-apply_options options no_options)
    ∙ split_names (keep is_data options) plain some_data
