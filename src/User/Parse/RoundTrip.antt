-- ===== src/User/Parse/RoundTrip.antt =====
-- Entries of a passwd file, printed and read back.
use sysbox_runc.Prelude.{
  ℕ, ◌≡◌, ◌∙◌, refl, ap, ap₂, ◌≤◌, true, false, some, List, [], ◌∷◌, ◌++◌, ok, ◌==◌, list_eq,
  nat_eq, contains, keep, All, arith, map,
}
use sysbox_runc.Prelude.Int.{pos}
use sysbox_runc.Prelude.Decimal.{format_nat, is_digit, format_nat-is_digit}
use sysbox_runc.Prelude.Text.{Text, split, join, split-join, trim_space, max_int64}
use sysbox_runc.Prelude.Text.Numbers.{parse_int-format_nat}
use sysbox_runc.User.Parse.{User, user_of_parts, parse_lines, parse_filter, parse_passwd_filter}

-- A passwd entry with IDs that are not negative, and its line.
pub record Entry : Type 0 where
  pub name : Text
  pub pass : Text
  pub uid : ℕ
  pub gid : ℕ
  pub gecos : Text
  pub home : Text
  pub shell : Text

abbrev pub user_of : Entry → User
user_of e = record {
  name = e.name;
  pass = e.pass;
  uid = pos e.uid;
  gid = pos e.gid;
  gecos = e.gecos;
  home = e.home;
  shell = e.shell;
}

abbrev pub entry_parts : Entry → List Text
entry_parts e =
    e.name ∷ e.pass ∷ format_nat e.uid ∷ format_nat e.gid ∷ e.gecos ∷ e.home ∷ e.shell ∷ []

unfoldable pub print_entry : Entry → Text
print_entry e = join b':' (entry_parts e)

-- No part holds a colon, the IDs are of 63 bits, and the line neither begins nor ends with a space.
pub record IsEntry (e : Entry) : Type 0 where
  pub no_colon :
      All (λ p. contains p b':' ≡ false) (e.name ∷ e.pass ∷ e.gecos ∷ e.home ∷ e.shell ∷ [])
  pub uid_fits : e.uid ≤ max_int64
  pub gid_fits : e.gid ≤ max_int64
  pub trimmed : trim_space (print_entry e) ≡ print_entry e

digits_no_colon : (cs : Text) → All (λ c. is_digit c ≡ true) cs → contains cs b':' ≡ false
unfolding is_digit
digits_no_colon [] h = refl
digits_no_colon (c ∷ cs) h = ground (arith, digits_no_colon cs h.1)

entry_parts-no_colon : (e : Entry) → IsEntry e → All (λ p. contains p b':' ≡ false) (entry_parts e)
entry_parts-no_colon e v =
    let h = v.no_colon in
    (
      h.0,
      (
        h.1.0,
        (
          digits_no_colon (format_nat e.uid) (format_nat-is_digit e.uid),
          (digits_no_colon (format_nat e.gid) (format_nat-is_digit e.gid), h.1.1),
        ),
      ),
    )

user_of_parts-entry_parts : (e : Entry) → IsEntry e → user_of_parts (entry_parts e) ≡ user_of e
unfolding user_of_parts
user_of_parts-entry_parts e v = λ i. record {
  name = e.name;
  pass = e.pass;
  uid = (parse_int-format_nat e.uid v.uid_fits i).0;
  gid = (parse_int-format_nat e.gid v.gid_fits i).0;
  gecos = e.gecos;
  home = e.home;
  shell = e.shell;
}

print_entry-ne-nil : (e : Entry) → (print_entry e == []) ≡ false
unfolding print_entry join
print_entry-ne-nil e = go e.name
  where
    go :
        (name : Text)
        → ((name
              ++ b':'
                ∷ join b':' (
                    e.pass ∷ format_nat e.uid ∷ format_nat e.gid ∷ e.gecos ∷ e.home ∷ e.shell ∷ []))
            == [])
          ≡ false
    go [] = refl
    go (c ∷ cs) = refl

read_entry : (e : Entry) → IsEntry e → user_of_parts (split b':' (print_entry e)) ≡ user_of e
unfolding print_entry
read_entry e v =
    rw (split-join b':' e.name _ (entry_parts-no_colon e v)) (user_of_parts-entry_parts e v)

parse_lines-print_entry :
    (es : List Entry)
    → All IsEntry es
    → parse_lines trim_space (λ line. user_of_parts (split b':' line)) (map print_entry es)
      ≡ map user_of es
unfolding parse_lines
parse_lines-print_entry [] h = refl
parse_lines-print_entry (e ∷ es) h =
    rw (h.0.trimmed, print_entry-ne-nil e)
      (ap₂ (◌∷◌) (read_entry e h.0) (parse_lines-print_entry es h.1))

keep_all : {A : Type 0} (xs : List A) → keep (λ x. true) xs ≡ xs
keep_all [] = refl
keep_all (x ∷ xs) = ap (◌∷◌ x) (keep_all xs)

-- The entries of a passwd file that is printed from valid ones are read back, in their order.
pub parse_passwd-print_entry :
    (es : List Entry)
    → All IsEntry es
    → parse_passwd_filter (some (map print_entry es, false)) (λ u. true) ≡ ok (map user_of es)
unfolding parse_passwd_filter parse_filter
parse_passwd-print_entry es h = ap ok (
    keep_all (parse_lines trim_space (λ line. user_of_parts (split b':' line)) (map print_entry es))
    ∙ parse_lines-print_entry es h)
