-- ===== src/User/Exec/Origin.antt =====
-- Where the IDs of a user that a process runs as come from.
use sysbox_runc.Prelude.{
  ◌≡◌, ◌≢◌, sym, refl, subst, ◌⊎◌, inl, inr, Bool, true, false, Option, none, some, List, [], ◌∷◌,
  Result, ok, err, list_eq, nat_eq, keep, All, arith, eq_cases, ◌++◌,
}
use sysbox_runc.Prelude.Int.{ℤ, int_eq}
use sysbox_runc.Prelude.Text.{Text, parse_int, trim_space, split}
use sysbox_runc.User.Parse.{
  User, Reader, parse_lines, parse_filter, parse_passwd_filter, user_of_parts,
}
use sysbox_runc.User.Exec.{
  in_id_range, ExecUser, unreadable_users, and_group, default_user, is_numeric, is_user, entries_of,
  resolve_user, explicit_group, supplementary, resolve_group, user_part, group_part, get_exec_user,
}
use sysbox_runc.User.Exec.Asked.{
  keep-IsFirst, keep-nil, IsAskedFor, by_default, by_number, by_name, is_numeric_iff, not_empty,
  is_user-IsAskedFor, none_asked,
}

result_cases : {E A : Type 0} (r : Result E A) → ((a : A) × (r ≡ ok a)) ⊎ ((e : E) × (r ≡ err e))
result_cases (ok a) = inl (a, refl)
result_cases (err e) = inr (e, refl)

-- The entries of a passwd file; there are none without a file.
abbrev pub passwd_entries : Reader → List User
passwd_entries none = []
passwd_entries (some (lines, _)) =
    parse_lines trim_space (λ line. user_of_parts (split b':' line)) lines

entries_of-parse_filter :
    (passwd : Reader) (filter : User → Bool) {xs : List User}
    → entries_of (parse_passwd_filter passwd filter) ≡ some xs
    → keep filter (passwd_entries passwd) ≡ xs
unfolding parse_passwd_filter parse_filter entries_of
entries_of-parse_filter none filter e = cc
entries_of-parse_filter (some (lines, true)) filter e = cc
entries_of-parse_filter (some (lines, false)) filter e = cc

-- The group keeps the user's ID.
resolve_group-uid :
    (arg : Text) (group : Reader) (user : ExecUser) (name : Text) {out : ExecUser}
    → resolve_group arg group (user, name) ≡ ok out
    → out.uid ≡ user.uid
unfolding resolve_group explicit_group supplementary
resolve_group-uid arg group user name e = ground arith

-- Where the ID of the user is from, with the entries of the file.
pub data UidOrigin (arg : Text) (defaults : ExecUser) (entries : List User) : ℤ → Type 0 where
  of_entry :
      (before : List User) (u : User) (after : List User)
      → entries ≡ before ++ u ∷ after
      → All (λ v. ¬ IsAskedFor arg defaults v) before
      → IsAskedFor arg defaults u
      → UidOrigin arg defaults entries u.uid
  of_number :
      All (λ v. ¬ IsAskedFor arg defaults v) entries
      → arg ≢ []
      → (parse_int arg).1 ≡ none
      → in_id_range (parse_int arg).0 ≡ true
      → UidOrigin arg defaults entries (parse_int arg).0
  of_default :
      All (λ v. ¬ IsAskedFor arg defaults v) entries
      → arg ≡ []
      → UidOrigin arg defaults entries defaults.uid

resolve_user-Origin :
    (arg : Text) (user : ExecUser) (entries us : List User) {out : ExecUser × Text}
    → keep (is_user arg user) entries ≡ us
    → resolve_user arg user us ≡ ok out
    → UidOrigin arg user entries out.0.uid
unfolding resolve_user
resolve_user-Origin arg user entries (u ∷ us) h e =
    let same : u.uid ≡ _ = ground arith in
    let (before, after, shape, skipped, passes) = keep-IsFirst (is_user arg user) entries u us h in
    subst (UidOrigin arg user entries) same (
      of_entry before u after shape (none_asked arg user before skipped)
        (is_user-IsAskedFor arg user u passes))
resolve_user-Origin arg user entries [] {out} h e =
    let unasked = none_asked arg user entries (keep-nil (is_user arg user) entries h) in
    elim (eq_cases arg []) [
      | inl empty ↦
          let same : user.uid ≡ out.0.uid = ground arith in
          subst (UidOrigin arg user entries) same (of_default unasked empty)
      | inr given ↦
          let numeric : is_numeric arg ≡ true = ground arith in
          let in_range : in_id_range (parse_int arg).0 ≡ true = ground arith in
          let same : (parse_int arg).0 ≡ out.0.uid = ground arith in
          subst (UidOrigin arg user entries) same
            (of_number unasked (not_empty arg given) (is_numeric_iff arg numeric) in_range)
    ]

-- What a call that succeeds has gone through.
get_exec_user-inverse :
    (spec : Text) (defaults : Option ExecUser) (passwd group : Reader) {out : ExecUser}
    → get_exec_user spec defaults passwd group ≡ ok out
    → let arg = user_part spec in
      let user = default_user defaults in
      (us : List User) × (found : ExecUser × Text) × (entries_of
          (parse_passwd_filter passwd (is_user arg user))
        ≡ some us)
      × (resolve_user arg user us ≡ ok found)
      × (resolve_group (group_part spec) group found ≡ ok out)
unfolding get_exec_user
get_exec_user-inverse spec defaults passwd group {out} e =
    go (entries_of (parse_passwd_filter passwd (is_user (user_part spec) (default_user defaults))))
      refl e
  where
    go :
        (r : Option (List User))
        → entries_of (parse_passwd_filter passwd (is_user (user_part spec) (default_user defaults)))
          ≡ r
        → (elim r [
          | none ↦ err unreadable_users
          | some us ↦
              and_group
                (group_part spec)
                group
                (resolve_user (user_part spec) (default_user defaults) us)
        ])
          ≡ ok out
        → (us : List User) × (found : ExecUser × Text) × (entries_of
              (parse_passwd_filter passwd (is_user (user_part spec) (default_user defaults)))
            ≡ some us)
          × (resolve_user (user_part spec) (default_user defaults) us ≡ ok found)
          × (resolve_group (group_part spec) group found ≡ ok out)
    go none p e = cc
    go (some us) p e =
        elim (result_cases (resolve_user (user_part spec) (default_user defaults) us)) [
          | inl (found, ok_found) ↦ (us, found, p, ok_found, ground arith)
          | inr (wrong, failed) ↦ absurd (ground arith)
        ]

-- If a user is returned, its ID is that of the first entry of the passwd file that the specification
-- asks for; or no entry is asked for, and it is the number in the range that the specification gives,
-- or the default where the specification gives no user.
pub get_exec_user-UidOrigin :
    (spec : Text) (defaults : Option ExecUser) (passwd group : Reader) {out : ExecUser}
    → get_exec_user spec defaults passwd group ≡ ok out
    → UidOrigin (user_part spec) (default_user defaults) (passwd_entries passwd) out.uid
get_exec_user-UidOrigin spec defaults passwd group e =
    let (us, found, read, resolved, grouped) = get_exec_user-inverse spec defaults passwd group e in
    let (user, name) = found in
    subst (UidOrigin (user_part spec) (default_user defaults) (passwd_entries passwd))
      (sym (resolve_group-uid (group_part spec) group user name grouped))
      (resolve_user-Origin (user_part spec) (default_user defaults) (passwd_entries passwd) us
        (entries_of-parse_filter passwd (is_user (user_part spec) (default_user defaults)) read)
        resolved)

numeric_origin :
    (arg : Text) (defaults : ExecUser) (entries : List User) (id : ℤ)
    → arg ≢ []
    → (parse_int arg).1 ≡ none
    → UidOrigin arg defaults entries id
    → id ≡ (parse_int arg).0
numeric_origin arg defaults entries id given numeric (of_entry _ u _ _ _ (by_default empty same)) =
    absurd (given empty)
numeric_origin arg defaults entries id given numeric (of_entry _ u _ _ _ (by_number _ _ same)) =
    same
numeric_origin arg defaults entries id given numeric (of_entry _ u _ _ _ (by_name _ named same)) =
    absurd (named numeric)
numeric_origin arg defaults entries id given numeric (of_number _ _ _ _) = refl
numeric_origin arg defaults entries id given numeric (of_default _ empty) = absurd (given empty)

-- A user that is given as a number is never looked up as a name: if a user is returned, it has that
-- number, whatever the files hold.
pub get_exec_user_numeric :
    (spec : Text) (defaults : Option ExecUser) (passwd group : Reader) {out : ExecUser}
    → user_part spec ≢ []
    → (parse_int (user_part spec)).1 ≡ none
    → get_exec_user spec defaults passwd group ≡ ok out
    → out.uid ≡ (parse_int (user_part spec)).0
get_exec_user_numeric spec defaults passwd group {out} given numeric e =
    numeric_origin (user_part spec) (default_user defaults) (passwd_entries passwd) out.uid given
      numeric (get_exec_user-UidOrigin spec defaults passwd group e)
