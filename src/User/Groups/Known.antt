-- ===== src/User/Groups/Known.antt =====
-- Which groups are returned, and a request that is refused.
use sysbox_runc.Prelude.{
  ◌≡◌, refl, subst, ◌⊎◌, inl, inr, Bool, true, false, not, ◌||◌, Option, none, some, List, [], ◌∷◌,
  Result, ok, err, if◌then◌else◌, list_eq, nat_eq, contains, All, arith, Bool-cases, beq_self,
}
use sysbox_runc.Prelude.Int.{ℤ, int_eq}
use sysbox_runc.Prelude.Text.{Text, parse_int}
use sysbox_runc.User.Parse.{Group, Reader, parse_group_filter}
use sysbox_runc.User.Exec.{in_id_range, is_numeric, group_ids}
use sysbox_runc.User.Groups.{
  names_group, names_any, find_new_group, GroupsError, unknown, add_gid, add_group, and_then,
  add_groups, get_additional_groups,
}

-- An ID of a group of the file, or one of the range.
abbrev pub is_known : List Group → ℤ → Bool
is_known groups gid = contains (group_ids groups) gid || in_id_range gid

find_new_group_known :
    (ag : Text) (gids : List ℤ) (groups : List Group) (gid : ℤ)
    → find_new_group ag gids groups ≡ some gid
    → contains (group_ids groups) gid ≡ true
unfolding find_new_group group_ids
find_new_group_known ag gids [] gid e = cc
find_new_group_known ag gids (g ∷ groups) gid e =
    ground (arith, find_new_group_known ag gids groups gid, int_eq.beq_iff g.gid gid)

add_gid_known :
    (groups : List Group) (gid : ℤ) (gids : List ℤ)
    → is_known groups gid ≡ true
    → All (λ n. is_known groups n ≡ true) gids
    → All (λ n. is_known groups n ≡ true) (add_gid gid gids)
add_gid_known groups gid gids k h = elim (Bool-cases (contains gids gid)) [
  | inl there ↦ rw there h
  | inr new ↦ rw new (k, h)
]

add_group_known :
    (groups : List Group) (ag : Text) (gids : List ℤ) {out : List ℤ}
    → All (λ n. is_known groups n ≡ true) gids
    → add_group groups ag gids ≡ ok out
    → All (λ n. is_known groups n ≡ true) out
unfolding add_group
add_group_known groups ag gids {out} h e = go (find_new_group ag gids groups) refl e
  where
    go :
        (r : Option ℤ)
        → find_new_group ag gids groups ≡ r
        → (elim r [
          | some gid ↦ ok (add_gid gid gids)
          | none ↦
              if not (is_numeric ag)
              then err unknown
              else if not (in_id_range (parse_int ag).0)
              then err GroupsError.out_of_range
              else ok (add_gid (parse_int ag).0 gids)
        ])
          ≡ ok out
        → All (λ n. is_known groups n ≡ true) out
    go (some gid) p e =
        let same : add_gid gid gids ≡ out = cc in
        let found = find_new_group_known ag gids groups gid p in
        subst (All (λ n. is_known groups n ≡ true)) same
          (add_gid_known groups gid gids (ground arith) h)
    go none p e =
        let in_range : in_id_range (parse_int ag).0 ≡ true = ground arith in
        let same : add_gid (parse_int ag).0 gids ≡ out = ground arith in
        subst (All (λ n. is_known groups n ≡ true)) same
          (add_gid_known groups (parse_int ag).0 gids (ground arith) h)

and_then-ok :
    (r : Result GroupsError (List ℤ)) (f : List ℤ → Result GroupsError (List ℤ)) {out : List ℤ}
    → and_then r f ≡ ok out
    → (gids : List ℤ) × (r ≡ ok gids) × (f gids ≡ ok out)
and_then-ok (ok gids) f e = (gids, refl, e)
and_then-ok (err _) f e = cc

add_groups_known :
    (groups : List Group) (additional : List Text) (gids : List ℤ) {out : List ℤ}
    → All (λ n. is_known groups n ≡ true) gids
    → add_groups groups additional gids ≡ ok out
    → All (λ n. is_known groups n ≡ true) out
unfolding add_groups
add_groups_known groups [] gids {out} h e =
    let same : gids ≡ out = cc in subst (All (λ n. is_known groups n ≡ true)) same h
add_groups_known groups (ag ∷ additional) gids h e =
    let (next, first, rest) = and_then-ok (add_group groups ag gids) _ e in
    add_groups_known groups additional next (add_group_known groups ag gids h first) rest

-- The groups that the request reads: none from a nil source, else those it names.
abbrev pub read_groups : List Text → Reader → Option (List Group)
read_groups additional none = some []
read_groups additional (some group) =
    elim (parse_group_filter (some group) (names_any additional)) [
      | err _ ↦ none
      | ok groups ↦ some groups
    ]

-- Every ID that is returned is that of a group that the file has, or a number of the range.
pub get_additional_groups_known :
    (additional : List Text) (group : Reader) {groups : List Group} {out : List ℤ}
    → read_groups additional group ≡ some groups
    → get_additional_groups additional group ≡ ok out
    → All (λ gid. is_known groups gid ≡ true) out
unfolding get_additional_groups
get_additional_groups_known additional none {groups} {out} read e =
    let same : [] ≡ groups = cc in
    subst (λ gs. All (λ gid. is_known gs gid ≡ true) out) same
      (add_groups_known [] additional [] tt e)
get_additional_groups_known additional (some group) {groups} read e =
    add_groups_known groups additional [] tt (ground arith)

-- All groups that are named have one ID.
abbrev pub AllHave : Text → ℤ → List Group → Type 0
AllHave ag gid groups = All (λ g. names_group ag g ≡ true → g.gid ≡ gid) groups

find_new_group_again :
    (ag : Text) (gid : ℤ) (gids : List ℤ) (groups : List Group)
    → AllHave ag gid groups
    → contains gids gid ≡ true
    → find_new_group ag gids groups ≡ none
unfolding find_new_group
find_new_group_again ag gid gids [] h there = refl
find_new_group_again ag gid gids (g ∷ groups) h there = elim (Bool-cases (names_group ag g)) [
  | inl named ↦
      let same : g.gid ≡ gid = h.0 named in
      ground (arith, find_new_group_again ag gid gids groups h.1 there)
  | inr other ↦ ground (arith, find_new_group_again ag gid gids groups h.1 there)
]

find_new_group_fresh :
    (ag : Text) (gid : ℤ) (groups : List Group)
    → AllHave ag gid groups
    → (find_new_group ag [] groups ≡ none) ⊎ (find_new_group ag [] groups ≡ some gid)
unfolding find_new_group
find_new_group_fresh ag gid [] h = inl refl
find_new_group_fresh ag gid (g ∷ groups) h = elim (Bool-cases (names_group ag g)) [
  | inl named ↦ inr (rw (named, h.0 named) refl)
  | inr other ↦ rw other (find_new_group_fresh ag gid groups h.1)
]

add_group_unknown :
    (groups : List Group) (ag : Text) (gids : List ℤ)
    → find_new_group ag gids groups ≡ none
    → is_numeric ag ≡ false
    → add_group groups ag gids ≡ err unknown
unfolding add_group
add_group_unknown groups ag gids e n = ground arith

add_groups_again :
    (groups : List Group) (ag : Text) (gid : ℤ)
    → is_numeric ag ≡ false
    → AllHave ag gid groups
    → add_groups groups (ag ∷ ag ∷ []) [] ≡ err unknown
unfolding add_groups
add_groups_again groups ag gid n h = elim (find_new_group_fresh ag gid groups h) [
  | inl missing ↦ ground (arith, add_group_unknown groups ag [] missing n)
  | inr found ↦
      let first : add_group groups ag [] ≡ ok (gid ∷ []) = unfold add_group in ground arith in
      let again = find_new_group_again ag gid (gid ∷ []) groups h (ground (arith, beq_self gid)) in
      ground (arith, first, add_group_unknown groups ag (gid ∷ []) again n)
]

-- A group that is named twice, by a name that is no number, is refused as unknown, also where the
-- file has it, if the groups with that name have one ID.
pub get_additional_groups_again :
    (ag : Text) (gid : ℤ) (group : Reader) {groups : List Group}
    → is_numeric ag ≡ false
    → read_groups (ag ∷ ag ∷ []) group ≡ some groups
    → AllHave ag gid groups
    → get_additional_groups (ag ∷ ag ∷ []) group ≡ err unknown
unfolding get_additional_groups
get_additional_groups_again ag gid none {groups} n read h = add_groups_again [] ag gid n tt
get_additional_groups_again ag gid (some group) {groups} n read h =
    ground (arith, add_groups_again groups ag gid n h)
