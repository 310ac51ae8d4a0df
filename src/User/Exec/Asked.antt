-- ===== src/User/Exec/Asked.antt =====
-- The entry of a passwd file that a specification asks for.
use sysbox_runc.Prelude.{
  ◌≡◌, ◌≢◌, sym, refl, subst, inl, inr, Bool, true, false, none, List, [], ◌∷◌, list_eq, nat_eq,
  keep, All, arith, Bool-cases, eq_cases, Eq, ◌==◌, ◌∙◌, ◌++◌, ap, All-map,
}
use sysbox_runc.Prelude.Int.{int_eq}
use sysbox_runc.Prelude.Text.{Text, parse_int}
use sysbox_runc.User.Parse.{User}
use sysbox_runc.User.Exec.{ExecUser, is_numeric, is_user}

-- What a filter leaves begins with the first element that passes.
abbrev pub IsFirst : {A : Type 0} → (A → Bool) → List A → A → Type 0
IsFirst {A} p xs x =
    (before : List A) × (after : List A) × (xs ≡ before ++ x ∷ after)
    × All (λ y. p y ≡ false) before
    × (p x ≡ true)

pub keep-IsFirst :
    {A : Type 0} (p : A → Bool) (xs : List A) (x : A) (kept : List A)
    → keep p xs ≡ x ∷ kept
    → IsFirst p xs x
keep-IsFirst p [] x kept e = cc
keep-IsFirst p (y ∷ ys) x kept e = elim (Bool-cases (p y)) [
  | inl passes ↦
      let both : y ∷ keep p ys ≡ x ∷ kept = rw passes at e in
      let same : y ≡ x = cc in
      ([], ys, ap (λ z. z ∷ ys) same, tt, subst (λ z. p z ≡ true) same passes)
  | inr fails ↦
      let later : keep p ys ≡ x ∷ kept = rw fails at e in
      let (before, after, shape, skipped, passes) = keep-IsFirst p ys x kept later in
      (y ∷ before, after, ap (λ l. y ∷ l) shape, (fails, skipped), passes)
]

pub keep-nil :
    {A : Type 0} (p : A → Bool) (xs : List A) → keep p xs ≡ [] → All (λ y. p y ≡ false) xs
keep-nil p [] e = tt
keep-nil p (y ∷ ys) e = elim (Bool-cases (p y)) [
  | inl passes ↦ let clash : y ∷ keep p ys ≡ [] = rw passes at e in cc
  | inr fails ↦ let later : keep p ys ≡ [] = rw fails at e in (fails, keep-nil p ys later)
]

-- Whether an entry is the one that an argument asks for: by the default ID without an argument, by
-- its ID if the argument is a number, and by its name if not.
pub data IsAskedFor (arg : Text) (defaults : ExecUser) (u : User) : Type 0 where
  by_default : arg ≡ [] → u.uid ≡ defaults.uid → IsAskedFor arg defaults u
  by_number :
      arg ≢ [] → (parse_int arg).1 ≡ none → u.uid ≡ (parse_int arg).0 → IsAskedFor arg defaults u
  by_name : arg ≢ [] → (parse_int arg).1 ≢ none → u.name ≡ arg → IsAskedFor arg defaults u

pub is_numeric_iff : (arg : Text) → is_numeric arg ≡ true → (parse_int arg).1 ≡ none
is_numeric_iff arg h = ground arith

not_numeric : (arg : Text) → is_numeric arg ≡ false → (parse_int arg).1 ≢ none
not_numeric arg h e = ground arith

pub not_empty : (arg : Text) → (arg == []) ≡ false → arg ≢ []
not_empty [] h e = cc
not_empty (c ∷ cs) h e = ground arith

is_empty-false : (arg : Text) → arg ≢ [] → (arg == []) ≡ false
is_empty-false [] given = absurd (given refl)
is_empty-false (c ∷ cs) given = refl

pub is_user-IsAskedFor :
    (arg : Text) (defaults : ExecUser) (u : User)
    → is_user arg defaults u ≡ true
    → IsAskedFor arg defaults u
unfolding is_user
is_user-IsAskedFor arg defaults u h = elim (eq_cases arg []) [
  | inl empty ↦
      by_default empty
        (ground (arith, empty, int_eq.beq_iff u.uid defaults.uid, list_eq.beq_iff arg []))
  | inr given ↦ elim (Bool-cases (is_numeric arg)) [
    | inl numeric ↦
        let same : ((parse_int arg).0 == u.uid) ≡ true = rw (given, numeric, is_user) at h in
        by_number (not_empty arg given) (is_numeric_iff arg numeric)
          (sym ((int_eq.beq_iff (parse_int arg).0 u.uid).0 same))
    | inr named ↦
        let same : (u.name == arg) ≡ true = rw (given, named, is_user) at h in
        by_name (not_empty arg given) (not_numeric arg named) ((list_eq.beq_iff u.name arg).0 same)
  ]
]

is_user-none :
    (arg : Text) (defaults : ExecUser) (u : User)
    → is_user arg defaults u ≡ false
    → ¬ IsAskedFor arg defaults u
unfolding is_user
is_user-none arg defaults u h (by_default empty same) =
    ground (arith, int_eq.beq_iff u.uid defaults.uid, list_eq.beq_iff arg [])
is_user-none arg defaults u h (by_number given numeric same) =
    let number : is_numeric arg ≡ true = ground arith in
    let other : ((parse_int arg).0 == u.uid) ≡ false =
      rw (is_empty-false arg given, number, is_user) at h in
    ground (arith, int_eq.beq_iff (parse_int arg).0 u.uid)
is_user-none arg defaults u h (by_name given named same) =
    let no_number : is_numeric arg ≡ false = ground arith in
    let other : (u.name == arg) ≡ false = rw (is_empty-false arg given, no_number, is_user) at h in
    let text_eq : Eq Text = list_eq in
    let found : (u.name == arg) ≡ true = (text_eq.beq_iff u.name arg).1 same in
    let clash : true ≡ false = sym found ∙ other in cc

pub none_asked :
    (arg : Text) (defaults : ExecUser) (us : List User)
    → All (λ u. is_user arg defaults u ≡ false) us
    → All (λ u. ¬ IsAskedFor arg defaults u) us
none_asked arg defaults us h = All-map us (is_user-none arg defaults) h
