-- ===== src/Prelude/Maps.antt =====
-- Go maps as association lists: a read, a write and `delete`.
use mathlib.Core.Path.{◌≡◌, refl, subst}
use mathlib.Core.Logic.{inl, inr}
use mathlib.Core.Option.{Option, none, some}
use mathlib.Core.List.{List, [], ◌∷◌}
use native.Mathlib.Omega.{arith}
use sysbox_runc.Prelude.Tests.{if◌then◌else◌, Bool-cases}
use sysbox_runc.Prelude.Equality.{Eq, ◌==◌, eq_cases, beq_self}

module _ {K V : Type 0} ⦃e : Eq K⦄ where
  unfoldable pub lookup : K → List (K × V) → Option V
  lookup k [] = none
  lookup k ((j, v) ∷ m) = if j == k then some v else lookup k m

  -- A write replaces the value of a key that is there.
  unfoldable pub put : K → V → List (K × V) → List (K × V)
  put k v [] = (k, v) ∷ []
  put k v ((j, w) ∷ m) = if j == k then (k, v) ∷ m else (j, w) ∷ put k v m

  unfoldable pub delete : K → List (K × V) → List (K × V)
  delete k [] = []
  delete k ((j, w) ∷ m) = if j == k then delete k m else (j, w) ∷ delete k m

  -- Each key stands once.
  abbrev pub IsMap : List (K × V) → Type 0
  unfolding lookup
  IsMap [] = Unit
  IsMap ((k, v) ∷ m) = (lookup k m ≡ none) × IsMap m

  pub lookup-put :
      (k j : K) (v : V) (m : List (K × V))
      → lookup j (put k v m) ≡ (if k == j then some v else lookup j m)
  unfolding lookup put
  lookup-put k j v [] = refl
  lookup-put k j v ((i, w) ∷ m) =
      ground (arith, e.beq_iff k j, e.beq_iff i k, e.beq_iff i j, lookup-put k j v m)

  pub lookup-delete :
      (k j : K) (m : List (K × V)) → lookup j (delete k m) ≡ (if k == j then none else lookup j m)
  unfolding lookup delete
  lookup-delete k j [] = ground arith
  lookup-delete k j ((i, w) ∷ m) =
      ground (arith, e.beq_iff k j, e.beq_iff i k, e.beq_iff i j, lookup-delete k j m)

  pub put-IsMap : (k : K) (v : V) (m : List (K × V)) → IsMap m → IsMap (put k v m)
  unfolding lookup put
  put-IsMap k v [] h = ground arith
  put-IsMap k v ((i, w) ∷ m) h =
      ground (arith, e.beq_iff k i, e.beq_iff i k, lookup-put k i v m, put-IsMap k v m)

  pub delete-IsMap : (k : K) (m : List (K × V)) → IsMap m → IsMap (delete k m)
  unfolding lookup delete
  delete-IsMap k [] h = ground arith
  delete-IsMap k ((i, w) ∷ m) h = ground (arith, lookup-delete k i m, delete-IsMap k m)

  -- A predicate on the entries, which a write and a `delete` preserve and a read uses.
  module _ (P : K → V → Type 0) where
    abbrev pub Entries : List (K × V) → Type 0
    Entries [] = Unit
    Entries ((k, v) ∷ m) = P k v × Entries m

    pub Entries-lookup :
        (k : K) (v : V) (m : List (K × V)) → Entries m → lookup k m ≡ some v → P k v
    unfolding lookup
    Entries-lookup k v [] all_m found = ground arith
    Entries-lookup k v ((j, w) ∷ m) all_m found = elim (eq_cases j k) [
      | inl same ↦
          let value : w ≡ v = ground (arith, e.beq_iff j k) in
          subst (λ x. P k x) value (subst (λ x. P x w) same all_m.0)
      | inr other ↦ Entries-lookup k v m all_m.1 (ground arith)
    ]

    pub Entries-put : (k : K) (v : V) (m : List (K × V)) → Entries m → P k v → Entries (put k v m)
    unfolding put
    Entries-put k v [] all_m new = (new, tt)
    Entries-put k v ((j, w) ∷ m) all_m new = elim (Bool-cases (j == k)) [
      | inl same ↦ rw same (new, all_m.1)
      | inr other ↦ rw other (all_m.0, Entries-put k v m all_m.1 new)
    ]

    pub Entries-delete : (k : K) (m : List (K × V)) → Entries m → Entries (delete k m)
    unfolding delete
    Entries-delete k [] all_m = tt
    Entries-delete k ((j, w) ∷ m) all_m = elim (Bool-cases (j == k)) [
      | inl same ↦ rw same (Entries-delete k m all_m.1)
      | inr other ↦ rw other (all_m.0, Entries-delete k m all_m.1)
    ]

    pub Entries-of_lookup :
        (m : List (K × V)) → IsMap m → ((k : K) (v : V) → lookup k m ≡ some v → P k v) → Entries m
    unfolding lookup
    Entries-of_lookup [] distinct read = tt
    Entries-of_lookup ((j, w) ∷ m) distinct read = (
      read j w (rw (beq_self j)),
      Entries-of_lookup m distinct.1 λ k v found. read k v (later k v found),
    )
      where
        later : (k : K) (v : V) → lookup k m ≡ some v → lookup k ((j, w) ∷ m) ≡ some v
        later k v found = elim (eq_cases j k) [
          | inl same ↦ absurd (clash k v same found)
          | inr other ↦ rw other found
        ]
          where
            clash : (k : K) (v : V) → j ≡ k → lookup k m ≡ some v → ⊥
            clash k v same found =
                let none_there = subst (λ x. lookup x m ≡ none) same distinct.0 in ground arith
