-- ===== src/Prelude/Results.antt =====
-- A value or an error, for Go's `(value, error)` results, with `do` blocks.
use mathlib.Core.Path.{◌≡◌, refl, ap}
use native.Mathlib.Omega.{arith}

pub data Result (E A : Type 0) : Type 0 where
  ok : A → Result E A
  err : E → Result E A

module _ {E A B : Type 0} where
  infixl 5 ◌>>=◌ ◌>>◌
  abbrev pub ◌>>=◌ : Result E A → (A → Result E B) → Result E B
  ok a >>= f = f a
  err e >>= f = err e

  abbrev pub ◌>>◌ : Result E A → Result E B → Result E B
  m >> k = m >>= λ _. k

  -- A chain that gives a value has given one before.
  pub value_of :
      (m : Result E A) (f : A → Result E B) (b : B)
      → (m >>= f) ≡ ok b
      → (a : A) × ((m ≡ ok a) × (f a ≡ ok b))
  value_of (ok a) f b h = (a, (refl, h))
  value_of (err e) f b h = ground arith

pub ok_inj : {E A : Type 0} {x y : A} → ◌≡◌ {A = Result E A} (ok x) (ok y) → x ≡ y
ok_inj {x = x} e = ap (λ r. elim r [ ok v ↦ v | err _ ↦ x ]) e
