-- ===== src/Start/Init/Counts.antt =====
-- How many of the calls of an init process pass a test.
use sysbox_runc.Prelude.{
  ℕ, ◌≡◌, ◌∙◌, sym, ap, ◌+◌, arith, Bool, true, false, none, some, [], ◌∷◌, if◌then◌else◌,
  string_eq, Option-cases, inl, inr,
}
use sysbox_runc.Start.Init.{
  InitAction, load_filter, load_notify_filter, Log, Step, then_do, nothing, if_so,
}

abbrev pub is_filter : InitAction → Bool
is_filter load_filter = true
is_filter _ = false

abbrev pub is_notify : InitAction → Bool
is_notify load_notify_filter = true
is_notify _ = false

abbrev pub one_if : Bool → ℕ
one_if b = if b then 1 else 0

-- The calls that pass a test.
unfoldable pub times : (InitAction → Bool) → Log → ℕ
times p [] = 0
times p ((a, e) ∷ log) = one_if (p a) + times p log

module _ (p : InitAction → Bool) where
  -- If a step succeeds, it has made so many of the calls.
  pub record Adds (m : Step) (n : ℕ) : Type 0 where
    pub adds : (log : Log) → (m log).0 ≡ none → times p (m log).1 ≡ n + times p log

  pub then-Adds : (m k : Step) (a b : ℕ) → Adds m a → Adds k b → Adds (then_do m k) (a + b)
  then-Adds m k a b first second = record {
    adds = λ log fine. elim (Option-cases (m log).0) [
      | inl none_m ↦
          let run : then_do m k log ≡ k (m log).1 = rw (then_do, none_m) in
          ap (λ o. times p o.1) run
          ∙ omega
              (arith, second.adds (m log).1 (sym (ap (λ o. o.0) run) ∙ fine), first.adds log none_m)
      | inr (e, failed) ↦ let clash : some e ≡ none = rw (then_do, failed) at fine in ground arith
    ];
  }

  pub if_so-Adds : (b : Bool) (m : Step) (n : ℕ) → Adds m n → Adds (if_so b m) (if b then n else 0)
  if_so-Adds true m n step = step
  if_so-Adds false m n step = record { adds = λ log fine. omega arith }

  pub nothing-Adds : Adds nothing 0
  nothing-Adds = record { adds = λ log fine. omega arith }

  pub cast-Adds : (m : Step) (a b : ℕ) → a ≡ b → Adds m a → Adds m b
  cast-Adds m a b same step = record {
    adds = λ log fine. step.adds log fine ∙ ap (λ n. n + times p log) same;
  }

  pub optional-Adds : (b : Bool) (m : Step) → Adds m 0 → Adds (if_so b m) 0
  optional-Adds b m step = cast-Adds _ (if b then 0 else 0) 0 (ground arith) (if_so-Adds b m 0 step)
