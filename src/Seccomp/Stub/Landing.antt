-- ===== src/Seccomp/Stub/Landing.antt =====
-- The jump table: each of its distances, from the end of the program, lands at the section of its
-- native architecture, and the distance zero at the filter.
use mathlib.Core.List.{append-nil, append_assoc}
use sysbox_runc.Prelude.{
  ℕ, ◌≡◌, ◌∙◌, refl, sym, ap, subst, ◌-◌, ◌<◌, arith, Bool, false, Option, none, some, List, [],
  ◌∷◌, ◌++◌, length, length-append, if◌then◌else◌, Bool-cases, inl, inr, ◌⊎◌, ok, ◌==◌, nat_eq,
  value_of, ok_inj, lookup, lookup-put, IsMap, eq_cases, Option-cases,
}
use sysbox_runc.Seccomp.Bpf.{Instruction, ret_constant, SeccompData, Machine}
use sysbox_runc.Seccomp.LastSyscalls.{MaxSyscalls, LastSyscallMap}
use sysbox_runc.Seccomp.Stub.{
  ret_errno_enosys, section, Tail, prepend_section, add_sections, or_zero,
}
use sysbox_runc.Seccomp.Stub.Verdict.{is_beyond}
use sysbox_runc.Seccomp.Stub.Dispatch.{section_lem, section-none}

abbrev enosys : List Instruction
enosys = ret_constant ret_errno_enosys ∷ []

module _ (machine : Machine) (d : SeccompData) (filter : List Instruction) (result : Option ℕ)
    (room : 0 < length filter) (entry : (a : ℕ) → machine.exec d filter a ≡ result) where
  abbrev pub outcome : Bool → Option ℕ
  outcome b = if b then some ret_errno_enosys else result

  -- The part of a program of a length from its end decides in a way.
  abbrev pub Lands : List Instruction → ℕ → Bool → Type 0
  Lands program n b =
      (before : List Instruction) × ((after : List Instruction) × ((program ≡ before ++ after)
          × ((length after ≡ n) × ((a : ℕ) → machine.exec d (after ++ filter) a ≡ outcome b))))

  pub Lands-append :
      (s program : List Instruction) (n : ℕ) (b : Bool)
      → Lands program n b
      → Lands (s ++ program) n b
  Lands-append s program n b (before, (after, (same, (size, run)))) = (
    s ++ before,
    (after, (ap (λ p. s ++ p) same ∙ sym (append_assoc s before after), (size, run))),
  )

  pub Lands-zero : (program : List Instruction) → Lands program 0 false
  Lands-zero program = (program, ([], (sym (append-nil program), (refl, entry))))

  pub record IsRouted (t : Tail) (v : ℕ → Bool) : Type 0 where
    pub front : List Instruction
    pub ends : t.program ≡ front ++ enosys
    pub lands : (j : ℕ) → Lands t.program (or_zero (lookup j t.table)) (v j)

  IsRouted-ext : (t : Tail) (v w : ℕ → Bool) → ((j : ℕ) → v j ≡ w j) → IsRouted t v → IsRouted t w
  IsRouted-ext t v w same r = record {
    front = r.front;
    ends = r.ends;
    lands = λ j. subst (Lands t.program (or_zero (lookup j t.table))) (same j) (r.lands j);
  }

  -- Once a section is prepended, its architecture lands there.
  abbrev after_section : ℕ → MaxSyscalls → (ℕ → Bool) → ℕ → Bool
  after_section native_arch calls v j =
      if native_arch == j then is_beyond native_arch calls d.nr else v j

  prepend_section-IsRouted :
      (native_arch : ℕ) (calls : MaxSyscalls) (s : List Instruction) (t : Tail) (v : ℕ → Bool)
      → section (length t.program - 1) native_arch calls ≡ ok (some s)
      → IsRouted t v
      → IsRouted (prepend_section native_arch (some s) t) (after_section native_arch calls v)
  unfolding prepend_section
  prepend_section-IsRouted native_arch calls s t v built r = record {
    front = s ++ r.front;
    ends = ap (λ p. s ++ p) r.ends ∙ sym (append_assoc s r.front enosys);
    lands = λ j. elim (Bool-cases (native_arch == j)) [
      | inl here ↦
          rw (lookup-put native_arch j (length (s ++ t.program)) t.table, here)
            ([], (s ++ t.program, (refl, (refl, λ a. run a))))
      | inr elsewhere ↦
          rw (lookup-put native_arch j (length (s ++ t.program)) t.table, elsewhere)
            (Lands-append s t.program (or_zero (lookup j t.table)) (v j) (r.lands j))
    ];
  }
    where
      at_front : section (length r.front) native_arch calls ≡ ok (some s)
      at_front =
          ap (λ n. section n native_arch calls)
            (sym (ap (λ p. length p - 1) r.ends ∙ omega (arith, length-append r.front enosys)))
          ∙ built

      run :
          (a : ℕ)
          → machine.exec d ((s ++ t.program) ++ filter) a
            ≡ outcome (is_beyond native_arch calls d.nr)
      run a =
          ap (λ p. machine.exec d p a)
            (append_assoc s t.program filter
              ∙ ap (λ p. s ++ p)
                  (ap (λ p. p ++ filter) r.ends ∙ append_assoc r.front enosys filter))
          ∙ section_lem machine d r.front filter result room entry native_arch calls s a at_front

  -- The decisions after the loop.
  abbrev pub after_sections : LastSyscallMap → (ℕ → Bool) → ℕ → Bool
  after_sections last v j = elim (lookup j last) [
    | none ↦ v j
    | some calls ↦ is_beyond j calls d.nr
  ]

  -- The architectures still to come have nothing beyond so far.
  abbrev Fresh : LastSyscallMap → (ℕ → Bool) → Type 0
  Fresh last v = (j : ℕ) → (lookup j last ≡ none) ⊎ (v j ≡ false)

  Fresh-after :
      (native_arch : ℕ) (calls : MaxSyscalls) (last : LastSyscallMap) (v : ℕ → Bool)
      → lookup native_arch last ≡ none
      → Fresh ((native_arch, calls) ∷ last) v
      → Fresh last (after_section native_arch calls v)
  unfolding lookup
  Fresh-after native_arch calls last v single fresh j = elim (eq_cases native_arch j) [
    | inl same ↦ inl (subst (λ k. lookup k last ≡ none) same single)
    | inr other ↦
        let before : ((if native_arch == j then some calls else lookup j last) ≡ none)
            ⊎ (v j ≡ false) =
          fresh j in
        rw other (rw other at before)
  ]

  Fresh-skip :
      (native_arch : ℕ) (calls : MaxSyscalls) (last : LastSyscallMap) (v : ℕ → Bool)
      → lookup native_arch last ≡ none
      → Fresh ((native_arch, calls) ∷ last) v
      → Fresh last v
  unfolding lookup
  Fresh-skip native_arch calls last v single fresh j = elim (eq_cases native_arch j) [
    | inl same ↦ inl (subst (λ k. lookup k last ≡ none) same single)
    | inr other ↦
        let before : ((if native_arch == j then some calls else lookup j last) ≡ none)
            ⊎ (v j ≡ false) =
          fresh j in
        rw other at before
  ]

  after_skip :
      (native_arch : ℕ) (last : LastSyscallMap) (v : ℕ → Bool) (j : ℕ)
      → lookup native_arch last ≡ none
      → Fresh ((native_arch, []) ∷ last) v
      → after_sections last v j ≡ after_sections ((native_arch, []) ∷ last) v j
  unfolding lookup is_beyond
  after_skip native_arch last v j single fresh =
      ground (arith, nat_eq.beq_iff native_arch j, fresh j)

  after_cons :
      (native_arch : ℕ) (calls : MaxSyscalls) (last : LastSyscallMap) (v : ℕ → Bool) (j : ℕ)
      → lookup native_arch last ≡ none
      → after_sections last (after_section native_arch calls v) j
        ≡ after_sections ((native_arch, calls) ∷ last) v j
  unfolding lookup
  after_cons native_arch calls last v j single = ground (arith, nat_eq.beq_iff native_arch j)

  pub add_sections-IsRouted :
      (last : LastSyscallMap) (t t' : Tail) (v : ℕ → Bool)
      → add_sections last t ≡ ok t'
      → IsMap last
      → Fresh last v
      → IsRouted t v
      → IsRouted t' (after_sections last v)
  unfolding add_sections prepend_section lookup
  add_sections-IsRouted [] t t' v built distinct fresh r =
      subst (λ u. IsRouted u v) (ok_inj built) r
  add_sections-IsRouted ((native_arch, calls) ∷ last) t t' v built distinct fresh r =
      let found = value_of (section (length t.program - 1) native_arch calls) _ t' built in
      elim (Option-cases found.0) [
        | inl absent ↦
            let skipped : section (length t.program - 1) native_arch calls ≡ ok none =
              found.1.0 ∙ ap ok absent in
            let nothing = section-none (length t.program - 1) native_arch calls skipped in
            let later : add_sections last (prepend_section native_arch none t) ≡ ok t' =
              ap (λ s. add_sections last (prepend_section native_arch s t)) (sym absent)
              ∙ found.1.1 in
            IsRouted-ext t' (after_sections last v) (after_sections ((native_arch, calls) ∷ last) v)
              (λ j.
                after_skip native_arch last v j distinct.0
                  (subst (λ c. Fresh ((native_arch, c) ∷ last) v) nothing fresh)
                ∙ ap (λ c. after_sections ((native_arch, c) ∷ last) v j) (sym nothing))
              (add_sections-IsRouted last t t' v later distinct.1
                (Fresh-skip native_arch calls last v distinct.0 fresh) r)
        | inr (s, present) ↦
            let built' : section (length t.program - 1) native_arch calls ≡ ok (some s) =
              found.1.0 ∙ ap ok present in
            let later : add_sections last (prepend_section native_arch (some s) t) ≡ ok t' =
              ap (λ o. add_sections last (prepend_section native_arch o t)) (sym present)
              ∙ found.1.1 in
            IsRouted-ext t' (after_sections last (after_section native_arch calls v))
              (after_sections ((native_arch, calls) ∷ last) v)
              (λ j. after_cons native_arch calls last v j distinct.0)
              (add_sections-IsRouted last (prepend_section native_arch (some s) t) t'
                (after_section native_arch calls v) later distinct.1
                (Fresh-after native_arch calls last v distinct.0 fresh)
                (prepend_section-IsRouted native_arch calls s t v built' r))
      ]
