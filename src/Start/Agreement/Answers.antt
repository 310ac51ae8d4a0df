-- ===== src/Start/Agreement/Answers.antt =====
-- What the parent answers to the messages of the child.
use mathlib.Core.List.{append-nil, append_assoc}
use sysbox_runc.Prelude.{
  ◌≡◌, ◌∙◌, refl, sym, ap, arith, Bool, true, false, Option, none, some, List, [], ◌∷◌, ◌++◌,
  String, Option-cases, inl, inr, ◌⊎◌,
}
use sysbox_runc.Start.Sync.{SyncType}
use sysbox_runc.Start.Calls.{
  Host, Session, M, try, try_ok, try_error, when, update, perform, StartError, Action, delivered,
  Entry,
}

-- Nothing is written.
pub record IsQuiet (m : M) : Type 0 where
  pub silent_at : (s : Session) → delivered (m s).1.calls ≡ delivered s.calls

abbrev pub is_write : Action → Bool
is_write (Action.write _) = true
is_write _ = false

-- One answer, or an error and none.
pub record Exchange (m : M) (t : SyncType) : Type 0 where
  pub at :
      (s : Session)
      → (((m s).0 ≡ none) × (delivered (m s).1.calls ≡ delivered s.calls ++ t ∷ []))
        ⊎ ((e : StartError) × (((m s).0 ≡ some e) × (delivered (m s).1.calls ≡ delivered s.calls)))

-- The answers break off before the last of those that are expected.
abbrev pub IsCut : List SyncType → List SyncType → Type 0
IsCut w [] = ⊥
IsCut [] (t ∷ ts) = Unit
IsCut (x ∷ w) (t ∷ ts) = (x ≡ t) × IsCut w ts

-- Without an error all that is expected is answered, and with one it breaks off.
abbrev pub Answers : M → List SyncType → Session → Type 0
Answers m ts s =
    (w : List SyncType) × ((delivered (m s).1.calls ≡ delivered s.calls ++ w)
      × ((((m s).0 ≡ none) × (w ≡ ts)) ⊎ ((e : StartError) × (((m s).0 ≡ some e) × IsCut w ts))))

delivered-quiet :
    (a : Action) (e : Option String) (calls : List Entry)
    → is_write a ≡ false
    → delivered ((a, e) ∷ calls) ≡ delivered calls
unfolding delivered
delivered-quiet (Action.write t) e calls h = ground arith
delivered-quiet _ e calls h = refl

pub try-IsQuiet : (m k : M) → IsQuiet m → IsQuiet k → IsQuiet (try m k)
try-IsQuiet m k quiet_m quiet_k = record {
  silent_at = λ s. elim (Option-cases (m s).0) [
    | inl fine ↦
        ap (λ r. delivered r.1.calls) (try_ok m k s fine)
        ∙ quiet_k.silent_at (m s).1
        ∙ quiet_m.silent_at s
    | inr (e, failed) ↦
        ap (λ r. delivered r.1.calls) (try_error m k s e failed) ∙ quiet_m.silent_at s
  ];
}

pub when-IsQuiet : (b : Bool) (m : M) → IsQuiet m → IsQuiet (when b m)
when-IsQuiet true m quiet_m = quiet_m
when-IsQuiet false m quiet_m = record { silent_at = λ s. refl }

-- What is quiet may come before an exchange, and what keeps the calls after it.
pub quiet_then : (m k : M) (t : SyncType) → IsQuiet m → Exchange k t → Exchange (try m k) t
quiet_then m k t quiet exchange = record {
  at = λ s. elim (Option-cases (m s).0) [
    | inl fine ↦
        let run = try_ok m k s fine in
        elim (exchange.at (m s).1) [
          | inl (none_k, answered) ↦ inl (
            ap (λ r. r.0) run ∙ none_k,
            ap (λ r. delivered r.1.calls) run
                ∙ answered
                ∙ ap (λ c. c ++ t ∷ []) (quiet.silent_at s),
          )
          | inr (e, (some_k, silent)) ↦ inr (
            e,
            (
              ap (λ r. r.0) run ∙ some_k,
              ap (λ r. delivered r.1.calls) run ∙ silent ∙ quiet.silent_at s,
            ),
          )
        ]
    | inr (e, failed) ↦
        let run = try_error m k s e failed in
        inr (e, (ap (λ r. r.0) run, ap (λ r. delivered r.1.calls) run ∙ quiet.silent_at s))
  ];
}

pub then_update :
    (m : M) (t : SyncType) (f : Session → Session)
    → ((s : Session) → (f s).calls ≡ s.calls)
    → Exchange m t
    → Exchange (try m (update f)) t
then_update m t f keeps exchange = record {
  at = λ s. elim (exchange.at s) [
    | inl (fine, answered) ↦
        let run = try_ok m (update f) s fine in
        inl (
          ap (λ r. r.0) run,
          ap (λ r. delivered r.1.calls) run ∙ ap delivered (keeps (m s).1) ∙ answered,
        )
    | inr (e, (failed, silent)) ↦
        let run = try_error m (update f) s e failed in
        inr (e, (ap (λ r. r.0) run, ap (λ r. delivered r.1.calls) run ∙ silent))
  ];
}

pub record IsAnswering (m : M) (ts : List SyncType) : Type 0 where
  pub answers_at : (s : Session) → Answers m ts s

append_answer :
    (m k : M) (t : SyncType) (ts : List SyncType) (s : Session)
    → Exchange m t
    → Answers k ts (m s).1
    → Answers (try m k) (t ∷ ts) s
append_answer m k t ts s exchange (w, (said, result)) = elim (exchange.at s) [
  | inl (fine, answered) ↦
      let run = try_ok m k s fine in
      (
        t ∷ w,
        (
          ap (λ r. delivered r.1.calls) run
              ∙ said
              ∙ ap (λ c. c ++ w) answered
              ∙ append_assoc (delivered s.calls) (t ∷ []) w,
          elim result [
            | inl (none_k, all_said) ↦ inl (ap (λ r. r.0) run ∙ none_k, ap (λ v. t ∷ v) all_said)
            | inr (e, (some_k, cut)) ↦ inr (e, (ap (λ r. r.0) run ∙ some_k, (refl, cut)))
          ],
        ),
      )
  | inr (e, (failed, silent)) ↦
      let run = try_error m k s e failed in
      (
        [],
        (
          ap (λ r. delivered r.1.calls) run ∙ silent ∙ sym (append-nil (delivered s.calls)),
          inr (e, (ap (λ r. r.0) run, tt)),
        ),
      )
]

-- An exchange, and what is answered after it.
pub exchange_then :
    (m k : M) (t : SyncType) (ts : List SyncType)
    → Exchange m t
    → IsAnswering k ts
    → IsAnswering (try m k) (t ∷ ts)
exchange_then m k t ts exchange later = record {
  answers_at = λ s. append_answer m k t ts s exchange (later.answers_at (m s).1);
}

module _ (host : Host) where
  pub perform-IsQuiet : (a : Action) → is_write a ≡ false → IsQuiet (perform host a)
  unfolding perform
  perform-IsQuiet a h = record {
    silent_at = λ s. delivered-quiet a (host.answer s.calls a) s.calls h;
  }

  pub perform-Exchange : (t : SyncType) → Exchange (perform host (Action.write t)) t
  unfolding perform delivered
  perform-Exchange t = record {
    at = λ s. elim (Option-cases (host.answer s.calls (Action.write t))) [
      | inl fine ↦ inl (ground arith)
      | inr (e, refused) ↦ inr (StartError.failed (Action.write t) e, ground arith)
    ];
  }
