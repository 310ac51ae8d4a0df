-- ===== src/Start/Order.antt =====
-- The order of the parent's steps: an answer is written only once the steps that it stands for have
-- succeeded.
pub mod Handled
pub mod Started
use sysbox_runc.Prelude.{
  ◌≡◌, ◌∙◌, refl, sym, ap, subst, arith, Bool, true, false, not, Option, none, some, List, [], ◌∷◌,
  String, inl, inr, ◌⊎◌, if◌then◌else◌, All, All-map, Option-cases,
}
use sysbox_runc.Start.Sync.{SyncType, proc_run, proc_resume, rootfs_ready_ack}
use sysbox_runc.Start.Calls.{
  Host, Session, M, try, try_ok, try_error, when, update, fail, perform, perform_, StartError,
  Action, Entry,
}
use sysbox_runc.Start.Calls
use sysbox_runc.Start.Parent.{Start}

-- The steps of the RDT manager, of the hooks, of the cgroup of version 2 and of sysbox-fs.
abbrev pub after_rdt : Start → List Action → List Action
after_rdt start before = if start.has_rdt then Action.rdt_set ∷ before else before

abbrev pub after_hooks : Start → List Action → List Action
after_hooks start before =
    if start.has_hooks
    then Action.run_hooks Calls.create_runtime
      ∷ Action.run_hooks Calls.prestart
      ∷ Action.current_oci_state
      ∷ before
    else before

abbrev pub after_cgroup : Start → List Action → List Action
after_cgroup start before =
    if start.is_cgroup_v2
    then Action.apply_child_cgroup ∷ Action.create_child_cgroup ∷ before
    else before

abbrev pub after_fs : Start → List Action → List Action
after_fs start before = if start.fs_enabled then Action.fs_register ∷ before else before

-- What has to succeed before an answer: for procRun the limits, the hooks if there is no mount
-- namespace, and the stored state; for procResume the hooks; for the last the child's cgroup and the
-- registration with sysbox-fs.
unfoldable pub needs : Start → SyncType → List Action
needs start proc_run =
    Action.update_state
    ∷ (if not start.has_mount_ns
        then after_hooks start (after_rdt start (Action.set_rlimits ∷ []))
        else Action.set_rlimits ∷ [])
needs start proc_resume = after_hooks start (after_rdt start [])
needs start rootfs_ready_ack = after_fs start (after_cgroup start [])
needs start _ = []

-- A call that succeeded before.
abbrev pub HasSucceeded : List Entry → Action → Type 0
HasSucceeded [] a = ⊥
HasSucceeded ((b, e) ∷ calls) a = ((b ≡ a) × (e ≡ none)) ⊎ HasSucceeded calls a

-- Each answer stands after all that it needs.
abbrev pub IsOrdered : Start → List Entry → Type 0
IsOrdered start [] = Unit
IsOrdered start ((Action.write t, e) ∷ calls) =
    All (HasSucceeded calls) (needs start t) × IsOrdered start calls
IsOrdered start (_ ∷ calls) = IsOrdered start calls

-- A step keeps the order, and if it succeeds after the ones before, so have the ones after.
pub record Step (start : Start) (before : List Action) (m : M) (after : List Action) : Type 0 where
  pub keeps :
      (s : Session)
      → IsOrdered start s.calls
      → All (HasSucceeded s.calls) before
      → IsOrdered start (m s).1.calls
  pub reaches :
      (s : Session)
      → All (HasSucceeded s.calls) before
      → (m s).0 ≡ none
      → All (HasSucceeded (m s).1.calls) after

abbrev pub is_answer : Action → Bool
is_answer (Action.write _) = true
is_answer _ = false

IsOrdered-other :
    (start : Start) (a : Action) (e : Option String) (calls : List Entry)
    → is_answer a ≡ false
    → IsOrdered start calls
    → IsOrdered start ((a, e) ∷ calls)
IsOrdered-other start (Action.write t) e calls h ordered = ground arith
IsOrdered-other start _ e calls h ordered = ordered

later :
    (entry : Entry) (calls : List Entry) (xs : List Action)
    → All (HasSucceeded calls) xs
    → All (HasSucceeded (entry ∷ calls)) xs
later entry calls xs h = All-map xs (λ a found. inr found) h

module _ (host : Host) (start : Start) where
  pub perform-Step :
      (before : List Action) (a : Action)
      → is_answer a ≡ false
      → Step start before (perform host a) (a ∷ before)
  unfolding perform
  perform-Step before a other = record {
    keeps = λ s ordered h. IsOrdered-other start a (host.answer s.calls a) s.calls other ordered;
    reaches =
        λ s h fine. (inl (refl, ground arith), later (a, host.answer s.calls a) s.calls before h);
  }

  pub perform_-Step :
      (before : List Action) (a : Action)
      → is_answer a ≡ false
      → Step start before (perform_ host a) before
  unfolding perform_
  perform_-Step before a other = record {
    keeps = λ s ordered h. IsOrdered-other start a (host.answer s.calls a) s.calls other ordered;
    reaches = λ s h fine. later (a, host.answer s.calls a) s.calls before h;
  }

  pub write-Step :
      (t : SyncType) → Step start (needs start t) (perform host (Action.write t)) (needs start t)
  unfolding perform
  write-Step t = record {
    keeps = λ s ordered h. (h, ordered);
    reaches = λ s h fine.
        later (Action.write t, host.answer s.calls (Action.write t)) s.calls (needs start t) h;
  }

pub try-Step :
    (start : Start) (p q r : List Action) (m k : M)
    → Step start p m q
    → Step start q k r
    → Step start p (try m k) r
try-Step start p q r m k first second = record {
  keeps = λ s ordered h. elim (Option-cases (m s).0) [
    | inl fine ↦
        subst (λ o. IsOrdered start o.1.calls) (sym (try_ok m k s fine))
          (second.keeps (m s).1 (first.keeps s ordered h) (first.reaches s h fine))
    | inr (e, failed) ↦
        subst (λ o. IsOrdered start o.1.calls) (sym (try_error m k s e failed))
          (first.keeps s ordered h)
  ];
  reaches = λ s h fine. elim (Option-cases (m s).0) [
    | inl fine_m ↦
        let run = try_ok m k s fine_m in
        subst (λ o. All (HasSucceeded o.1.calls) r) (sym run)
          (second.reaches (m s).1 (first.reaches s h fine_m) (sym (ap (λ o. o.0) run) ∙ fine))
    | inr (e, failed) ↦
        let clash : some e ≡ none = sym (ap (λ o. o.0) (try_error m k s e failed)) ∙ fine in
        ground arith
  ];
}

pub when-Step :
    (start : Start) (b : Bool) (p q : List Action) (m : M)
    → Step start p m q
    → Step start p (when b m) (if b then q else p)
when-Step start true p q m step = step
when-Step start false p q m step = record {
  keeps = λ s ordered h. ordered;
  reaches = λ s h fine. h;
}

pub update-Step :
    (start : Start) (p : List Action) (f : Session → Session)
    → ((s : Session) → (f s).calls ≡ s.calls)
    → Step start p (update f) p
update-Step start p f same = record {
  keeps = λ s ordered h. subst (IsOrdered start) (sym (same s)) ordered;
  reaches = λ s h fine. subst (λ c. All (HasSucceeded c) p) (sym (same s)) h;
}

pub fail-Step : (start : Start) (p q : List Action) (e : StartError) → Step start p (fail e) q
fail-Step start p q e = record {
  keeps = λ s ordered h. ordered;
  reaches = λ s h fine. ground arith;
}

-- The steps before may be forgotten.
pub forget-Step : (start : Start) (p q : List Action) (m : M) → Step start [] m q → Step start p m q
forget-Step start p q m step = record {
  keeps = λ s ordered h. step.keeps s ordered tt;
  reaches = λ s h fine. step.reaches s tt fine;
}

pub drop-Step : (start : Start) (p q : List Action) (m : M) → Step start p m q → Step start p m []
drop-Step start p q m step = record {
  keeps = λ s ordered h. step.keeps s ordered h;
  reaches = λ s h fine. tt;
}
