-- ===== src/Start/Agreement/Joint.antt =====
-- The two sides together.
use mathlib.Core.List.{append-nil, append_assoc}
use sysbox_runc.Prelude.{
  ◌≡◌, ◌∙◌, refl, sym, ap, Option, none, some, List, [], ◌∷◌, ◌++◌, String, inl, inr, ◌⊎◌, map,
}
use sysbox_runc.Start.Sync.{SyncType, Message, sync}
use sysbox_runc.Start.Calls.{Host, Session, StartError, delivered}
use sysbox_runc.Start.Parent.{Start, parse_sync}
use sysbox_runc.Start.Child.{ChildError, and_then, Request, sync_parent, run_requests}
use sysbox_runc.Start.Agreement.Answers.{IsCut}
use sysbox_runc.Start.Agreement.Handlers.{
  expects, writes, all_writes, all_expects, parse_sync-IsAnswering,
}
use sysbox_runc.Start.Agreement.Replies.{pipe, and_then_ok, sync_parent_answered, sync_parent_cut}

-- Answers that break off do so in the first part or behind it.
IsCut-append :
    (w ex ts : List SyncType)
    → IsCut w (ex ++ ts)
    → IsCut w ex ⊎ ((v : List SyncType) × ((w ≡ ex ++ v) × IsCut v ts))
IsCut-append w [] ts cut = inr (w, (refl, cut))
IsCut-append [] (t ∷ ex) ts cut = inl tt
IsCut-append (x ∷ w) (t ∷ ex) ts (same, cut) = elim (IsCut-append w ex ts cut) [
  | inl before ↦ inl (same, before)
  | inr (v, (shape, behind)) ↦ inr (v, (ap (λ u. x ∷ u) shape ∙ ap (λ y. y ∷ ex ++ v) same, behind))
]

map-append : (u v : List SyncType) → map sync (u ++ v) ≡ map sync u ++ map sync v
map-append [] v = refl
map-append (x ∷ u) v = ap (λ l. sync x ∷ l) (map-append u v)

module _ (refuse : List Message → Message → Option String)
    (free : (sent : List Message) (m : Message) → refuse sent m ≡ none) where
  run_answered :
      (rs : List Request) (sent : List Message)
      → run_requests refuse rs (pipe (map sync (all_expects rs)) sent)
        ≡ (none, pipe [] (sent ++ all_writes rs))
  unfolding run_requests all_expects all_writes
  run_answered [] sent = ap (λ c. (none, pipe [] c)) (sym (append-nil sent))
  run_answered (r ∷ rs) sent =
      ap (λ l. run_requests refuse (r ∷ rs) (pipe l sent)) (map-append (expects r) (all_expects rs))
      ∙ and_then_ok (sync_parent refuse r) (run_requests refuse rs) _ _
          (sync_parent_answered refuse free r (map sync (all_expects rs)) sent)
      ∙ run_answered rs (sent ++ writes r)
      ∙ ap (λ c. (none, pipe [] c)) (append_assoc sent (writes r) (all_writes rs))

  run_cut :
      (rs : List Request) (w : List SyncType) (sent : List Message)
      → IsCut w (all_expects rs)
      → (run_requests refuse rs (pipe (map sync w) sent)).0 ≡ some ChildError.closed
  unfolding run_requests all_expects
  run_cut [] w sent cut = absurd cut
  run_cut (r ∷ rs) w sent cut = elim (IsCut-append w (expects r) (all_expects rs) cut) [
    | inl before ↦
        let stopped = sync_parent_cut refuse free r w sent before in rw (and_then, stopped)
    | inr (v, (shape, behind)) ↦
        ap (λ l. (run_requests refuse (r ∷ rs) (pipe l sent)).0)
          (ap (map sync) shape ∙ map-append (expects r) v)
        ∙ ap (λ c. c.0)
            (and_then_ok (sync_parent refuse r) (run_requests refuse rs) _ _
              (sync_parent_answered refuse free r (map sync v) sent))
        ∙ run_cut rs v (sent ++ writes r) behind
  ]

  -- If the parent has answered nothing yet and the writes of the child are not refused, the two sides
  -- agree on every sequence of requests, whatever steps of the parent fail. Either the parent handles
  -- all that the requests write and the child, which reads what the parent has written, gets each
  -- answer that it waits for and has written just that; or the parent ends with an error and the child
  -- finds the pipe closed.
  pub parse_sync-run_requests :
      (host : Host) (start : Start) (rs : List Request) (s : Session)
      → delivered s.calls ≡ []
      → (((parse_sync host start (all_writes rs) s).0 ≡ none)
          × (run_requests refuse rs
                (pipe (map sync (delivered (parse_sync host start (all_writes rs) s).1.calls)) [])
              ≡ (none, pipe [] (all_writes rs))))
        ⊎ ((e : StartError) × (((parse_sync host start (all_writes rs) s).0 ≡ some e)
              × ((run_requests refuse rs (
                    pipe
                      (map sync (delivered (parse_sync host start (all_writes rs) s).1.calls))
                      [])).0
                  ≡ some ChildError.closed)))
  parse_sync-run_requests host start rs s fresh =
      let (w, (said, result)) = (parse_sync-IsAnswering host start rs).answers_at s in
      let answers = said ∙ ap (λ c. c ++ w) fresh in
      elim result [
        | inl (fine, all_said) ↦ inl (
          fine,
          ap (λ l. run_requests refuse rs (pipe (map sync l) [])) (answers ∙ all_said)
              ∙ run_answered rs [],
        )
        | inr (e, (failed, cut)) ↦ inr (
          e,
          (
            failed,
            ap (λ l. (run_requests refuse rs (pipe (map sync l) [])).0) answers
                ∙ run_cut rs w [] cut,
          ),
        )
      ]
