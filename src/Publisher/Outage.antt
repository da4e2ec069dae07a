-- ===== src/Publisher/Outage.antt =====
-- A flush while no backend takes a batch.
use overgent.Prelude.Tables.{select, any}
use overgent.Store.Workspaces.{workspaces}
use overgent.Prelude.{
  ℕ, zero, suc, String, ◌≡◌, refl, ◌∙◌, ◌≢◌, inl, inr, Bool, true, false, ◌||◌, not, some, List, [],
  ◌∷◌, ◌++◌, arith, eq_iff, Bool-cases, length, take, Result-cases,
}
use overgent.Store
use overgent.Store.{Event}
use overgent.Store.Queue.{batch, pending}
use overgent.Publisher.Failures.{Failure, permanent_rejection}
use overgent.Publisher.{
  Outside, Run, Outcome, drained, failed, aborted, Flush, drain, flush_loop,
  sender_for_workspace_id, group, window_size, contains, backend_of, record_reason, flush, order,
  conclude, to_send,
}
use overgent.Publisher.Keeps.{sender-db, Outcome-cases, List-cases}

-- Every batch fails for a reason that may pass.
abbrev pub IsDown : {S : Type 0} → Outside S → Type 0
IsDown {S} o =
    (s : S) (workspace body : String)
    → (f : Failure) × ((o.send s workspace body).1 ≡ some f) × (permanent_rejection f ≡ false)

abbrev is_drained : Outcome → Bool
is_drained drained = true
is_drained failed = false
is_drained aborted = false

-- What a flush reports as a failure.
abbrev has_failed : {S : Type 0} → Flush S → Bool
has_failed f = f.is_aborted || not f.healthy

module _ {S : Type 0} (o : Outside S) (now : ℕ) (down : IsDown o) where
  drain_stops :
      (n : ℕ) (workspace : String) (any : Bool) (e : Event) (es : List Event) (run : Run S)
      → ((drain o (suc n) now workspace any (e ∷ es) run).run.service.db ≡ run.service.db)
        × (is_drained (drain o (suc n) now workspace any (e ∷ es) run).outcome ≡ false)
  unfolding drain
  drain_stops n workspace any e es run =
      elim (Result-cases (batch o.codec (take window_size (e ∷ es)))) [
        | inr (x, b) ↦ rw (b, drain) (refl, refl)
        | inl (body, b) ↦
            let (f, a, p) = down run.server workspace body in rw (b, a, p, drain) (refl, refl)
      ]

  drain-db :
      (n : ℕ) (workspace : String) (any : Bool) (es : List Event) (run : Run S)
      → (drain o n now workspace any es run).run.service.db ≡ run.service.db
  unfolding drain
  drain-db zero workspace any es run = refl
  drain-db (suc n) workspace any [] run = refl
  drain-db (suc n) workspace any (e ∷ es) run = (drain_stops n workspace any e es run).0

  -- The tables stay, and a failure that was reported stays reported.
  loop_stops :
      (ws : List Store.Workspace) (events : List Event) (ids broken : List String) (f : Flush S)
      → ((flush_loop o now ws events ids broken f).run.service.db ≡ f.run.service.db)
        × (has_failed f ≡ true → has_failed (flush_loop o now ws events ids broken f) ≡ true)
  unfolding flush_loop
  loop_stops ws events [] broken f = (refl, λ h. h)
  loop_stops ws events (id ∷ ids) broken f =
      let service = (sender_for_workspace_id o id f.run.service).0 in
      let same : service.db ≡ f.run.service.db = sender-db o id f.run.service in
      let begun : Run S = record f.run { service = service } in
      let d = drain o (length (group id events)) now id f.any_quarantined (group id events) begun in
      let kept : d.run.service.db ≡ f.run.service.db =
        drain-db (length (group id events)) id f.any_quarantined (group id events) begun ∙ same in
      let next : Flush S = record f { run = d.run; any_quarantined = d.any_quarantined } in
      let unbound : Flush S = record f {
        run = record f.run { service = record_reason "not_configured" service };
        healthy = false;
      } in
      elim (Bool-cases (contains (backend_of ws id) broken)) [
        | inl b ↦ rw (b, flush_loop) (loop_stops ws events ids broken f)
        | inr b ↦
            rw (b, flush_loop)
              (elim (Bool-cases (sender_for_workspace_id o id f.run.service).1) [
                | inr u ↦
                    rw (u, flush_loop)
                      (let rest = loop_stops ws events ids (backend_of ws id ∷ broken) unbound in
                        (rest.0 ∙ same, λ h. rest.1 (ground arith)))
                | inl u ↦
                    rw (u, flush_loop)
                      (elim (Outcome-cases d.outcome) [
                        | inl e ↦
                            rw (e, flush_loop)
                              (let rest = loop_stops ws events ids broken next in
                                (rest.0 ∙ kept, rest.1))
                        | inr (inl e) ↦
                            rw (e, flush_loop)
                              (let rest =
                                  loop_stops ws events ids (backend_of ws id ∷ broken)
                                    (record next { healthy = false }) in
                                (rest.0 ∙ kept, λ h. rest.1 (ground arith)))
                        | inr (inr e) ↦ rw (e, flush_loop) (kept, λ h. refl)
                      ])
              ])
      ]

  -- The first workspace with something to send makes the flush fail.
  loop_fails :
      (ws : List Store.Workspace) (events : List Event) (id : String) (ids : List String)
      (f : Flush S) (e : Event) (es : List Event)
      → group id events ≡ e ∷ es
      → has_failed (flush_loop o now ws events (id ∷ ids) [] f) ≡ true
  unfolding flush_loop contains
  loop_fails ws events id ids f e es g =
      let service = (sender_for_workspace_id o id f.run.service).0 in
      let begun : Run S = record f.run { service = service } in
      let d = drain o (length (group id events)) now id f.any_quarantined (group id events) begun in
      let stuck : is_drained d.outcome ≡ false =
        rw g ((drain_stops (length es) id f.any_quarantined e es begun).1) in
      let next : Flush S = record f { run = d.run; any_quarantined = d.any_quarantined } in
      let unbound : Flush S = record f {
        run = record f.run { service = record_reason "not_configured" service };
        healthy = false;
      } in
      elim (Bool-cases (sender_for_workspace_id o id f.run.service).1) [
        | inr u ↦
            rw (u, flush_loop)
              ((loop_stops ws events ids (backend_of ws id ∷ []) unbound).1 (ground arith))
        | inl u ↦
            rw (u, flush_loop)
              (elim (Outcome-cases d.outcome) [
                | inl o ↦ absurd (ground arith)
                | inr (inl e) ↦
                    rw (e, flush_loop)
                      ((loop_stops ws events ids (backend_of ws id ∷ [])
                          (record next { healthy = false })).1
                        (ground arith))
                | inr (inr e) ↦ rw (e, flush_loop) refl
              ])
      ]

order_head :
    (id : String) (seen : List String) (es : List Event)
    → (rest : List String) × (order (id ∷ seen) es ≡ id ∷ rest)
unfolding order
order_head id seen [] = (seen, refl)
order_head id seen (e ∷ es) = elim (Bool-cases (contains e.workspace_id (id ∷ seen))) [
  | inl b ↦ rw (b, order) (order_head id seen es)
  | inr b ↦ rw (b, order) (order_head id (seen ++ e.workspace_id ∷ []) es)
]

group_self :
    (e : Event) (es : List Event) → group e.workspace_id (e ∷ es) ≡ e ∷ group e.workspace_id es
unfolding select
group_self e es = ground (arith, eq_iff e.workspace_id e.workspace_id)

conclude_failed : {S : Type 0} (f : Flush S) → has_failed f ≡ true → conclude f ≡ (f.run, false)
conclude_failed f h = rw h refl

no_pending : {es xs : List Event} {e : Event} (q : Event → Bool) → es ≡ [] → select q es ≢ e ∷ xs
unfolding select
no_pending q p h = cc

-- While every batch fails for a reason that may pass, a flush with something to send writes nothing
-- to the database, so that nothing queued is lost, and it reports the failure.
pub outage_keeps_queue :
    {S : Type 0} (o : Outside S) (now : ℕ) (run : Run S) (e : Event) (es : List Event)
    → IsDown o
    → select (to_send (workspaces run.service.db)) (pending run.service.db) ≡ e ∷ es
    → ((flush o now run).0.service.db ≡ run.service.db) × ((flush o now run).1 ≡ false)
unfolding flush order contains
outage_keeps_queue {S} o now run e es down h =
    let ws = workspaces run.service.db in
    let begun : Flush S = record {
      run = run;
      healthy = true;
      any_quarantined = false;
      is_aborted = false;
    } in
    let (rest, head) = order_head e.workspace_id [] es in
    let f = flush_loop o now ws (e ∷ es) (e.workspace_id ∷ rest) [] begun in
    let bad : has_failed f ≡ true =
      loop_fails o now down ws (e ∷ es) e.workspace_id rest begun e (group e.workspace_id es)
        (group_self e es) in
    let kept : f.run.service.db ≡ run.service.db =
      (loop_stops o now down ws (e ∷ es) (e.workspace_id ∷ rest) [] begun).0 in
    elim (List-cases (pending run.service.db)) [
      | inl p ↦ absurd (no_pending (to_send ws) p h)
      | inr (x, xs, p) ↦ rw (p, flush) (rw h (rw head (rw (conclude_failed f bad) (kept, refl))))
    ]
