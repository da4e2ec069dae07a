-- ===== src/Injection/Handover.antt =====
-- When an injection counts as delivered.
use overgent.Prelude.{
  ℕ, String, ◌≡◌, refl, ap, ◌∙◌, ◌≢◌, inl, inr, Bool, true, false, ◌&&◌, ◌||◌, List, [], ◌∷◌, ◌++◌,
  map, arith, str_eq, eq_refl, str_eq→eq, Bool-cases, Option-cases, is_some, ok, Result-cases,
}
use overgent.Prelude.Tables.{select, any}
use overgent.Config
use mathlib.Core.Path.{subst}
use Prim.Native.String.{len}
use text.Mathlib.TextPositions.{len-append}
use overgent.Store.{Db, Delivery, InjectionItem}
use overgent.Store.Focus.{focused_until}
use overgent.Store.Deliveries.{
  same_item, claim_loop, claim_injection_deliveries, undelivered_injection_items, deliver,
}
use overgent.Publisher.{Service, sender_for_workspace}
use overgent.Publisher.Keeps.{workspace_sender-db}
use overgent.Injection.{
  BriefItem, Listener, Request, Context, render_injection, render_lines, select_injection_items,
  claim_mid_turn_fetch, workspace_for_any_root, published_workstream_id, header,
}
use overgent.Injection.Text.{is_contract_id}
use overgent.Injection.Handler.{
  candidate, is_among, is_waiting, shown_result, hand_over, deliver_brief, answer_session,
  answer_request, is_vendor, is_mid_turn, handle_agent_injection,
}

claim_none :
    (now : ℕ) (session : String) (items : List InjectionItem) (rows rows' : List Delivery)
    → claim_loop now session items rows ≡ ok (rows', [])
    → rows' ≡ rows
unfolding claim_loop
claim_none now session [] rows rows' h = ground arith
claim_none now session (item ∷ items) rows rows' h =
    elim (Result-cases (claim_loop now session items (rows ++ deliver now session item ∷ []))) [
      | inl ((rs, cs), e) ↦ ground (arith, claim_none now session items rows rows')
      | inr (x, e) ↦ ground (arith, claim_none now session items rows rows')
    ]

-- What was claimed first is one of the items asked for.
claim_some :
    (now : ℕ) (session : String) (selected : List BriefItem) (rows rows' : List Delivery)
    (c : InjectionItem) (cs : List InjectionItem)
    → claim_loop now session (map candidate selected) rows ≡ ok (rows', c ∷ cs)
    → any (λ (i : BriefItem). same_item (candidate i) c) selected ≡ true
unfolding claim_loop any
claim_some now session [] rows rows' c cs h = absurd (ground arith)
claim_some now session (item ∷ items) rows rows' c cs h =
    elim (Result-cases (
      claim_loop now session (map candidate items)
        (rows ++ deliver now session (candidate item) ∷ []))) [
          | inl ((rs, ds), e) ↦
              ground (arith, claim_some now session items rows rows' c cs, eq_refl item.id)
          | inr (x, e) ↦ ground (arith, claim_some now session items rows rows' c cs)
        ]

any-among :
    (c : InjectionItem) (cs : List InjectionItem) (items : List BriefItem)
    → any (λ (i : BriefItem). same_item (candidate i) c) items ≡ true
    → any (is_among (c ∷ cs)) items ≡ true
unfolding any
any-among c cs [] h = absurd (ground arith)
any-among c cs (i ∷ items) h = ground (arith, any-among c cs items)

select_some :
    (q : BriefItem → Bool) (items : List BriefItem)
    → any q items ≡ true
    → (y : BriefItem) × (ys : List BriefItem) × (select q items ≡ y ∷ ys)
unfolding any select
select_some q [] h = absurd (ground arith)
select_some q (i ∷ items) h = elim (Bool-cases (q i)) [
  | inl e ↦ (i, select q items, rw e refl)
  | inr e ↦ let (y, ys, p) = select_some q items (ground arith) in (y, ys, rw e p)
]

rendered_some : (y : BriefItem) (ys : List BriefItem) → render_injection (y ∷ ys) ≢ ""
unfolding render_injection
rendered_some y ys h =
    let l = ap len h in absurd (omega (arith, l, len-append header (render_lines (y ∷ ys))))

shown_some : (y : BriefItem) (ys : List BriefItem) → (shown_result (y ∷ ys)).additional_context ≢ ""
shown_some y ys h = elim (Bool-cases (str_eq (render_injection (y ∷ ys)) "")) [
  | inl e ↦ rendered_some y ys (str_eq→eq (render_injection (y ∷ ys)) "" e)
  | inr e ↦ rendered_some y ys (rw e at h)
]

claim_shown :
    (now : ℕ) (session : String) (selected : List BriefItem) (db : Db) (rows : List Delivery)
    (claimed : List InjectionItem)
    → claim_loop now session (map candidate selected) db.deliveries ≡ ok (rows, claimed)
    → (shown_result (select (is_among claimed) selected)).additional_context ≡ ""
    → record db { deliveries = rows } ≡ db
claim_shown now session selected db rows [] f h =
    rw (claim_none now session (map candidate selected) db.deliveries rows f) refl
claim_shown now session selected db rows (c ∷ cs) f h =
    let found = claim_some now session selected db.deliveries rows c cs f in
    let (y, ys, p) = select_some (is_among (c ∷ cs)) selected (any-among c cs selected found) in
    absurd (shown_some y ys (subst (λ z. (shown_result z).additional_context ≡ "") p h))

hand_over_shown :
    (now : ℕ) (session : String) (selected : List BriefItem) (db : Db)
    → (hand_over now session selected db).1.additional_context ≡ ""
    → (hand_over now session selected db).0 ≡ db
unfolding hand_over claim_injection_deliveries
hand_over_shown now session selected db h = elim (Bool-cases (str_eq session "")) [
  | inl e ↦ rw (e, hand_over, claim_injection_deliveries) refl
  | inr e ↦ elim (Result-cases (claim_loop now session (map candidate selected) db.deliveries)) [
    | inr (x, f) ↦ rw (e, f, hand_over, claim_injection_deliveries) refl
    | inl ((rows, claimed), f) ↦
        let t = rw (e, f, hand_over, claim_injection_deliveries) at h in
        rw (e, f, hand_over, claim_injection_deliveries)
          (claim_shown now session selected db rows claimed f t)
  ]
]

deliver_shown :
    (x : Bool) (now : ℕ) (mid_turn : Bool) (session : String) (items : List BriefItem) (db : Db)
    → (deliver_brief x now mid_turn session items db).1.additional_context ≡ ""
    → (deliver_brief x now mid_turn session items db).0 ≡ db
unfolding deliver_brief
deliver_shown x now mid_turn session items db h =
    elim (Result-cases (undelivered_injection_items session (map candidate items) db)) [
      | inr (y, e) ↦ rw (e, deliver_brief) refl
      | inl (us, e) ↦ elim (Bool-cases x) [
        | inl f ↦ rw (e, f, deliver_brief) refl
        | inr f ↦
            let selected = select_injection_items (select (is_waiting mid_turn us) items) in
            let t : (hand_over now session selected db).1.additional_context ≡ "" =
              rw (e, f, deliver_brief) at h in
            rw (e, f, deliver_brief) (hand_over_shown now session selected db t)
      ]
    ]

module _ {S : Type 0} (o : Context S) where
  session_shown :
      (now : ℕ) (mid_turn : Bool) (session : String) (w : Config.Workspace) (s : Service)
      → (answer_session o now mid_turn session w s).1.additional_context ≡ ""
      → (answer_session o now mid_turn session w s).0.db ≡ s.db
  unfolding answer_session
  session_shown now mid_turn session w s h =
      let s' = (sender_for_workspace o.outside w s).0 in
      let same = workspace_sender-db o.outside w s in
      elim (Bool-cases (is_some (focused_until session now s.db))) [
        | inl a ↦ rw (a, answer_session) refl
        | inr a ↦ elim (Bool-cases ((sender_for_workspace o.outside w s).1 && o.provides_briefs)) [
          | inr b ↦ rw (a, b, answer_session) same
          | inl b ↦ elim (Option-cases (o.create_brief session)) [
            | inl c ↦ rw (a, b, c, answer_session) same
            | inr (items, c) ↦
                let t = rw (a, b, c) at h in
                rw (a, b, c, answer_session)
                  (deliver_shown o.has_expired now mid_turn session items s'.db t ∙ same)
          ]
        ]
      ]

  request_shown :
      (now : ℕ) (mid_turn : Bool) (q : Request) (s : Service)
      → (answer_request o now mid_turn q s).1.additional_context ≡ ""
      → (answer_request o now mid_turn q s).0.db ≡ s.db
  unfolding answer_request
  request_shown now mid_turn q s h =
      elim (Bool-cases (is_vendor o q.agent_vendor && is_contract_id q.agent_workstream_id)) [
        | inr a ↦ rw (a, answer_request) refl
        | inl a ↦
            elim (Option-cases
              (workspace_for_any_root o s.config (q.agent_cwd ∷ q.agent_candidate_roots))) [
                | inl b ↦ rw (a, b, answer_request) refl
                | inr (w, b) ↦
                    let t = rw (a, b) at h in
                    rw (a, b, answer_request)
                      (session_shown now mid_turn
                        (published_workstream_id o q.agent_workstream_id w.project_id w.id) w s t)
              ]
      ]

  -- A correction is never retired unread: a request that gives the agent no text writes nothing to
  -- the database, so that no item counts as delivered.
  pub unshown_undelivered :
      (now : ℕ) (q : Request) (l : Listener)
      → (handle_agent_injection o now q l).1.additional_context ≡ ""
      → (handle_agent_injection o now q l).0.service.db ≡ l.service.db
  unfolding handle_agent_injection
  unshown_undelivered now q l h = elim (Bool-cases (is_mid_turn o q)) [
    | inl a ↦ elim (Bool-cases (claim_mid_turn_fetch q.agent_workstream_id now l.mid_turn).1) [
      | inr b ↦ rw (a, b, handle_agent_injection) refl
      | inl b ↦
          rw (a, b, handle_agent_injection) (request_shown now true q l.service (rw (a, b) at h))
    ]
    | inr a ↦
        elim (Bool-cases
          (str_eq q.agent_event "SessionStart" || str_eq q.agent_event "UserPromptSubmit")) [
            | inr b ↦ rw (a, b, handle_agent_injection) refl
            | inl b ↦
                rw (a, b, handle_agent_injection)
                  (request_shown now false q l.service (rw (a, b) at h))
          ]
  ]
