-- ===== src/Injection/Limits.antt =====
-- What limits an injection: the budget, focus, and the window between fetches in mid-turn.
use Prim.Native.String.{len}
use overgent.Prelude.{
  ℕ, ◌+◌, ◌≤◌, ◌<◌, String, ◌≡◌, refl, ◌∙◌, ◌≢◌, inl, inr, Bool, true, false, ◌&&◌, ◌||◌, some,
  List, ◌∷◌, map, arith, str_eq, eq_iff, eq_refl, ltb, Bool-cases, Option-cases, is_some,
  if◌then◌else◌, Result-cases,
}
use overgent.Prelude.Tables.{find, select, find-upsert_self, find-upsert_ne}
use overgent.Config
use overgent.Store.{Db}
use overgent.Store.Focus.{focused_until}
use overgent.Store.Deliveries.{claim_injection_deliveries, undelivered_injection_items}
use overgent.Publisher.{Service, sender_for_workspace}
use overgent.Injection.{
  BriefItem, InjectionResult, Listener, Request, Context, render_injection, select_injection_items,
  claim_mid_turn_fetch, workspace_for_any_root, published_workstream_id, Fetch, fetch_window,
  is_fetch,
}
use overgent.Injection.Text.{is_contract_id}
use overgent.Injection.Budget.{selection_fits}
use overgent.Injection.Handler.{
  silent, candidate, is_among, is_waiting, shown_result, hand_over, deliver_brief, answer_session,
  answer_request, is_vendor, is_mid_turn, handle_agent_injection,
}

-- A text within the budget.
abbrev Fits : InjectionResult → Type 0
Fits r = len r.additional_context ≤ 3200

shown-Fits :
    (items : List BriefItem) → len (render_injection items) ≤ 3200 → Fits (shown_result items)
shown-Fits items h = elim (Bool-cases (str_eq (render_injection items) "")) [
  | inl e ↦ rw e (omega arith)
  | inr e ↦ rw e h
]

hand_over-Fits :
    (now : ℕ) (session : String) (items : List BriefItem) (db : Db)
    → Fits (hand_over now session (select_injection_items items) db).1
unfolding hand_over
hand_over-Fits now session items db =
    let selected = select_injection_items items in
    elim (Result-cases (claim_injection_deliveries now session (map candidate selected) db)) [
      | inr (x, e) ↦ rw (e, hand_over) (omega arith)
      | inl ((db', claimed), e) ↦
          rw (e, hand_over)
            (shown-Fits (select (is_among claimed) selected)
              (selection_fits items (is_among claimed)).1)
    ]

deliver-Fits :
    (x : Bool) (now : ℕ) (mid_turn : Bool) (session : String) (items : List BriefItem) (db : Db)
    → Fits (deliver_brief x now mid_turn session items db).1
unfolding deliver_brief
deliver-Fits x now mid_turn session items db =
    elim (Result-cases (undelivered_injection_items session (map candidate items) db)) [
      | inr (y, e) ↦ rw (e, deliver_brief) (omega arith)
      | inl (us, e) ↦ elim (Bool-cases x) [
        | inl f ↦ rw (e, f, deliver_brief) (omega arith)
        | inr f ↦
            rw (e, f, deliver_brief)
              (hand_over-Fits now session (select (is_waiting mid_turn us) items) db)
      ]
    ]

-- A turn that is refused leaves the turns as they were.
kept_turns :
    (w : String) (now : ℕ) (fetches : List Fetch)
    → (claim_mid_turn_fetch w now fetches).1 ≡ false
    → (claim_mid_turn_fetch w now fetches).0 ≡ fetches
unfolding claim_mid_turn_fetch
kept_turns w now fetches h = ground (arith, h)

other_turns :
    (w other : String) (now : ℕ) (fetches : List Fetch)
    → w ≢ other
    → find (is_fetch other) (claim_mid_turn_fetch w now fetches).0 ≡ find (is_fetch other) fetches
unfolding claim_mid_turn_fetch
other_turns w other now fetches n =
    let noted =
      find-upsert_ne (is_fetch w) (is_fetch other) (λ (f : Fetch). record f { at = now })
        (record { workstream = w; at = now }) fetches
        (λ f m. ground (arith, eq_iff f.workstream w, eq_iff f.workstream other, m)) (λ f. refl)
        (ground (arith, eq_iff w other)) in
    elim (Option-cases (find (is_fetch w) fetches)) [
      | inl e ↦ rw (e, claim_mid_turn_fetch) noted
      | inr (last, e) ↦ elim (Bool-cases (ltb now (last.at + fetch_window))) [
        | inl c ↦ rw (e, c, claim_mid_turn_fetch) refl
        | inr c ↦ rw (e, c, claim_mid_turn_fetch) noted
      ]
    ]

module _ {S : Type 0} (o : Context S) where
  session-Fits :
      (now : ℕ) (mid_turn : Bool) (session : String) (w : Config.Workspace) (s : Service)
      → Fits (answer_session o now mid_turn session w s).1
  unfolding answer_session
  session-Fits now mid_turn session w s =
      elim (Bool-cases (is_some (focused_until session now s.db))) [
        | inl a ↦ rw (a, answer_session) (omega arith)
        | inr a ↦ elim (Bool-cases ((sender_for_workspace o.outside w s).1 && o.provides_briefs)) [
          | inr b ↦ rw (a, b, answer_session) (omega arith)
          | inl b ↦ elim (Option-cases (o.create_brief session)) [
            | inl c ↦ rw (a, b, c, answer_session) (omega arith)
            | inr (items, c) ↦
                rw (a, b, c, answer_session)
                  (deliver-Fits o.has_expired now mid_turn session items
                    (sender_for_workspace o.outside w s).0.db)
          ]
        ]
      ]

  request-Fits :
      (now : ℕ) (mid_turn : Bool) (q : Request) (s : Service)
      → Fits (answer_request o now mid_turn q s).1
  unfolding answer_request
  request-Fits now mid_turn q s =
      elim (Bool-cases (is_vendor o q.agent_vendor && is_contract_id q.agent_workstream_id)) [
        | inr a ↦ rw (a, answer_request) (omega arith)
        | inl a ↦
            elim (Option-cases
              (workspace_for_any_root o s.config (q.agent_cwd ∷ q.agent_candidate_roots))) [
                | inl b ↦ rw (a, b, answer_request) (omega arith)
                | inr (w, b) ↦
                    rw (a, b, answer_request)
                      (session-Fits now mid_turn
                        (published_workstream_id o q.agent_workstream_id w.project_id w.id) w s)
              ]
      ]

  -- Whatever the brief holds, an agent is given a text of 3200 bytes at most.
  pub injection_fits :
      (now : ℕ) (q : Request) (l : Listener)
      → len (handle_agent_injection o now q l).1.additional_context ≤ 3200
  unfolding handle_agent_injection
  injection_fits now q l = elim (Bool-cases (is_mid_turn o q)) [
    | inl a ↦ elim (Bool-cases (claim_mid_turn_fetch q.agent_workstream_id now l.mid_turn).1) [
      | inr b ↦ rw (a, b, handle_agent_injection) (omega arith)
      | inl b ↦ rw (a, b, handle_agent_injection) (request-Fits now true q l.service)
    ]
    | inr a ↦
        elim (Bool-cases
          (str_eq q.agent_event "SessionStart" || str_eq q.agent_event "UserPromptSubmit")) [
            | inr b ↦ rw (a, b, handle_agent_injection) (omega arith)
            | inl b ↦ rw (a, b, handle_agent_injection) (request-Fits now false q l.service)
          ]
  ]

  focused_request :
      (now : ℕ) (mid_turn : Bool) (q : Request) (s : Service) (w : Config.Workspace)
      → workspace_for_any_root o s.config (q.agent_cwd ∷ q.agent_candidate_roots) ≡ some w
      → is_some (
          focused_until
            (published_workstream_id o q.agent_workstream_id w.project_id w.id)
            now
            s.db)
        ≡ true
      → answer_request o now mid_turn q s ≡ (s, silent)
  unfolding answer_request answer_session
  focused_request now mid_turn q s w b f =
      elim (Bool-cases (is_vendor o q.agent_vendor && is_contract_id q.agent_workstream_id)) [
        | inr a ↦ rw (a, answer_request) refl
        | inl a ↦ rw (a, b, answer_request) (rw (f, answer_session) refl)
      ]

  -- A focused session is told nothing, at any event, and no item is consumed: the store, the profile
  -- and the publishers are as they were. A PostToolUse request takes its turn of the mid-turn fetch all
  -- the same, and no other agent's turn.
  pub focus_silences :
      (now : ℕ) (q : Request) (l : Listener) (w : Config.Workspace)
      → workspace_for_any_root o l.service.config (q.agent_cwd ∷ q.agent_candidate_roots) ≡ some w
      → is_some (
          focused_until
            (published_workstream_id o q.agent_workstream_id w.project_id w.id)
            now
            l.service.db)
        ≡ true
      → (handle_agent_injection o now q l ≡ (
        record {
          service = l.service;
          mid_turn =
              if is_mid_turn o q
              then (claim_mid_turn_fetch q.agent_workstream_id now l.mid_turn).0
              else l.mid_turn;
        },
        silent,
      ))
        × ((other : String)
            → q.agent_workstream_id ≢ other
            → find (is_fetch other) (handle_agent_injection o now q l).0.mid_turn
              ≡ find (is_fetch other) l.mid_turn)
  unfolding handle_agent_injection
  focus_silences now q l w b f =
      let turns = claim_mid_turn_fetch q.agent_workstream_id now l.mid_turn in
      elim (Bool-cases (is_mid_turn o q)) [
        | inl a ↦ elim (Bool-cases (turns.1)) [
          | inr c ↦
              rw (a, c, kept_turns q.agent_workstream_id now l.mid_turn c, handle_agent_injection)
                (refl, λ other n. refl)
          | inl c ↦
              rw (a, c, handle_agent_injection)
                (rw (focused_request now true q l.service w b f)
                  (refl, λ other n. other_turns q.agent_workstream_id other now l.mid_turn n))
        ]
        | inr a ↦
            elim (Bool-cases
              (str_eq q.agent_event "SessionStart" || str_eq q.agent_event "UserPromptSubmit")) [
                | inr c ↦ rw (a, c, handle_agent_injection) (refl, λ other n. refl)
                | inl c ↦
                    rw (a, c, handle_agent_injection)
                      (rw (focused_request now false q l.service w b f) (refl, λ other n. refl))
              ]
      ]

refused :
    (w : String) (later : ℕ) (fetches : List Fetch) (f : Fetch)
    → find (is_fetch w) fetches ≡ some f
    → later < f.at + fetch_window
    → claim_mid_turn_fetch w later fetches ≡ (fetches, false)
unfolding claim_mid_turn_fetch
refused w later fetches f e b = rw (e, claim_mid_turn_fetch) (ground arith)

granted :
    (w : String) (now : ℕ) (fetches : List Fetch)
    → (claim_mid_turn_fetch w now fetches).1 ≡ true
    → (f : Fetch) × (find (is_fetch w) (claim_mid_turn_fetch w now fetches).0 ≡ some f)
      × (f.at ≡ now)
unfolding claim_mid_turn_fetch
granted w now fetches h =
    let set : Fetch → Fetch = λ f. record f { at = now } in
    let new : Fetch = record { workstream = w; at = now } in
    let found = find-upsert_self (is_fetch w) set new fetches (λ x m. m) (eq_refl w) in
    elim (Option-cases (find (is_fetch w) fetches)) [
      | inl e ↦ (new, rw (e, claim_mid_turn_fetch) (found ∙ rw e refl), refl)
      | inr (last, e) ↦ elim (Bool-cases (ltb now (last.at + fetch_window))) [
        | inl c ↦ absurd (ground arith)
        | inr c ↦ (set last, rw (e, c, claim_mid_turn_fetch) (found ∙ rw e refl), refl)
      ]
    ]

claim_again :
    (w : String) (now later : ℕ) (fetches : List Fetch)
    → (claim_mid_turn_fetch w now fetches).1 ≡ true
    → later < now + fetch_window
    → claim_mid_turn_fetch w later (claim_mid_turn_fetch w now fetches).0
      ≡ ((claim_mid_turn_fetch w now fetches).0, false)
claim_again w now later fetches h b =
    let (f, e, t) = granted w now fetches h in
    refused w later (claim_mid_turn_fetch w now fetches).0 f e (omega arith)

module _ {S : Type 0} (o : Context S) where
  -- Of two requests of one workstream in mid-turn, less than 20 seconds apart, the second changes
  -- nothing and gives no text, if the first one was granted its fetch.
  mid_turn_throttled :
      (now later : ℕ) (q : Request) (l : Listener)
      → q.agent_event ≡ "PostToolUse"
      → (claim_mid_turn_fetch q.agent_workstream_id now l.mid_turn).1 ≡ true
      → later < now + fetch_window
      → handle_agent_injection o later q (handle_agent_injection o now q l).0
        ≡ ((handle_agent_injection o now q l).0, silent)
  unfolding handle_agent_injection
  mid_turn_throttled now later q l e g b =
      let m : is_mid_turn o q ≡ true = ground (arith, eq_iff q.agent_event "PostToolUse") in
      let again = claim_again q.agent_workstream_id now later l.mid_turn g b in
      rw (m, g, handle_agent_injection) (rw again refl)
