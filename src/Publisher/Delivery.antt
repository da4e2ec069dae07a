-- ===== src/Publisher/Delivery.antt =====
-- A flush while every backend accepts: nothing that may be sent keeps waiting.
use overgent.Prelude.Tables.Order.{All-sort_by}
use overgent.Store.Workspaces.{workspaces}
use overgent.Store.Queue.{pending, is_pending, in_order}
use mathlib.Core.Path.{subst}
use overgent.Store.Queue.Batches.{IsSendable}
use overgent.Publisher.Coverage.{
  All-group, All-either, order_covers, All-order, All-found, All-both, All-none,
}
use overgent.Publisher.Keeps.{sender-db, flush_loop-keeps, List-cases}
use overgent.Store.{Event, Db, is_event}
use overgent.Publisher.Acceptance.{
  IsDone, drain_drains, ack-IsDone, quarantine-IsDone, drained-IsPresent, IsAccepting, IsPresent,
}
use overgent.Prelude.{
  ℕ, String, ◌≡◌, refl, sym, ◌∙◌, inl, inr, Bool, true, false, some, List, [], ◌∷◌, arith, str_eq,
  str_eq→eq, Bool-cases, Option-cases, length, All, All-append, All-intro, All-mono,
}
use overgent.Prelude.Tables.{find, select}
use overgent.Prelude.Tables.Rows.{All-find, All-select, All-selected}
use overgent.Config
use overgent.Config.{Config, backend_for_workspace}
use overgent.Store
use overgent.Publisher.{
  Outside, Service, Built, sender_for, sender_for_workspace, sender_for_workspace_id,
  workspace_by_id, is_built, Flush, drain, drained, flush_loop, group, contains, Run, order, flush,
  conclude, to_send, record_reason,
}

-- The workspace is registered and its Project bound to a backend.
abbrev pub IsBound : Config → String → Type 0
IsBound c id =
    (w : Config.Workspace) × (b : Config.Backend) × (workspace_by_id c id ≡ some w)
    × (backend_for_workspace c w ≡ some b)
    × (str_eq b.id "" ≡ false)

abbrev pub IsUsable : Built → Type 0
IsUsable b = b.usable ≡ true

-- The payload is one that `Batch` accepts.
abbrev pub IsValid : {S : Type 0} → Outside S → Event → Type 0
IsValid o e = o.codec.is_valid e.payload ≡ true

module _ {S : Type 0} (o : Outside S) (factory : o.has_factory ≡ true)
    (builds : (b : Config.Backend) → o.build b ≡ true) where
  -- A publisher is found or built, and the service is otherwise as it was.
  abbrev IsServed : Service → Service × Bool → Type 0
  IsServed s r = (r.1 ≡ true) × All IsUsable r.0.senders × (r.0.config ≡ s.config)

  sender_for-IsServed :
      (b : Config.Backend) (s : Service)
      → str_eq b.id "" ≡ false
      → All IsUsable s.senders
      → IsServed s (sender_for o b s)
  unfolding sender_for
  sender_for-IsServed b s n h = elim (Option-cases (find (is_built b.id) s.senders)) [
    | inl e ↦
        rw (n, e, factory, sender_for)
          (
            builds b,
            All-append IsUsable s.senders (record { backend = b.id; usable = o.build b } ∷ []) h
                (builds b, tt),
            refl,
          )
    | inr (x, e) ↦
        rw (n, e, sender_for) (All-find IsUsable (is_built b.id) s.senders x h e, h, refl)
  ]

  sender-IsServed :
      (id : String) (s : Service)
      → IsBound s.config id
      → All IsUsable s.senders
      → IsServed s (sender_for_workspace_id o id s)
  unfolding sender_for_workspace_id sender_for_workspace
  sender-IsServed id s (w, b, p, q, n) h =
      rw (p, sender_for_workspace_id) (rw (q, sender_for_workspace) (sender_for-IsServed b s n h))

  abbrev IsDelivered : List Event → List String → Flush S → Flush S → Type 0
  IsDelivered events ids f r =
      (r.healthy ≡ true)
      × (r.is_aborted ≡ false)
      × (r.any_quarantined ≡ f.any_quarantined)
      × All (λ (e : Event). contains e.workspace_id ids ≡ true → IsDone r.run.service.db e) events

  loop_step :
      (now : ℕ) (ws : List Store.Workspace) (events : List Event) (id : String) (ids : List String)
      (f : Flush S)
      → (sender_for_workspace_id o id f.run.service).1 ≡ true
      → let begun : Run S = record f.run {
        service = (sender_for_workspace_id o id f.run.service).0;
      } in
        let d =
          drain o (length (group id events)) now id f.any_quarantined (group id events) begun in
        d.outcome ≡ drained
        → flush_loop o now ws events (id ∷ ids) [] f
          ≡ flush_loop o now ws events ids []
              (record f { run = d.run; any_quarantined = d.any_quarantined })
  unfolding flush_loop contains
  loop_step now ws events id ids f u h = rw (u, h, flush_loop) refl

  still-IsDone :
      (now : ℕ) (ws : List Store.Workspace) (e : Event) (es : List Event) (ids : List String)
      (f : Flush S)
      → IsDone f.run.service.db e
      → IsDone (flush_loop o now ws es ids [] f).run.service.db e
  still-IsDone now ws e es ids f =
      flush_loop-keeps o now (λ d. IsDone d e) (λ x. Unit)
        (λ x d d' q a k. ack-IsDone now e x d d' a k) (λ x d q k. quarantine-IsDone now e x d k) ws
        es ids [] f (All-intro (λ (x : Event). Unit) (λ x. tt) es)

  loop_delivers :
      IsAccepting o
      → (now : ℕ) (ws : List Store.Workspace) (events : List Event) (ids : List String)
        (f : Flush S)
      → f.healthy ≡ true
      → f.is_aborted ≡ false
      → All (IsBound f.run.service.config) ids
      → All IsUsable f.run.service.senders
      → All (IsValid o) events
      → All (IsPresent f.run.service.db) events
      → IsDelivered events ids f (flush_loop o now ws events ids [] f)
  unfolding flush_loop
  loop_delivers accepts now ws events [] f h a bound ready valid present = (
    h,
    a,
    refl,
    All-intro (λ (e : Event). contains e.workspace_id [] ≡ true → IsDone f.run.service.db e)
        (λ e k. absurd (ground arith)) events,
  )
  loop_delivers accepts now ws events (id ∷ ids) f h a bound ready valid present =
      let served = sender-IsServed id f.run.service bound.0 ready in
      let service = (sender_for_workspace_id o id f.run.service).0 in
      let same : service.db ≡ f.run.service.db = sender-db o id f.run.service in
      let present' : All (IsPresent service.db) events =
        subst (λ d. All (IsPresent d) events) (sym same) present in
      let begun : Run S = record f.run { service = service } in
      let mine : Event → Bool = λ e. str_eq e.workspace_id id in
      let g = group id events in
      let d = drain o (length g) now id f.any_quarantined g begun in
      let sendable : All (IsSendable o.codec id) g =
        All-selected (IsSendable o.codec id) mine events (
          All-mono (IsValid o) (λ e. mine e ≡ true → IsSendable o.codec id e)
            (λ e v m. (str_eq→eq e.workspace_id id m, v)) events valid) in
      let dr =
        drain_drains o now accepts (length g) id f.any_quarantined g begun (omega arith) sendable
          (All-select (IsPresent service.db) mine events present') in
      let next : Flush S = record f { run = d.run; any_quarantined = d.any_quarantined } in
      let rest =
        loop_delivers accepts now ws events ids next h a
          (subst (λ c. All (IsBound c) ids) (sym (dr.3 ∙ served.2)) bound.1)
          (subst (All IsUsable) (sym dr.4) served.1) valid
          (All-mono (IsPresent service.db) (IsPresent d.run.service.db)
            (λ e p. drained-IsPresent o now e (length g) id f.any_quarantined g begun p) events
            present') in
      let r = flush_loop o now ws events ids [] next in
      let own : All (λ (e : Event). mine e ≡ true → IsDone r.run.service.db e) events =
        All-group (IsDone r.run.service.db) mine events (
          All-mono (IsDone d.run.service.db) (IsDone r.run.service.db)
            (λ e p. still-IsDone now ws e events ids next p) g dr.2) in
      let all : All
          (λ (e : Event). contains e.workspace_id (id ∷ ids) ≡ true → IsDone r.run.service.db e)
          events =
        All-either id ids (IsDone r.run.service.db) events own rest.3 in
      subst (IsDelivered events (id ∷ ids) f) (sym (loop_step now ws events id ids f served.0 dr.0))
        (rest.0, rest.1, rest.2 ∙ dr.1, all)

conclude_healthy :
    {S : Type 0} (f : Flush S)
    → f.healthy ≡ true
    → f.is_aborted ≡ false
    → ((conclude f).1 ≡ true) × ((conclude f).0.service.db ≡ f.run.service.db)
conclude_healthy f h a = elim (Bool-cases f.any_quarantined) [
  | inl q ↦ rw (h, a, q) (refl, refl)
  | inr q ↦ rw (h, a, q) (refl, refl)
]

module _ {S : Type 0} (o : Outside S) (now : ℕ) (run : Run S) where
  flush_idle :
      pending run.service.db ≡ []
      → flush o now run ≡ (record run { service = record_reason "" run.service }, true)
  unfolding flush
  flush_idle p = rw (p, flush) refl

  flush_busy :
      (x : Event) (xs : List Event)
      → pending run.service.db ≡ x ∷ xs
      → let ws = workspaces run.service.db in
        let es = select (to_send ws) (pending run.service.db) in
        flush o now run
        ≡ conclude (
            flush_loop o now ws es
              (order [] es)
              []
              (record { run = run; healthy = true; any_quarantined = false; is_aborted = false }))
  unfolding flush
  flush_busy x xs p = rw (p, flush) (rw p refl)

-- While every backend accepts, a flush succeeds, and of the events that were pending in workspaces
-- that are not paused none waits any more: if each of these workspaces is registered, with its
-- Project bound to a backend, their payloads are valid, the publishers built before are usable, and
-- others can be built.
pub flush_delivers :
    {S : Type 0} (o : Outside S) (now : ℕ) (run : Run S)
    → IsAccepting o
    → o.has_factory ≡ true
    → ((b : Config.Backend) → o.build b ≡ true)
    → All IsUsable run.service.senders
    → All
        (λ (e : Event). IsBound run.service.config e.workspace_id)
        (select (to_send (workspaces run.service.db)) (pending run.service.db))
    → All (IsValid o) (select (to_send (workspaces run.service.db)) (pending run.service.db))
    → All
        (IsDone (flush o now run).0.service.db)
        (select (to_send (workspaces run.service.db)) (pending run.service.db))
      × ((flush o now run).1 ≡ true)
unfolding pending
flush_delivers {S} o now run accepts factory builds ready bound valid =
    let db = run.service.db in
    let ws = workspaces db in
    let es = select (to_send ws) (pending db) in
    let begun : Flush S = record {
      run = run;
      healthy = true;
      any_quarantined = false;
      is_aborted = false;
    } in
    let present : All (IsPresent db) es = All-select (IsPresent db) (to_send ws) (pending db) (
      All-sort_by in_order (IsPresent db) (select is_pending db.event_queue)
        (All-select (IsPresent db) is_pending db.event_queue (All-found db.event_queue))) in
    let r = flush_loop o now ws es (order [] es) [] begun in
    let done =
      loop_delivers o factory builds accepts now ws es (order [] es) begun refl refl
        (All-order (IsBound run.service.config) [] es tt bound) ready valid present in
    let settled : All (IsDone r.run.service.db) es =
      All-both (λ (e : Event). contains e.workspace_id (order [] es) ≡ true)
        (IsDone r.run.service.db) es (order_covers [] es) done.3 in
    let ended = conclude_healthy r done.0 done.1 in
    elim (List-cases (pending db)) [
      | inl p ↦
          subst (λ z. All (IsDone z.0.service.db) es × (z.1 ≡ true)) (sym (flush_idle o now run p))
            (All-none (IsDone db) (to_send ws) (pending db) p, refl)
      | inr (x, xs, p) ↦
          subst (λ z. All (IsDone z.0.service.db) es × (z.1 ≡ true))
            (sym (flush_busy o now run x xs p))
            (subst (λ d. All (IsDone d) es) (sym (ended.1)) settled, ended.0)
    ]
