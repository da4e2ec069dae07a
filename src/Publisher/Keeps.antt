-- ===== src/Publisher/Keeps.antt =====
-- What the acknowledgements and quarantines of single events keep, a whole flush keeps.
use overgent.Store
use overgent.Prelude.{
  ℕ, zero, suc, String, ◌≡◌, refl, ◌⊎◌, inl, inr, Bool, true, false, ◌||◌, not, List, [], ◌∷◌,
  arith, str_eq, Bool-cases, Option-cases, length, take, drop, All, ok, Result-cases,
}
use overgent.Prelude.Tables.{find, select, any}
use overgent.Prelude.Tables.Rows.{All-select}
use overgent.Config
use overgent.Config.{Backend, backend_for_workspace}
use overgent.Store.{Db, Event, Error}
use overgent.Store.Queue.{pending, batch, ack, quarantine}
use overgent.Store.Workspaces.{workspaces}
use overgent.Publisher.Failures.{permanent_rejection}
use overgent.Publisher.{
  Outside, Run, Service, Outcome, drained, failed, aborted, Flush, drain, flush_loop, flush,
  retry_individually, ack_window, sender_for, sender_for_workspace, sender_for_workspace_id,
  workspace_by_id, is_built, to_send, group, order, window_size, with_db, contains, backend_of,
  record_reason, conclude,
}

pub All-take : {A : Type 0} (Q : A → Type 0) (n : ℕ) (xs : List A) → All Q xs → All Q (take n xs)
All-take Q zero xs h = tt
All-take Q (suc n) [] h = tt
All-take Q (suc n) (x ∷ xs) h = (h.0, All-take Q n xs h.1)

pub All-drop : {A : Type 0} (Q : A → Type 0) (n : ℕ) (xs : List A) → All Q xs → All Q (drop n xs)
All-drop Q zero xs h = h
All-drop Q (suc n) [] h = tt
All-drop Q (suc n) (x ∷ xs) h = All-drop Q n xs h.1

pub List-cases :
    {A : Type 0} (xs : List A) → (xs ≡ []) ⊎ ((x : A) × (rest : List A) × (xs ≡ x ∷ rest))
List-cases [] = inl refl
List-cases (x ∷ xs) = inr (x, xs, refl)

pub Outcome-cases : (o : Outcome) → (o ≡ drained) ⊎ ((o ≡ failed) ⊎ (o ≡ aborted))
Outcome-cases drained = inl refl
Outcome-cases failed = inr (inl refl)
Outcome-cases aborted = inr (inr refl)

module _ {S : Type 0} (o : Outside S) where
  sender_for-db : (b : Backend) (s : Service) → (sender_for o b s).0.db ≡ s.db
  unfolding sender_for
  sender_for-db b s = elim (Option-cases (find (is_built b.id) s.senders)) [
    | inl e ↦ ground arith
    | inr (x, e) ↦ ground arith
  ]

  pub workspace_sender-db :
      (w : Config.Workspace) (s : Service) → (sender_for_workspace o w s).0.db ≡ s.db
  unfolding sender_for_workspace
  workspace_sender-db w s = elim (Option-cases (backend_for_workspace s.config w)) [
    | inl f ↦ rw (f, sender_for_workspace) refl
    | inr (b, f) ↦ rw (f, sender_for_workspace) (sender_for-db b s)
  ]

  -- Finding or building a publisher touches no table.
  pub sender-db : (id : String) (s : Service) → (sender_for_workspace_id o id s).0.db ≡ s.db
  unfolding sender_for_workspace_id
  sender-db id s = elim (Option-cases (workspace_by_id s.config id)) [
    | inl e ↦ rw (e, sender_for_workspace_id) refl
    | inr (w, e) ↦ rw (e, sender_for_workspace_id) (workspace_sender-db w s)
  ]

module _ {S : Type 0} (o : Outside S) (now : ℕ) (P : Db → Type 0) (Q : Event → Type 0)
    (ack_keeps : (e : Event) (db db' : Db) → Q e → ack now e.id db ≡ ok db' → P db → P db')
    (quarantine_keeps : (e : Event) (db : Db) → Q e → P db → P (quarantine now e.id db)) where
  pub retry-keeps :
      (workspace : String) (es : List Event) (run : Run S)
      → All Q es
      → P run.service.db
      → P (retry_individually o now workspace es run).0.service.db
  unfolding retry_individually
  retry-keeps workspace [] run h k = k
  retry-keeps workspace (e ∷ es) run h k = elim (Result-cases (batch o.codec (e ∷ []))) [
    | inr (x, b) ↦ rw (b, retry_individually) k
    | inl (body, b) ↦
        rw (b, retry_individually)
          (elim (Option-cases (o.send run.server workspace body).1) [
            | inr (f, a) ↦
                rw (a, retry_individually)
                  (elim (Bool-cases (permanent_rejection f)) [
                    | inl r ↦
                        rw (r, retry_individually)
                          (retry-keeps workspace es
                            (record {
                              service =
                                  record_reason "rejected"
                                    (with_db run.service (quarantine now e.id run.service.db));
                              server = (o.send run.server workspace body).0;
                            })
                            h.1 (quarantine_keeps e run.service.db h.0 k))
                    | inr r ↦ rw (r, retry_individually) k
                  ])
            | inl a ↦
                rw (a, retry_individually)
                  (elim (Result-cases (ack now e.id run.service.db)) [
                    | inr (x, c) ↦ rw (c, retry_individually) k
                    | inl (db, c) ↦
                        rw (c, retry_individually)
                          (retry-keeps workspace es
                            (record {
                              service = with_db run.service db;
                              server = (o.send run.server workspace body).0;
                            })
                            h.1 (ack_keeps e run.service.db db h.0 c k))
                  ])
          ])
  ]

  pub ack_window-keeps :
      (es : List Event) (s : Service) → All Q es → P s.db → P (ack_window o now es s).0.db
  unfolding ack_window
  ack_window-keeps [] s h k = k
  ack_window-keeps (e ∷ es) s h k = elim (Result-cases (ack now e.id s.db)) [
    | inr (x, c) ↦ rw (c, ack_window) k
    | inl (db, c) ↦
        rw (c, ack_window) (ack_window-keeps es (with_db s db) h.1 (ack_keeps e s.db db h.0 c k))
  ]

  pub drain-keeps :
      (rounds : ℕ) (workspace : String) (any : Bool) (es : List Event) (run : Run S)
      → All Q es
      → P run.service.db
      → P (drain o rounds now workspace any es run).run.service.db
  unfolding drain
  drain-keeps zero workspace any es run h k = k
  drain-keeps (suc n) workspace any [] run h k = k
  drain-keeps (suc n) workspace any (e ∷ es) run h k =
      let window = take window_size (e ∷ es) in
      let later = drop window_size (e ∷ es) in
      let hw : All Q window = All-take Q window_size (e ∷ es) h in
      let hl : All Q later = All-drop Q window_size (e ∷ es) h in
      elim (Result-cases (batch o.codec window)) [
        | inr (x, b) ↦ rw (b, drain) k
        | inl (body, b) ↦
            let sent : Run S = record {
              service = run.service;
              server = (o.send run.server workspace body).0;
            } in
            rw (b, drain)
              (elim (Option-cases (o.send run.server workspace body).1) [
                | inr (f, a) ↦
                    rw (a, drain)
                      (elim (Bool-cases (permanent_rejection f)) [
                        | inr r ↦ rw (r, drain) k
                        | inl r ↦
                            let kept = retry-keeps workspace window sent hw k in
                            rw (r, drain)
                              (elim (Option-cases
                                (retry_individually o now workspace window sent).1) [
                                  | inr (g, c) ↦ rw (c, drain) kept
                                  | inl c ↦
                                      rw (c, drain)
                                        (drain-keeps n workspace true later
                                          (retry_individually o now workspace window sent).0 hl
                                          kept)
                                ])
                      ])
                | inl a ↦
                    let kept = ack_window-keeps window run.service hw k in
                    rw (a, drain)
                      (elim (Option-cases (ack_window o now window run.service).1) [
                        | inr (g, c) ↦ rw (c, drain) kept
                        | inl c ↦
                            rw (c, drain)
                              (drain-keeps n workspace any later
                                (record {
                                  service = (ack_window o now window run.service).0;
                                  server = (o.send run.server workspace body).0;
                                })
                                hl kept)
                      ])
              ])
      ]

  pub flush_loop-keeps :
      (ws : List Store.Workspace) (events : List Event) (ids broken : List String) (f : Flush S)
      → All Q events
      → P f.run.service.db
      → P (flush_loop o now ws events ids broken f).run.service.db
  unfolding flush_loop
  flush_loop-keeps ws events [] broken f h k = k
  flush_loop-keeps ws events (id ∷ ids) broken f h k =
      let service = (sender_for_workspace_id o id f.run.service).0 in
      let same : service.db ≡ f.run.service.db = sender-db o id f.run.service in
      let hg : All Q (group id events) =
        All-select Q (λ (e : Event). str_eq e.workspace_id id) events h in
      let begun : Run S = record f.run { service = service } in
      let d = drain o (length (group id events)) now id f.any_quarantined (group id events) begun in
      let kept : P d.run.service.db =
        drain-keeps (length (group id events)) id f.any_quarantined (group id events) begun hg
          (rw same k) in
      let next : Flush S = record f { run = d.run; any_quarantined = d.any_quarantined } in
      elim (Bool-cases (contains (backend_of ws id) broken)) [
        | inl b ↦ rw (b, flush_loop) (flush_loop-keeps ws events ids broken f h k)
        | inr b ↦
            rw (b, flush_loop)
              (elim (Bool-cases (sender_for_workspace_id o id f.run.service).1) [
                | inr u ↦
                    rw (u, flush_loop)
                      (flush_loop-keeps ws events ids (backend_of ws id ∷ broken)
                        (record f {
                          run = record f.run { service = record_reason "not_configured" service };
                          healthy = false;
                        })
                        h (rw same k))
                | inl u ↦
                    rw (u, flush_loop)
                      (elim (Outcome-cases d.outcome) [
                        | inl e ↦
                            rw (e, flush_loop) (flush_loop-keeps ws events ids broken next h kept)
                        | inr (inl e) ↦
                            rw (e, flush_loop)
                              (flush_loop-keeps ws events ids (backend_of ws id ∷ broken)
                                (record next { healthy = false }) h kept)
                        | inr (inr e) ↦ rw (e, flush_loop) kept
                      ])
              ])
      ]

  conclude-keeps : (f : Flush S) → P f.run.service.db → P (conclude f).0.service.db
  conclude-keeps f k = elim (Bool-cases (f.is_aborted || not f.healthy)) [
    | inl e ↦ rw e k
    | inr e ↦ rw e (elim (Bool-cases f.any_quarantined) [ inl q ↦ rw q k | inr q ↦ rw q k ])
  ]

  pub flush-keeps :
      (run : Run S)
      → All Q (select (to_send (workspaces run.service.db)) (pending run.service.db))
      → P run.service.db
      → P (flush o now run).0.service.db
  unfolding flush
  flush-keeps run h k =
      let ws = workspaces run.service.db in
      let es = select (to_send ws) (pending run.service.db) in
      let begun : Flush S = record {
        run = run;
        healthy = true;
        any_quarantined = false;
        is_aborted = false;
      } in
      elim (List-cases (pending run.service.db)) [
        | inl e ↦ rw (e, flush) k
        | inr (x, xs, e) ↦
            let kept =
              conclude-keeps (flush_loop o now ws es (order [] es) [] begun)
                (flush_loop-keeps ws es (order [] es) [] begun h k) in
            rw (e, flush) kept
      ]
