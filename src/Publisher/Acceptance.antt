-- ===== src/Publisher/Acceptance.antt =====
-- What one window and one workspace's drain do when the backend accepts every batch.
use overgent.Store.Queue.Batches.{IsSendable, batch_iff}
use overgent.Prelude.{
  ℕ, zero, suc, ◌≤◌, String, ◌≡◌, refl, sym, ◌∙◌, inl, inr, Bool, true, false, Option, none, List,
  [], ◌∷◌, map, arith, Option-cases, length, take, drop, take-append-drop, length-take, length-drop,
  All, All-append, All-intro, All-mono, ok,
}
use overgent.Prelude.Tables.{find, update, any, any-find, any-update}
use mathlib.Core.Path.{subst}
use overgent.Publisher.Failures.{Failure}
use overgent.Store.{Db, Event, is_event}
use overgent.Store.Queue.{ack, ack_row, quarantine, quarantine_row, unacked, batch}
use overgent.Store.Queue.Drain.{ack_exact, waits}
use overgent.Publisher.{
  Outside, Service, ack_window, with_db, Run, Drain, drained, drain, window_size,
}
use overgent.Publisher.Keeps.{ack_window-keeps, drain-keeps, All-take, All-drop}
use overgent.Publisher.Stamps.{ack_shape}

abbrev pub IsAccepting : {S : Type 0} → Outside S → Type 0
IsAccepting {S} o = (s : S) (workspace body : String) → (o.send s workspace body).1 ≡ none

abbrev pub IsPresent : Db → Event → Type 0
IsPresent db e = any (is_event e.id) db.event_queue ≡ true

-- No row with the event's id waits for publication.
abbrev pub IsDone : Db → Event → Type 0
IsDone db e = any (waits e.id) db.event_queue ≡ false

any-update-false :
    (q p : Event → Bool) (f : Event → Event) (es : List Event)
    → ((x : Event) → q (f x) ≡ false)
    → any q es ≡ false
    → any q (update p f es) ≡ false
unfolding any update
any-update-false q p f [] h k = refl
any-update-false q p f (e ∷ es) h k = ground (arith, h e, any-update-false q p f es h)

waits-acked :
    (now : ℕ) (id : String) (es : List Event)
    → any (waits id) (update (is_event id) (ack_row now) es) ≡ false
unfolding any update
waits-acked now id [] = refl
waits-acked now id (e ∷ es) = ground (arith, waits-acked now id es)

pub ack-IsDone :
    (now : ℕ) (e j : Event) (db db' : Db) → ack now j.id db ≡ ok db' → IsDone db e → IsDone db' e
ack-IsDone now e j db db' h k =
    subst (λ q. any (waits e.id) q ≡ false) (sym ((ack_shape now j.id db db' h).0))
      (any-update-false (waits e.id) (is_event j.id) (ack_row now) db.event_queue
        (λ x. ground arith) k)

pub ack-IsPresent :
    (now : ℕ) (e j : Event) (db db' : Db)
    → ack now j.id db ≡ ok db'
    → IsPresent db e
    → IsPresent db' e
ack-IsPresent now e j db db' h k =
    subst (λ q. any (is_event e.id) q ≡ true) (sym ((ack_shape now j.id db db' h).0))
      (any-update (is_event j.id) (is_event e.id) (ack_row now) db.event_queue (λ x. refl) ∙ k)

acked-IsDone : (now : ℕ) (e : Event) (db db' : Db) → ack now e.id db ≡ ok db' → IsDone db' e
acked-IsDone now e db db' h =
    subst (λ q. any (waits e.id) q ≡ false) (sym ((ack_shape now e.id db db' h).0))
      (waits-acked now e.id db.event_queue)

pub ack_succeeds :
    (now : ℕ) (e : Event) (db : Db) → IsPresent db e → (db' : Db) × (ack now e.id db ≡ ok db')
unfolding ack
ack_succeeds now e db h = elim (Option-cases (find (is_event e.id) db.event_queue)) [
  | inl n ↦ absurd (ground (arith, any-find (is_event e.id) db.event_queue))
  | inr (x, p) ↦ let a = ack_exact now e.id db x p in (a.0, a.1)
]

pub quarantine-IsDone :
    (now : ℕ) (e j : Event) (db : Db) → IsDone db e → IsDone (quarantine now j.id db) e
unfolding quarantine
quarantine-IsDone now e j db k =
    any-update-false (waits e.id) (unacked j.id) (quarantine_row now) db.event_queue
      (λ x. ground arith) k

pub quarantine-IsPresent :
    (now : ℕ) (e j : Event) (db : Db) → IsPresent db e → IsPresent (quarantine now j.id db) e
unfolding quarantine
quarantine-IsPresent now e j db k =
    any-update (unacked j.id) (is_event e.id) (quarantine_row now) db.event_queue (λ x. refl) ∙ k

module _ {S : Type 0} (o : Outside S) (now : ℕ) where
  -- The window is acknowledged, and the service keeps its configuration and its publishers.
  abbrev IsAcked : List Event → Service → Service × Option Failure → Type 0
  IsAcked es s r =
      (r.1 ≡ none) × All (IsDone r.0.db) es × (r.0.config ≡ s.config) × (r.0.senders ≡ s.senders)

  ack_window_step :
      (e : Event) (es : List Event) (s : Service) (db : Db)
      → ack now e.id s.db ≡ ok db
      → ack_window o now (e ∷ es) s ≡ ack_window o now es (with_db s db)
  unfolding ack_window
  ack_window_step e es s db p = rw (p, ack_window) refl

  -- What is done stays done, whatever else the flush handles.
  still-IsDone :
      (e : Event) (es : List Event) (s : Service)
      → IsDone s.db e
      → IsDone (ack_window o now es s).0.db e
  still-IsDone e es s =
      ack_window-keeps o now (λ d. IsDone d e) (λ x. Unit)
        (λ x d d' q a k. ack-IsDone now e x d d' a k) (λ x d q k. quarantine-IsDone now e x d k) es
        s (All-intro (λ (x : Event). Unit) (λ x. tt) es)

  ack_window_acks :
      (es : List Event) (s : Service)
      → All (IsPresent s.db) es
      → IsAcked es s (ack_window o now es s)
  unfolding ack_window
  ack_window_acks [] s h = (refl, tt, refl, refl)
  ack_window_acks (e ∷ es) s h =
      let (db, p) = ack_succeeds now e s.db h.0 in
      let later : All (IsPresent db) es =
        All-mono (IsPresent s.db) (IsPresent db) (λ x k. ack-IsPresent now x e s.db db p k) es
          h.1 in
      let rest = ack_window_acks es (with_db s db) later in
      let first : IsDone (ack_window o now es (with_db s db)).0.db e =
        still-IsDone e es (with_db s db) (acked-IsDone now e s.db db p) in
      subst (IsAcked (e ∷ es) s) (sym (ack_window_step e es s db p))
        (rest.0, (first, rest.1), rest.2, rest.3)

  still-IsPresent :
      (e : Event) (es : List Event) (s : Service)
      → IsPresent s.db e
      → IsPresent (ack_window o now es s).0.db e
  still-IsPresent e es s =
      ack_window-keeps o now (λ d. IsPresent d e) (λ x. Unit)
        (λ x d d' q a k. ack-IsPresent now e x d d' a k)
        (λ x d q k. quarantine-IsPresent now e x d k) es s
        (All-intro (λ (x : Event). Unit) (λ x. tt) es)

  -- The workspace is drained of its events.
  abbrev pub IsDrained : Bool → List Event → Run S → Drain S → Type 0
  IsDrained any es run d =
      (d.outcome ≡ drained)
      × (d.any_quarantined ≡ any)
      × All (IsDone d.run.service.db) es
      × (d.run.service.config ≡ run.service.config)
      × (d.run.service.senders ≡ run.service.senders)

  drain_step :
      (n : ℕ) (w : String) (mark : Bool) (e : Event) (es : List Event) (run : Run S) (body : String)
      → (o.send run.server w body).1 ≡ none
      → batch o.codec (take window_size (e ∷ es)) ≡ ok body
      → (ack_window o now (take window_size (e ∷ es)) run.service).1 ≡ none
      → drain o (suc n) now w mark (e ∷ es) run
        ≡ drain o n now w mark (drop window_size (e ∷ es)) (record {
          service = (ack_window o now (take window_size (e ∷ es)) run.service).0;
          server = (o.send run.server w body).0;
        })
  unfolding drain
  drain_step n w mark e es run body a b c = rw (b, a, c, drain) refl

  drained-IsDone :
      (e : Event) (n : ℕ) (w : String) (mark : Bool) (es : List Event) (run : Run S)
      → IsDone run.service.db e
      → IsDone (drain o n now w mark es run).run.service.db e
  drained-IsDone e n w mark es run =
      drain-keeps o now (λ d. IsDone d e) (λ x. Unit) (λ x d d' q a k. ack-IsDone now e x d d' a k)
        (λ x d q k. quarantine-IsDone now e x d k) n w mark es run
        (All-intro (λ (x : Event). Unit) (λ x. tt) es)

  pub drain_drains :
      IsAccepting o
      → (n : ℕ) (w : String) (mark : Bool) (es : List Event) (run : Run S) → length es ≤ n
      → All (IsSendable o.codec w) es
      → All (IsPresent run.service.db) es
      → IsDrained mark es run (drain o n now w mark es run)
  unfolding drain
  drain_drains accepts zero w mark [] run b h k = (refl, refl, tt, refl, refl)
  drain_drains accepts zero w mark (e ∷ es) run b h k = absurd (omega arith)
  drain_drains accepts (suc n) w mark [] run b h k = (refl, refl, tt, refl, refl)
  drain_drains accepts (suc n) w mark (e ∷ es) run b h k =
      let window = take window_size (e ∷ es) in
      let later = drop window_size (e ∷ es) in
      let body = o.codec.marshal_batch (map (λ (x : Event). x.payload) window) in
      let built : batch o.codec window ≡ ok body = (batch_iff o.codec e (take 99 es) body).1 (
        omega (arith, length-take 99 es),
        subst (λ v. All (IsSendable o.codec v) window) (sym (h.0.0))
            (All-take (IsSendable o.codec w) window_size (e ∷ es) h),
        refl,
      ) in
      let acks =
        ack_window_acks window run.service
          (All-take (IsPresent run.service.db) window_size (e ∷ es) k) in
      let service = (ack_window o now window run.service).0 in
      let next : Run S = record { service = service; server = (o.send run.server w body).0 } in
      let rest =
        drain_drains accepts n w mark later next (omega (arith, length-drop window_size (e ∷ es)))
          (All-drop (IsSendable o.codec w) window_size (e ∷ es) h)
          (All-mono (IsPresent run.service.db) (IsPresent service.db)
            (λ x p. still-IsPresent x window run.service p) later
            (All-drop (IsPresent run.service.db) window_size (e ∷ es) k)) in
      let d = drain o n now w mark later next in
      let done : All (IsDone d.run.service.db) window =
        All-mono (IsDone service.db) (IsDone d.run.service.db)
          (λ x p. drained-IsDone x n w mark later next p) window acks.1 in
      let all : All (IsDone d.run.service.db) (e ∷ es) =
        subst (All (IsDone d.run.service.db)) (take-append-drop window_size (e ∷ es))
          (All-append (IsDone d.run.service.db) window later done rest.2) in
      subst (IsDrained mark (e ∷ es) run)
        (sym (drain_step n w mark e es run body (accepts run.server w body) built acks.0))
        (rest.0, rest.1, all, rest.3 ∙ acks.2, rest.4 ∙ acks.3)

  pub drained-IsPresent :
      (e : Event) (n : ℕ) (w : String) (mark : Bool) (es : List Event) (run : Run S)
      → IsPresent run.service.db e
      → IsPresent (drain o n now w mark es run).run.service.db e
  drained-IsPresent e n w mark es run =
      drain-keeps o now (λ d. IsPresent d e) (λ x. Unit)
        (λ x d d' q a k. ack-IsPresent now e x d d' a k)
        (λ x d q k. quarantine-IsPresent now e x d k) n w mark es run
        (All-intro (λ (x : Event). Unit) (λ x. tt) es)
