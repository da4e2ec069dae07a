-- ===== src/Publisher/Stamps.antt =====
-- A flush only stamps rows of the queue, and never those of a paused workspace.
use overgent.Prelude.{
  ℕ, String, ◌≡◌, refl, ap, ◌∙◌, inl, inr, Bool, true, false, none, List, [], ◌∷◌, map, arith,
  str_eq, eq_iff, str_eq→eq, Bool-cases, Option-cases, All, All-intro, All-mono, ok,
}
use overgent.Prelude.Tables.{find, select, update, any, update-none}
use overgent.Prelude.Tables.Rows.{All-select, distinct, All-selected}
use overgent.Prelude.Tables.Order.{All-sort_by}
use overgent.Store
use overgent.Store.{Db, Event, is_event, event_of, empty_db}
use overgent.Store.Queue.{
  pending, ack, ack_row, quarantine, quarantine_row, unacked, is_pending, in_order,
}
use overgent.Store.Workspaces.{workspaces}
use overgent.Store.Sequences.Reachable.{Reach, Step, here, next, acked, quarantined}
use overgent.Publisher.{Outside, Run, flush, to_send, is_paused}
use overgent.Publisher.Keeps.{flush-keeps}

-- An event without what a flush may write on it.
abbrev pub unstamped : Event → Event
unstamped e = record e { acked_at = none; quarantined_at = none }

-- A database without the queue and the cursors.
abbrev pub beside_queue : Db → Db
beside_queue db = record db { event_queue = []; cursors = [] }

unstamped-update :
    (q : Event → Bool) (f : Event → Event) (es : List Event)
    → ((e : Event) → unstamped (f e) ≡ unstamped e)
    → map unstamped (update q f es) ≡ map unstamped es
unfolding update
unstamped-update q f [] h = refl
unstamped-update q f (e ∷ es) h = elim (Bool-cases (q e)) [
  | inl b ↦ rw (b, h e, unstamped-update q f es h) refl
  | inr b ↦ rw (b, unstamped-update q f es h) refl
]

abbrev IsStamped : Db → Db → Type 0
IsStamped db db' =
    (map unstamped db'.event_queue ≡ map unstamped db.event_queue)
    × (beside_queue db' ≡ beside_queue db)

-- The two ways in which an acknowledgement and a quarantine change a table.
pub ack_shape :
    (now : ℕ) (id : String) (db db' : Db)
    → ack now id db ≡ ok db'
    → (db'.event_queue ≡ update (is_event id) (ack_row now) db.event_queue)
      × (beside_queue db' ≡ beside_queue db)
unfolding ack
ack_shape now id db db' h = elim (Option-cases (find (is_event id) db.event_queue)) [
  | inl e ↦ absurd (ground arith)
  | inr (x, e) ↦ ground arith
]

module _ {S : Type 0} (o : Outside S) where
  -- Whatever the backends answer, a flush neither adds, drops, reorders nor rewrites a queued event:
  -- it only sets the two times on which an event stops being pending, and writes to no other table
  -- than the queue and the cursors.
  pub flush_only_stamps :
      (now : ℕ) (run : Run S)
      → let db = run.service.db in
        let db' = (flush o now run).0.service.db in
        (map unstamped db'.event_queue ≡ map unstamped db.event_queue)
        × (beside_queue db' ≡ beside_queue db)
  unfolding quarantine update
  flush_only_stamps now run =
      flush-keeps o now (IsStamped run.service.db) (λ e. Unit)
        (λ e db db' q h k.
          let shape = ack_shape now e.id db db' h in
          (
            ap (map unstamped) (shape.0)
                ∙ (unstamped-update (is_event e.id) (ack_row now) db.event_queue (λ x. refl) ∙ k.0),
            shape.1 ∙ k.1,
          ))
        (λ e db q k. (
          unstamped-update (unacked e.id) (quarantine_row now) db.event_queue (λ x. refl) ∙ k.0,
          k.1,
        ))
        run
        (All-intro (λ (e : Event). Unit) (λ e. tt)
          (select (to_send (workspaces run.service.db)) (pending run.service.db)))
        (refl, refl)

  abbrev pub is_answer : {db db' : Db} → Step o.codec db db' → Bool
  is_answer (acked now id h) = true
  is_answer (quarantined now id) = true
  is_answer _ = false

  -- Every transaction acknowledges or quarantines.
  unfoldable pub AreAnswers : {db db' : Db} → Reach o.codec db db' → Type 0
  AreAnswers here = Unit
  AreAnswers (next r s) = AreAnswers r × (is_answer s ≡ true)

  -- A flush takes the database by a sequence of the store's own transactions from what it was to what
  -- it becomes, whatever the backends answer: by acknowledgements and quarantines alone.
  pub flush_reaches :
      (now : ℕ) (run : Run S)
      → (r : Reach o.codec run.service.db (flush o now run).0.service.db) × AreAnswers r
  unfolding AreAnswers
  flush_reaches now run =
      flush-keeps o now (λ db. (r : Reach o.codec run.service.db db) × AreAnswers r) (λ e. Unit)
        (λ e db db' q h k. (next k.0 (acked now e.id h), (k.1, refl)))
        (λ e db q k. (next k.0 (quarantined now e.id), (k.1, refl))) run
        (All-intro (λ (e : Event). Unit) (λ e. tt)
          (select (to_send (workspaces run.service.db)) (pending run.service.db)))
        (here, tt)

select-update :
    (r q : Event → Bool) (f : Event → Event) (es : List Event)
    → ((e : Event) → r (f e) ≡ r e)
    → select r (update q f es) ≡ update q f (select r es)
unfolding select update
select-update r q f [] h = refl
select-update r q f (e ∷ es) h = ground (arith, h e, select-update r q f es h)

any-select : (r q : Event → Bool) (es : List Event) → any q es ≡ false → any q (select r es) ≡ false
unfolding any select
any-select r q [] h = refl
any-select r q (e ∷ es) h = ground (arith, any-select r q es)

-- No event of the workspace has the id of one of another workspace.
abbrev IsApart : String → List Event → Event → Type 0
IsApart w es e =
    str_eq e.workspace_id w ≡ false → any (is_event e.id) (select (event_of w) es) ≡ false

IsApart-tail :
    (w : String) (e : Event) (es xs : List Event)
    → any (is_event e.id) xs ≡ false
    → All (IsApart w es) xs
    → All (IsApart w (e ∷ es)) xs
unfolding any select
IsApart-tail w e es [] h k = tt
IsApart-tail w e es (x ∷ xs) h k = (
  λ m. ground (arith, k.0 m, eq_iff x.id e.id, eq_iff e.id x.id),
  IsApart-tail w e es xs (ground arith) k.1,
)

All-IsApart :
    (w : String) (es : List Event)
    → distinct (λ (e : Event). e.id) es ≡ true
    → All (IsApart w es) es
unfolding distinct select
All-IsApart w [] h = tt
All-IsApart w (e ∷ es) h = (
  λ m. ground (arith, any-select (event_of w) (is_event e.id) es),
  IsApart-tail w e es es (ground arith) (All-IsApart w es (ground arith)),
)

any-unacked :
    (id : String) (es : List Event) → any (is_event id) es ≡ false → any (unacked id) es ≡ false
unfolding any
any-unacked id [] h = refl
any-unacked id (e ∷ es) h = ground (arith, any-unacked id es)

sent_elsewhere :
    (ws : List Store.Workspace) (w : String) (e : Event)
    → is_paused ws w ≡ true
    → to_send ws e ≡ true
    → str_eq e.workspace_id w ≡ false
sent_elsewhere ws w e p t = elim (Bool-cases (str_eq e.workspace_id w)) [
  | inr m ↦ m
  | inl m ↦
      let same : e.workspace_id ≡ w = str_eq→eq e.workspace_id w m in
      let q : is_paused ws e.workspace_id ≡ true = rw same p in absurd (ground (arith, q, t))
]

module _ {S : Type 0} (o : Outside S) where
  -- The queued events of a paused workspace stay exactly as they are in every flush, whatever the
  -- backends answer.
  pub paused_untouched :
      (now : ℕ) (w : String) (run : Run S)
      → is_paused (workspaces run.service.db) w ≡ true
      → distinct (λ (e : Event). e.id) run.service.db.event_queue ≡ true
      → select (event_of w) (flush o now run).0.service.db.event_queue
        ≡ select (event_of w) run.service.db.event_queue
  unfolding pending quarantine update
  paused_untouched now w run p d =
      let queue = run.service.db.event_queue in
      let ws = workspaces run.service.db in
      let Q : Event → Type 0 = λ e. any (is_event e.id) (select (event_of w) queue) ≡ false in
      flush-keeps o now (λ db. select (event_of w) db.event_queue ≡ select (event_of w) queue) Q
        (λ e db db' q h k.
          ap (select (event_of w)) ((ack_shape now e.id db db' h).0)
          ∙ (select-update (event_of w) (is_event e.id) (ack_row now) db.event_queue (λ x. refl)
              ∙ (ap (update (is_event e.id) (ack_row now)) k
                  ∙ update-none (is_event e.id) (ack_row now) (select (event_of w) queue) q)))
        (λ e db q k.
          select-update (event_of w) (unacked e.id) (quarantine_row now) db.event_queue (λ x. refl)
          ∙ (ap (update (unacked e.id) (quarantine_row now)) k
              ∙ update-none (unacked e.id) (quarantine_row now) (select (event_of w) queue)
                  (any-unacked e.id (select (event_of w) queue) q)))
        run
        (All-selected Q (to_send ws) (pending run.service.db) (
          All-sort_by in_order (λ e. to_send ws e ≡ true → Q e) (select is_pending queue)
            (All-select (λ e. to_send ws e ≡ true → Q e) is_pending queue
              (All-mono (IsApart w queue) (λ e. to_send ws e ≡ true → Q e)
                (λ e a t. a (sent_elsewhere ws w e p t)) queue (All-IsApart w queue d)))))
        refl
