-- ===== src/Publisher/Poison.antt =====
-- `retryIndividually` when the backend accepts some events and refuses the others for good.
use overgent.Publisher.{Outside, Run, Service}
use overgent.Prelude.{ℕ, String, ◌≡◌, Bool, true, ◌&&◌, Option, none, some, [], ◌∷◌, is_some, ok}
use overgent.Prelude.Tables.{any}
use overgent.Store.{Event, is_event, Db}
use overgent.Store.Queue.{unacked, batch}
use overgent.Publisher.Failures.{Failure, permanent_rejection}

-- The backend has decided on the event: it accepts it, or refuses it for good.
abbrev pub is_final : Option Failure → Bool
is_final none = true
is_final (some f) = permanent_rejection f

-- The row that the decision asks for: acknowledged when accepted, quarantined when refused.
abbrev pub is_settled : Option Failure → String → Event → Bool
is_settled none id x = is_event id x && is_some x.acked_at
is_settled (some f) id x = is_event id x && is_some x.quarantined_at

module _ {S : Type 0} (o : Outside S) (now : ℕ) (w : String) (verdict : Event → Option Failure)
    (answers : (s : S) (e : Event) (body : String)
      → batch o.codec (e ∷ []) ≡ ok body
      → (o.send s w body).1 ≡ verdict e) where
  abbrev body_of : Event → String
  body_of e = o.codec.marshal_batch (e.payload ∷ [])

  abbrev after_send : Run S → Event → Service → Run S
  after_send run e service = record {
    service = service;
    server = (o.send run.server w (body_of e)).0;
  }

  abbrev IsSettled : Db → Event → Type 0
  IsSettled db e = any (is_settled (verdict e) e.id) db.event_queue ≡ true

  abbrev IsUnacked : Db → Event → Type 0
  IsUnacked db e = any (unacked e.id) db.event_queue ≡ true
