-- ===== src/Store/Queue/Batches.antt =====
-- `Batch`: what a published window may hold.
use overgent.Prelude.{
  ◌≤◌, String, ◌≡◌, refl, ◌↔◌, true, none, List, [], ◌∷◌, map, arith, eq_iff, length, All, ok,
}
use overgent.Store.{Event, Codec}
use overgent.Store.Queue.{batch, check_window}

-- An event that may stand in a batch of the workspace.
abbrev pub IsSendable : Codec → String → Event → Type 0
IsSendable codec workspace e = (e.workspace_id ≡ workspace) × (codec.is_valid e.payload ≡ true)

check_window_complete :
    (codec : Codec) (w : String) (es : List Event)
    → All (IsSendable codec w) es
    → check_window codec w es ≡ none
unfolding check_window
check_window_complete codec w [] h = refl
check_window_complete codec w (e ∷ es) h =
    ground (arith, check_window_complete codec w es h.1, eq_iff e.workspace_id w)

check_window_sound :
    (codec : Codec) (w : String) (es : List Event)
    → check_window codec w es ≡ none
    → All (IsSendable codec w) es
unfolding check_window
check_window_sound codec w [] h = tt
check_window_sound codec w (e ∷ es) h = (
  (ground (arith, eq_iff e.workspace_id w), ground arith),
  check_window_sound codec w es (ground arith),
)

-- A batch is built exactly from 1 to 100 valid events of one workspace, and holds their payloads in
-- order.
pub batch_iff :
    (codec : Codec) (e : Event) (es : List Event) (body : String)
    → (batch codec (e ∷ es) ≡ ok body) ↔ (
        (length (e ∷ es) ≤ 100)
        × All (IsSendable codec e.workspace_id) (e ∷ es)
        × (body ≡ codec.marshal_batch (map (λ (x : Event). x.payload) (e ∷ es))))
unfolding batch
batch_iff codec e es body = (
  λ h.
      (ground arith, check_window_sound codec e.workspace_id (e ∷ es) (ground arith), ground arith),
  λ h. ground (arith, check_window_complete codec e.workspace_id (e ∷ es) h.1),
)
