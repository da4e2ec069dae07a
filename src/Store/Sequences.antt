-- ===== src/Store/Sequences.antt =====
-- The invariant of sequence numbers: no queued event is numbered past its workspace's counter.
pub mod Inserts
pub mod Steps
pub mod Registration
pub mod Upkeep
pub mod Others
pub mod Reachable
use overgent.Prelude.{
  ℕ, ◌≤◌, ◌<◌, String, ◌≡◌, refl, inl, inr, Bool, true, false, ◌||◌, not, some, List, [], ◌∷◌,
  arith, str_eq, eq_iff, leb, str_eq→eq, Bool-cases, All, All-mono,
}
use overgent.Prelude.Tables.{find, update, any, find_holds}
use overgent.Prelude.Tables.Rows.{All-update, All-find, All-delete}
use overgent.Store.{Db, Event, WorkspaceRow, is_workspace, is_event, clashes}

abbrev pub fits : Event → WorkspaceRow → Bool
fits e w = not (str_eq w.id e.workspace_id) || leb e.sequence w.sequence

abbrev pub FitsAll : List WorkspaceRow → Event → Type 0
FitsAll ws e = All (λ (w : WorkspaceRow). fits e w ≡ true) ws

abbrev pub Within : List WorkspaceRow → List Event → Type 0
Within ws es = All (FitsAll ws) es

abbrev pub IsNumbered : Db → Type 0
IsNumbered db = Within db.workspaces db.event_queue

-- A way to move one workspace's counter to `n`.
pub record Sets (n : ℕ) (f : WorkspaceRow → WorkspaceRow) : Type 0 where
  pub same_id : (w : WorkspaceRow) → (f w).id ≡ w.id
  pub counter : (w : WorkspaceRow) → (f w).sequence ≡ n

module _ (id : String) (n : ℕ) (f : WorkspaceRow → WorkspaceRow) (sets : Sets n f) where
  -- An event of the workspace up to `n` fits once the counter stands at `n`.
  pub new_fits :
      (e : Event) (ws : List WorkspaceRow)
      → e.workspace_id ≡ id
      → e.sequence ≤ n
      → FitsAll (update (is_workspace id) f ws) e
  unfolding update
  new_fits e [] h b = tt
  new_fits e (w ∷ ws) h b = elim (Bool-cases (is_workspace id w)) [
    | inl m ↦ rw m (ground (arith, sets.counter w), new_fits e ws h b)
    | inr m ↦ rw m (ground (arith, eq_iff w.id e.workspace_id, eq_iff w.id id), new_fits e ws h b)
  ]

  raised_row :
      (e : Event) (row w : WorkspaceRow)
      → row.id ≡ id
      → row.sequence ≤ n
      → fits e row ≡ true
      → is_workspace id w ≡ true
      → fits e (f w) ≡ true
  raised_row e row w r b h m = ground (
    arith,
    sets.counter w,
    sets.same_id w,
    eq_iff (f w).id e.workspace_id,
    eq_iff row.id e.workspace_id,
    eq_iff w.id id,
  )

  -- Moving the counter of a registered workspace up keeps the queue in range.
  pub raise-Within :
      (row : WorkspaceRow) (ws : List WorkspaceRow) (es : List Event)
      → find (is_workspace id) ws ≡ some row
      → row.sequence ≤ n
      → Within ws es
      → Within (update (is_workspace id) f ws) es
  raise-Within row ws es found b =
      All-mono (FitsAll ws) (FitsAll (update (is_workspace id) f ws))
        (λ e h.
          All-update (λ (w : WorkspaceRow). fits e w ≡ true) (λ (w : WorkspaceRow). fits e w ≡ true)
            (is_workspace id) f ws
            (λ w k m.
              raised_row e row w (str_eq→eq row.id id (find_holds (is_workspace id) ws row found)) b
                (All-find (λ (w : WorkspaceRow). fits e w ≡ true) (is_workspace id) ws row h found)
                m)
            (λ w k m. k) h)
        es

-- An event numbered past its workspace's counter and with a new id breaks no constraint.
pub no_clash :
    (id : String) (new : Event) (row : WorkspaceRow) (ws : List WorkspaceRow) (es : List Event)
    → find (is_workspace id) ws ≡ some row
    → new.workspace_id ≡ id
    → row.sequence < new.sequence
    → any (is_event new.id) es ≡ false
    → Within ws es
    → any (clashes new) es ≡ false
unfolding any
no_clash id new row ws [] found h b fresh k = refl
no_clash id new row ws (e ∷ es) found h b fresh k =
    let fit : fits e row ≡ true =
      All-find (λ (w : WorkspaceRow). fits e w ≡ true) (is_workspace id) ws row k.0 found in
    let named : row.id ≡ id = str_eq→eq row.id id (find_holds (is_workspace id) ws row found) in
    ground (
      arith,
      no_clash id new row ws es found h b,
      k.1,
      eq_iff row.id e.workspace_id,
      eq_iff e.workspace_id new.workspace_id,
    )
