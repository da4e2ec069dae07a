-- ===== src/Store/Sequences/Reachable.antt =====
-- The store's operations as steps of the database, and what holds of every database reached.
use overgent.Store.Sequences.Others.{
  SameQueue, boot-SameQueue, claim-SameQueue, observe-SameQueue, unobserve-SameQueue,
  session-SameQueue, fingerprints-SameQueue, reads-SameQueue, focus-SameQueue, unfocus-SameQueue,
  unfocus_all-SameQueue, sweep-SameQueue,
}
use overgent.Prelude.{
  ℕ, ◌+◌, String, ◌≡◌, inl, inr, Bool, true, false, Option, some, List, [], ◌∷◌, ◌++◌, arith,
  str_eq→eq, Option-cases, ok,
}
use overgent.Prelude.Int.{ℤ}
use overgent.Prelude.Tables.{find, update, any, find_holds}
use overgent.Store.{
  Db, Codec, WorkspaceRow, Workspace, InjectionItem, AgentSession, ReadSetEntry, is_workspace,
  is_event, insert_event, empty_db, boot,
}
use overgent.Store.Payload.{Json}
use overgent.Store.Queue.{
  queued, set_sequence, enqueue_event, ack, quarantine, cleanup_acknowledged,
}
use overgent.Store.Workspaces.{
  upsert_workspace, rebind_workspace, delete_workspace, set_paused, set_project_paused,
}
use overgent.Store.Lifecycle
use overgent.Store.Lifecycle.{publish_lifecycle, publish_new, is_key, events}
use overgent.Store.Manifests
use overgent.Store.Manifests.{publish_manifest}
use overgent.Store.Deliveries.{claim_injection_deliveries}
use overgent.Store.Sessions.{
  record_agent_observation, clear_agent_observation, record_agent_session,
}
use overgent.Store.Focus.{set_focus, clear_focus, clear_all_focus, active_focus}
use overgent.Store.Contracts.{changed_fingerprints, changed_read_set, Observed}
use overgent.Store.Sequences.{IsNumbered, no_clash}
use overgent.Store.Sequences.Steps.{enqueue-IsNumbered, lifecycle-IsNumbered, manifest-IsNumbered}
use overgent.Store.Sequences.Registration.{
  may_enrol, upsert-IsNumbered, rebind-IsNumbered, delete-IsNumbered, pause-IsNumbered,
  pause_project-IsNumbered,
}
use overgent.Store.Sequences.Upkeep.{ack-IsNumbered, quarantine-IsNumbered, cleanup-IsNumbered}

module _ (codec : Codec) where
  -- One transaction that commits.
  pub data Step (db : Db) : Db → Type 0 where
    booted : Step db (boot db).0
    enqueued :
        {db' : Db} (now : ℕ) (workspace id source kind : String) (payload : Json)
        → enqueue_event codec now workspace id source kind payload db ≡ ok db'
        → Step db db'
    published :
        {db' : Db} (now : ℕ) (q : Lifecycle.Publication) (r : ℕ) (duplicate : Bool)
        → publish_lifecycle codec now q db ≡ ok (db', r, duplicate)
        → Step db db'
    manifest :
        {db' : Db} (now : ℕ) (q : Manifests.Publication) (r : ℕ)
        → publish_manifest codec now q db ≡ ok (db', r)
        → Step db db'
    upserted :
        {db' : Db} (now : ℕ) (w : Workspace)
        → upsert_workspace codec now w db ≡ ok db'
        → Step db db'
    rebound :
        {db' : Db} (id device backend : String)
        → rebind_workspace id device backend db ≡ ok db'
        → Step db db'
    deleted : {db' : Db} (id : String) → delete_workspace id db ≡ ok db' → Step db db'
    paused : {db' : Db} (id : String) (p : Bool) → set_paused id p db ≡ ok db' → Step db db'
    paused_project :
        {db' : Db} (id : String) (p : Bool) (n : ℕ)
        → set_project_paused id p db ≡ ok (db', n)
        → Step db db'
    acked : {db' : Db} (now : ℕ) (id : String) → ack now id db ≡ ok db' → Step db db'
    quarantined : (now : ℕ) (id : String) → Step db (quarantine now id db)
    cleaned : (before : ℕ) → Step db (cleanup_acknowledged before db).0
    claimed :
        {db' : Db} (now : ℕ) (session : String) (items got : List InjectionItem)
        → claim_injection_deliveries now session items db ≡ ok (db', got)
        → Step db db'
    observed :
        {db' : Db} (at : ℕ) (workspace vendor : String)
        → record_agent_observation at workspace vendor db ≡ ok db'
        → Step db db'
    unobserved : (workspace vendor : String) → Step db (clear_agent_observation workspace vendor db)
    met :
        {db' : Db} (at : Option ℕ) (s : AgentSession)
        → record_agent_session at s db ≡ ok db'
        → Step db db'
    fingerprinted :
        {db' : Db} (now : ℕ) (workspace : String) (os : List Observed) (changed : List String)
        → changed_fingerprints now workspace os db ≡ ok (db', changed)
        → Step db db'
    read :
        {db' : Db} (workspace session : String) (es changed : List ReadSetEntry)
        → changed_read_set workspace session es db ≡ ok (db', changed)
        → Step db db'
    focused :
        {db' : Db} (session : String) (now until : ℕ) (d : ℤ)
        → set_focus session now d db ≡ ok (db', until)
        → Step db db'
    unfocused : (session : String) → Step db (clear_focus session db)
    unfocused_all : Step db (clear_all_focus db).0
    swept : (now : ℕ) → Step db (active_focus now db).0

  pub data Reach (db : Db) : Db → Type 0 where
    here : Reach db db
    next : {mid db' : Db} → Reach db mid → Step mid db' → Reach db db'

  -- A transaction that registers no workspace anew over events that are queued under its id.
  unfoldable pub IsOrderly : {db db' : Db} → Step db db' → Type 0
  IsOrderly {db} (upserted now w h) = may_enrol w db ≡ true
  IsOrderly _ = Unit

  unfoldable pub AreOrderly : {db db' : Db} → Reach db db' → Type 0
  unfolding IsOrderly
  AreOrderly here = Unit
  AreOrderly (next r s) = AreOrderly r × IsOrderly s

  publish-IsNumbered :
      (now : ℕ) (q : Lifecycle.Publication) (db db' : Db) (r : ℕ) (duplicate : Bool)
      → publish_lifecycle codec now q db ≡ ok (db', r, duplicate)
      → IsNumbered db
      → IsNumbered db'
  unfolding publish_lifecycle
  publish-IsNumbered now q db db' r duplicate h k =
      elim (Option-cases (find (is_key q) db.idempotency_keys)) [
        | inl e ↦ lifecycle-IsNumbered codec now q db db' r duplicate (ground arith) k
        | inr (key, e) ↦ let same : db ≡ db' = ground arith in rw (← same) k
      ]

  other-IsNumbered : (db db' : Db) → SameQueue db db' → IsNumbered db → IsNumbered db'
  other-IsNumbered db db' same k = rw (same.0) (rw (same.1) k)

  pub Step-IsNumbered :
      {db db' : Db} → (t : Step db db') → IsOrderly t → IsNumbered db → IsNumbered db'
  unfolding IsOrderly
  Step-IsNumbered {db} booted o k = other-IsNumbered db (boot db).0 (boot-SameQueue db) k
  Step-IsNumbered {db} {db'} (enqueued now workspace id source kind payload h) o k =
      enqueue-IsNumbered codec now workspace id source kind payload db db' h k
  Step-IsNumbered {db} {db'} (published now q r duplicate h) o k =
      publish-IsNumbered now q db db' r duplicate h k
  Step-IsNumbered {db} {db'} (manifest now q r h) o k = manifest-IsNumbered codec now q db db' r h k
  Step-IsNumbered {db} {db'} (upserted now w h) m k = upsert-IsNumbered codec now w db db' m h k
  Step-IsNumbered {db} {db'} (rebound id device backend h) o k =
      rebind-IsNumbered id device backend db db' h k
  Step-IsNumbered {db} {db'} (deleted id h) o k = delete-IsNumbered id db db' h k
  Step-IsNumbered {db} {db'} (paused id p h) o k = pause-IsNumbered id p db db' h k
  Step-IsNumbered {db} {db'} (paused_project id p n h) o k =
      pause_project-IsNumbered id p db db' n h k
  Step-IsNumbered {db} {db'} (acked now id h) o k = ack-IsNumbered now id db db' h k
  Step-IsNumbered {db} (quarantined now id) o k = quarantine-IsNumbered now id db k
  Step-IsNumbered {db} (cleaned before) o k = cleanup-IsNumbered before db k
  Step-IsNumbered {db} {db'} (claimed now session items got h) o k =
      other-IsNumbered db db' (claim-SameQueue now session items got db db' h) k
  Step-IsNumbered {db} {db'} (observed at workspace vendor h) o k =
      other-IsNumbered db db' (observe-SameQueue at workspace vendor db db' h) k
  Step-IsNumbered {db} (unobserved workspace vendor) o k =
      other-IsNumbered db (clear_agent_observation workspace vendor db)
        (unobserve-SameQueue workspace vendor db) k
  Step-IsNumbered {db} {db'} (met at s h) o k =
      other-IsNumbered db db' (session-SameQueue at s db db' h) k
  Step-IsNumbered {db} {db'} (fingerprinted now workspace os changed h) o k =
      other-IsNumbered db db' (fingerprints-SameQueue now workspace os changed db db' h) k
  Step-IsNumbered {db} {db'} (read workspace session es changed h) o k =
      other-IsNumbered db db' (reads-SameQueue workspace session es changed db db' h) k
  Step-IsNumbered {db} {db'} (focused session now until d h) o k =
      other-IsNumbered db db' (focus-SameQueue session now until d db db' h) k
  Step-IsNumbered {db} (unfocused session) o k =
      other-IsNumbered db (clear_focus session db) (unfocus-SameQueue session db) k
  Step-IsNumbered {db} unfocused_all o k =
      other-IsNumbered db (clear_all_focus db).0 (unfocus_all-SameQueue db) k
  Step-IsNumbered {db} (swept now) o k =
      other-IsNumbered db (active_focus now db).0 (sweep-SameQueue now db) k

  -- Whatever transactions commit on a new database, in any order, no queued event is numbered past
  -- the counter of its workspace, as long as no workspace is registered anew while events are queued
  -- under its id.
  pub Reach-IsNumbered : {db : Db} → (r : Reach empty_db db) → AreOrderly r → IsNumbered db
  unfolding AreOrderly
  Reach-IsNumbered here o = tt
  Reach-IsNumbered (next r s) (o, p) = Step-IsNumbered s p (Reach-IsNumbered r o)

  -- On a database reached by transactions that register no workspace anew over events queued under
  -- its id, an event with a new id is never refused for a registered workspace: it is queued last, pending, under the number after the counter, and the
  -- counter moves onto it.
  pub enqueue_accepted :
      (now : ℕ) (workspace id source kind : String) (payload : Json) (db : Db) (row : WorkspaceRow)
      → (r : Reach empty_db db) → AreOrderly r
      → find (is_workspace workspace) db.workspaces ≡ some row
      → any (is_event id) db.event_queue ≡ false
      → enqueue_event codec now workspace id source kind payload db
        ≡ ok (record db {
          event_queue =
              db.event_queue ++ queued codec row now id (row.sequence + 1) source kind payload ∷ [];
          workspaces =
              update (is_workspace workspace) (set_sequence (row.sequence + 1)) db.workspaces;
        })
  unfolding enqueue_event insert_event
  enqueue_accepted now workspace id source kind payload db row r orderly found fresh =
      let new = queued codec row now id (row.sequence + 1) source kind payload in
      let owner : row.id ≡ workspace =
        str_eq→eq row.id workspace (find_holds (is_workspace workspace) db.workspaces row found) in
      ground (
        arith,
        found,
        no_clash workspace new row db.workspaces db.event_queue found owner (omega arith) fresh
            (Reach-IsNumbered r orderly),
      )
