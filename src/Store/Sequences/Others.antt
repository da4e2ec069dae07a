-- ===== src/Store/Sequences/Others.antt =====
-- The operations that touch neither the queue nor the workspaces.
use overgent.Prelude.{ℕ, String, ◌≡◌, refl, Option, none, some, List, arith, ok}
use overgent.Prelude.Int.{ℤ}
use overgent.Store.{Db, InjectionItem, AgentSession, ReadSetEntry, boot}
use overgent.Store.Deliveries.{claim_injection_deliveries}
use overgent.Store.Sessions.{
  record_agent_observation, clear_agent_observation, record_agent_session,
}
use overgent.Store.Focus.{set_focus, clear_focus, clear_all_focus, active_focus}
use overgent.Store.Contracts.{changed_fingerprints, changed_read_set, Observed}

abbrev pub SameQueue : Db → Db → Type 0
SameQueue db db' = (db'.workspaces ≡ db.workspaces) × (db'.event_queue ≡ db.event_queue)

pub boot-SameQueue : (db : Db) → SameQueue db (boot db).0
unfolding boot
boot-SameQueue db = (refl, refl)

pub claim-SameQueue :
    (now : ℕ) (session : String) (items got : List InjectionItem) (db db' : Db)
    → claim_injection_deliveries now session items db ≡ ok (db', got)
    → SameQueue db db'
unfolding claim_injection_deliveries
claim-SameQueue now session items got db db' h = (ground arith, ground arith)

pub observe-SameQueue :
    (at : ℕ) (workspace vendor : String) (db db' : Db)
    → record_agent_observation at workspace vendor db ≡ ok db'
    → SameQueue db db'
unfolding record_agent_observation
observe-SameQueue at workspace vendor db db' h = (ground arith, ground arith)

pub unobserve-SameQueue :
    (workspace vendor : String) (db : Db)
    → SameQueue db (clear_agent_observation workspace vendor db)
unfolding clear_agent_observation
unobserve-SameQueue workspace vendor db = (refl, refl)

pub session-SameQueue :
    (at : Option ℕ) (s : AgentSession) (db db' : Db)
    → record_agent_session at s db ≡ ok db'
    → SameQueue db db'
unfolding record_agent_session
session-SameQueue none s db db' h = cc
session-SameQueue (some t) s db db' h = (ground arith, ground arith)

pub fingerprints-SameQueue :
    (now : ℕ) (workspace : String) (os : List Observed) (changed : List String) (db db' : Db)
    → changed_fingerprints now workspace os db ≡ ok (db', changed)
    → SameQueue db db'
unfolding changed_fingerprints
fingerprints-SameQueue now workspace os changed db db' h = (ground arith, ground arith)

pub reads-SameQueue :
    (workspace session : String) (es changed : List ReadSetEntry) (db db' : Db)
    → changed_read_set workspace session es db ≡ ok (db', changed)
    → SameQueue db db'
unfolding changed_read_set
reads-SameQueue workspace session es changed db db' h = (ground arith, ground arith)

pub focus-SameQueue :
    (session : String) (now until : ℕ) (d : ℤ) (db db' : Db)
    → set_focus session now d db ≡ ok (db', until)
    → SameQueue db db'
unfolding set_focus
focus-SameQueue session now until d db db' h = (ground arith, ground arith)

pub unfocus-SameQueue : (session : String) (db : Db) → SameQueue db (clear_focus session db)
unfolding clear_focus
unfocus-SameQueue session db = (refl, refl)

pub unfocus_all-SameQueue : (db : Db) → SameQueue db (clear_all_focus db).0
unfolding clear_all_focus
unfocus_all-SameQueue db = (refl, refl)

pub sweep-SameQueue : (now : ℕ) (db : Db) → SameQueue db (active_focus now db).0
unfolding active_focus
sweep-SameQueue now db = (refl, refl)
