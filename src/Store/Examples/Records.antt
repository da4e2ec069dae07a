-- ===== src/Store/Examples/Records.antt =====
-- Runs of the deliveries, focus and contract tables of internal/store/store.go.
use overgent.Prelude.{String, ◌≡◌, refl, List, [], ◌∷◌, All}
use overgent.Prelude.Int.{pos}
use overgent.Store.{Db, InjectionItem, ReadSetEntry}
use overgent.Store.Deliveries.{claim_injection_deliveries}
use overgent.Store.Deliveries.Once.{IsFresh}
use overgent.Store.Deliveries.Claims.{claim_once}
use overgent.Store.Focus.{set_focus}
use overgent.Store.Contracts.{Observed, by_path, changed_fingerprints, changed_read_set}
use overgent.Store.Contracts.Fingerprints.{fingerprints_settle}
use overgent.Store.Contracts.Observations.{drifted}
use overgent.Prelude.Tables.Order.{sort_by}
use overgent.Store.Examples.{small, first_of}

abbrev item : InjectionItem
item = record { id = "i1"; revision = 1 }

abbrev told : Db
told = first_of (claim_injection_deliveries 5 "x1" (item ∷ item ∷ []) small)

claim_once_example : All (IsFresh "x1" small.deliveries) (item ∷ [])
unfolding claim_injection_deliveries
claim_once_example = (claim_once 5 9 "x1" (item ∷ item ∷ []) (item ∷ []) small told refl).0

abbrev focused : Db
focused = first_of (set_focus "x1" 7 (pos 40000000000000) small)

abbrev observed : List Observed
observed = record { path = "b.go"; hash = "h2" } ∷ record { path = "a.go"; hash = "h1" } ∷ []

fingerprints_settle_example : "a.go" ∷ "b.go" ∷ [] ≡ drifted "w1" [] (sort_by by_path observed)
unfolding changed_fingerprints overgent.Prelude.Tables.Rows.distinct sort_by
    overgent.Prelude.Tables.Order.insert_by
fingerprints_settle_example =
    (fingerprints_settle 5 9 "w1" observed small
      (first_of (changed_fingerprints 5 "w1" observed small)) ("a.go" ∷ "b.go" ∷ []) refl refl).0

abbrev read : String → String → ReadSetEntry
read hash fidelity = record { path = "a.go"; hash = hash; observed_at = "t"; fidelity = fidelity }

abbrev traced : Db
traced = record small {
  read_sets = record { workspace_id = "w1"; session = "x1"; entry = read "h1" "observed" } ∷ [];
}

abbrev reread : Db
reread = first_of (changed_read_set "w1" "x1" (read "h2" "self_declared" ∷ []) traced)
