-- ===== src/Store/Examples/Publishing.antt =====
-- Runs of the two publications of internal/store/store.go.
use overgent.Prelude.{String, ◌≡◌, refl, true, false, some, [], ◌∷◌, ok, err}
use overgent.Prelude.Tables.{find}
use overgent.Store.{Db, intent_conflict, is_workspace}
use overgent.Store.Payload.{null, text}
use overgent.Store.Lifecycle
use overgent.Store.Lifecycle.{publish_new, publish_lifecycle, events, set_counters, remember}
use overgent.Store.Lifecycle.Published.{published_exact}
use overgent.Store.Lifecycle.Idempotence.{one_revision_wins}
use overgent.Store.Manifests
use overgent.Store.Manifests.{publish_manifest, active_manifest, chunks, chunk_count}
use overgent.Store.Manifests.Chunks.{concat, chunks_exact}
use overgent.Store.Manifests.Published.{publish_manifest_exact}
use overgent.Store.Examples.{codec, row, small, first_of, published_of}

abbrev intent : String → String → Lifecycle.Publication
intent key kind = record {
  workspace_id = "w1";
  method = "intent";
  idempotency_key = key;
  source = "manual";
  kind = kind;
  payload = null;
  additional = [];
  expected_intent_revision = some 0;
  increment_intent_revision = true;
}

abbrev intended : Db
intended = published_of (publish_lifecycle codec 5 (intent "k1" "declared") small)

published_exact_example :
    (find (is_workspace "w1") intended.workspaces ≡ some (set_counters 3 1 row))
unfolding publish_new publish_lifecycle find
published_exact_example =
    (published_exact codec 5 (intent "k1" "declared") small intended row 1 false refl refl).4

one_revision_wins_example :
    publish_lifecycle codec 9 (intent "k2" "declared") intended ≡ err (intent_conflict 1)
unfolding publish_lifecycle
one_revision_wins_example =
    one_revision_wins codec 5 9 (intent "k1" "declared") (intent "k2" "declared") small intended 1 0
      refl refl refl refl refl refl refl refl

abbrev two_paths : Manifests.Publication
two_paths = record {
  workspace_id = "w1";
  manifest_id = "m1";
  baseline = "main";
  head = "h";
  hash = "x";
  event_id = "evt_m";
  entries = text "a" ∷ text "b" ∷ [];
}

abbrev listed : Db
listed = first_of (publish_manifest codec 5 two_paths small)

publish_manifest_exact_example : active_manifest "w1" listed ≡ ok (1, "x", two_paths.entries)
unfolding publish_manifest find
publish_manifest_exact_example =
    (publish_manifest_exact codec 5 two_paths small listed row 1 refl refl).1

chunks_exact_example :
    concat (chunks (chunk_count two_paths.entries) two_paths.entries) ≡ two_paths.entries
chunks_exact_example = (chunks_exact two_paths.entries).0
