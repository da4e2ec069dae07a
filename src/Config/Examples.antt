-- ===== src/Config/Examples.antt =====
-- Runs of internal/config/config.go on a small profile.
use overgent.Prelude.{String, ◌≡◌, refl, ◌≢◌, true, none, [], ◌∷◌, is_some}
use overgent.Config.{
  Config, Backend, Workspace, device_mismatch, backend_by_id, bound_to, backend_for_project,
  workspaces_for_project, bind_project, rebind_project, remove_project, remove_backend,
  backend_for_origin, new_backend, upsert_backend,
}
use overgent.Config.Origin.{Platform}
use overgent.Config.Binding.{rebind_resolves}
use overgent.Config.WellFormed.{IsWellFormed, Edits-IsWellFormed, here, next, rebind, bind}
use overgent.Config.Removal.{remove_backend_exact}

abbrev platform : Platform
platform = record { digest16 = λ s. s; url_parse = λ s. none; ip_is_loopback = λ s. none }

abbrev acme : Backend
acme = record { id = "bk_acme"; api_base_url = "https://acme"; device_id = "d1"; kind = "team" }

abbrev home : Backend
home = record {
  id = "bk_home";
  api_base_url = "http://localhost";
  device_id = "d2";
  kind = "local";
}

abbrev repository : Workspace
repository = record {
  id = "w1";
  project_id = "p1";
  workstream = "ws1";
  root = "/r";
  baseline = "b";
  fingerprint = "f";
  member_id = "m";
  session_id = "s";
}

abbrev profile : Config
profile = record {
  version = 2;
  backends = acme ∷ home ∷ [];
  projects =
      record { id = "p1"; backend_id = "bk_acme" }
      ∷ record { id = "p2"; backend_id = "bk_home" }
      ∷ [];
  workspaces = repository ∷ [];
}

abbrev moved : Config
moved = record profile {
  projects =
      record { id = "p1"; backend_id = "bk_home" }
      ∷ record { id = "p2"; backend_id = "bk_home" }
      ∷ [];
}

abbrev nobody : Config
nobody = record { version = 2; backends = []; projects = []; workspaces = [] }

abbrev enrolled : Backend
enrolled = new_backend platform "https://o.example" "d1"

rebind_resolves_example :
    (backend_for_project moved "p1" ≡ backend_by_id profile "bk_home")
    × (is_some (backend_for_project moved "p1") ≡ true)
    × ((j : String) → "p1" ≢ j → backend_for_project moved j ≡ backend_for_project profile j)
    × (moved.backends ≡ profile.backends)
    × (moved.workspaces ≡ profile.workspaces)
unfolding rebind_project backend_by_id overgent.Prelude.Tables.find overgent.Config.rebind_loop
rebind_resolves_example = rebind_resolves profile moved "p1" "bk_home" refl

remove_backend_exact_example : backend_by_id (remove_backend profile "bk_acme").0 "bk_acme" ≡ none
remove_backend_exact_example = (remove_backend_exact profile "bk_acme").0

profile-IsWellFormed : IsWellFormed profile
unfolding overgent.Prelude.Tables.Rows.distinct overgent.Prelude.Tables.any
profile-IsWellFormed = record {
  backends_distinct = refl;
  projects_distinct = refl;
  bindings_known = (refl, (refl, tt));
}

Edits-IsWellFormed_example : IsWellFormed moved
unfolding rebind_project backend_by_id overgent.Prelude.Tables.find overgent.Config.rebind_loop
    overgent.Config.WellFormed.AreEnrolled overgent.Config.WellFormed.IsEnrolled bind_project
    overgent.Config.bind_loop
Edits-IsWellFormed_example =
    Edits-IsWellFormed platform profile-IsWellFormed
      (next (next here (rebind "p1" "bk_home" refl)) (bind "p2" "bk_home")) ((tt, tt), refl)
