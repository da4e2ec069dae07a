-- ===== src/Config.antt =====
-- internal/config/config.go: the profile's backends, Projects and registered repositories. A method
-- on a `Config` value returns the new value; Go's copies on write are what makes that faithful.
pub mod Origin
pub mod Binding
pub mod Enrolment
pub mod WellFormed
pub mod Removal
mod Examples
use Origin.{Platform, canonical_origin, backend_id, backend_kind}
use overgent.Prelude.{
  ℕ, String, Bool, true, false, ◌&&◌, ◌||◌, Option, none, some, List, [], ◌∷◌, map, str_eq,
  if◌then◌else◌, is_some, length, Result, ok, err,
}
use overgent.Prelude.Tables.{find, select, delete, any}

pub record Workspace : Type 0 where
  pub id : String
  pub project_id : String
  pub workstream : String
  pub root : String
  pub baseline : String
  pub fingerprint : String
  pub member_id : String
  pub session_id : String

pub record Backend : Type 0 where
  pub id : String
  pub api_base_url : String
  pub device_id : String
  pub kind : String

pub record Project : Type 0 where
  pub id : String
  pub backend_id : String

pub record Config : Type 0 where
  pub version : ℕ
  pub backends : List Backend
  pub projects : List Project
  pub workspaces : List Workspace

pub data Error : Type 0 where
  url_required device_required device_mismatch : Error
  rebind_incomplete unknown_backend already_there unregistered_project : Error

abbrev pub version_written : ℕ
version_written = 2

abbrev pub has_id : String → Backend → Bool
has_id id b = str_eq b.id id

abbrev pub names : String → Project → Bool
names id project = str_eq project.id id

abbrev pub lives_on : String → Project → Bool
lives_on id project = str_eq project.backend_id id

abbrev pub belongs_to : String → Workspace → Bool
belongs_to id workspace = str_eq workspace.project_id id

unfoldable pub backend_by_id : Config → String → Option Backend
backend_by_id c id = find (has_id id) c.backends

-- The backend id that a Project's first entry names.
unfoldable pub bound_to : String → List Project → Option String
bound_to id [] = none
bound_to id (project ∷ rest) =
    if names id project then some project.backend_id else bound_to id rest

unfoldable pub backend_for_project : Config → String → Option Backend
unfolding backend_by_id
backend_for_project c id = elim (bound_to id c.projects) [
  | none ↦ none
  | some b ↦ backend_by_id c b
]

unfoldable pub backend_for_workspace : Config → Workspace → Option Backend
unfolding backend_for_project
backend_for_workspace c workspace = backend_for_project c workspace.project_id

unfoldable pub projects_for_backend : Config → String → List String
projects_for_backend c id = map (λ (q : Project). q.id) (select (lives_on id) c.projects)

unfoldable pub workspaces_for_project : Config → String → List Workspace
workspaces_for_project c id = select (belongs_to id) c.workspaces

-- The loop of `BindProject`: the first entry of that id is pointed at the backend, or one is added.
unfoldable pub bind_loop : String → String → List Project → List Project
bind_loop id target [] = record { id = id; backend_id = target } ∷ []
bind_loop id target (project ∷ rest) =
    let others = bind_loop id target rest in
    if names id project then record project { backend_id = target } ∷ rest else project ∷ others

unfoldable pub bind_project : Config → String → String → Config
bind_project c id target =
    if str_eq id "" || str_eq target ""
    then c
    else record c { projects = bind_loop id target c.projects }

-- The loop of `RebindProject`.
unfoldable pub rebind_loop : String → String → List Project → Result Error (List Project)
rebind_loop id target [] = err unregistered_project
rebind_loop id target (project ∷ rest) =
    let others = rebind_loop id target rest in
    if names id project
    then (if lives_on target project
        then err already_there
        else ok (record project { backend_id = target } ∷ rest))
    else elim others [ ok moved ↦ ok (project ∷ moved) | err e ↦ err e ]

unfoldable pub rebind_project : Config → String → String → Result Error Config
rebind_project c id target =
    if str_eq id "" || str_eq target ""
    then err rebind_incomplete
    else if is_some (backend_by_id c target)
    then elim (rebind_loop id target c.projects) [
      | ok moved ↦ ok (record c { projects = moved })
      | err e ↦ err e
    ]
    else err unknown_backend

unfoldable pub remove_project : Config → String → Config × List Workspace
remove_project c id = if str_eq id "" then (c, []) else (
  record c {
    projects = delete (names id) c.projects;
    workspaces = delete (belongs_to id) c.workspaces;
  },
  select (belongs_to id) c.workspaces,
)

-- A repository whose Project is one of those that live on the backend.
abbrev pub cleared_with : Config → String → Workspace → Bool
cleared_with c id workspace = any (names workspace.project_id) (select (lives_on id) c.projects)

unfoldable pub remove_backend : Config → String → Config × ℕ
remove_backend c id = (
  record c {
    backends = delete (has_id id) c.backends;
    projects = delete (lives_on id) c.projects;
    workspaces = delete (cleared_with c id) c.workspaces;
  },
  length (select (cleared_with c id) c.workspaces),
)

module _ (p : Platform) where
  unfoldable pub new_backend : String → String → Backend
  new_backend url device =
      let origin = canonical_origin url in
      record {
        id = backend_id p origin;
        api_base_url = origin;
        device_id = device;
        kind = backend_kind p origin;
      }

  unfoldable pub backend_for_origin : Config → String → Option Backend
  unfolding backend_by_id
  backend_for_origin c origin = backend_by_id c (backend_id p origin)

  unfoldable pub backend_target : Config → String → Backend
  unfolding backend_for_origin
  backend_target c url =
      let origin = canonical_origin url in
      elim (backend_for_origin c origin) [
        | some known ↦ known
        | none ↦ record {
          id = backend_id p origin;
          api_base_url = origin;
          device_id = "";
          kind = backend_kind p origin;
        }
      ]

-- The loop of `UpsertBackend`: `none` refuses a second device identity for a known backend.
unfoldable pub upsert_loop : Backend → List Backend → Option (List Backend)
upsert_loop next [] = some (next ∷ [])
upsert_loop next (existing ∷ rest) =
    let others = upsert_loop next rest in
    if has_id next.id existing
    then (if (if str_eq existing.device_id "" then false else true)
          && (if str_eq existing.device_id next.device_id then false else true)
        then none
        else some (next ∷ rest))
    else elim others [ none ↦ none | some backends ↦ some (existing ∷ backends) ]

module _ (p : Platform) where
  unfoldable pub upsert_backend : Config → String → String → Result Error (Config × Backend)
  unfolding new_backend
  upsert_backend c url device =
      let origin = canonical_origin url in
      if str_eq origin ""
      then err url_required
      else if str_eq device ""
      then err device_required
      else elim (upsert_loop (new_backend p origin device) c.backends) [
        | none ↦ err device_mismatch
        | some backends ↦ ok (record c { backends = backends }, new_backend p origin device)
      ]

abbrev bind_all : String → List Workspace → Config → Config
bind_all id [] c = c
bind_all id (w ∷ ws) c = bind_all id ws (bind_project c w.project_id id)

module _ (p : Platform) where
  unfoldable pub single : String → String → List Workspace → Config
  unfolding new_backend bind_project
  single url device workspaces =
      let c : Config = record {
        version = version_written;
        backends = [];
        projects = [];
        workspaces = workspaces;
      } in
      if str_eq (canonical_origin url) "" || str_eq device ""
      then c
      else bind_all (new_backend p url device).id workspaces
          (record c { backends = new_backend p url device ∷ [] })
