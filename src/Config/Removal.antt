-- ===== src/Config/Removal.antt =====
-- `RemoveProject` and `RemoveBackend`.
use overgent.Prelude.{
  ◌+◌, String, ◌≡◌, refl, ap, ◌≢◌, inl, inr, Bool, false, none, List, [], ◌∷◌, map, arith, str_eq,
  eq_iff, if◌then◌else◌, str_eq→eq, Bool-cases, length,
}
use overgent.Prelude.Tables.{
  select, delete, any, any-find, any-delete_self, find-delete_ne, select-delete_ne,
  select-delete_self, length-select-delete, select-delete_all,
}
use overgent.Config.{
  Config, Project, has_id, names, lives_on, belongs_to, cleared_with, backend_by_id, remove_project,
  remove_backend, backend_for_project, bound_to, workspaces_for_project, projects_for_backend,
}

bound_to-delete_self : (id : String) (ps : List Project) → bound_to id (delete (names id) ps) ≡ none
unfolding bound_to delete
bound_to-delete_self id [] = refl
bound_to-delete_self id (q ∷ ps) = ground (arith, bound_to-delete_self id ps)

bound_to-delete_ne :
    (id j : String) (ps : List Project) → id ≢ j → bound_to j (delete (names id) ps) ≡ bound_to j ps
unfolding bound_to delete
bound_to-delete_ne id j [] n = refl
bound_to-delete_ne id j (q ∷ ps) n =
    ground (arith, bound_to-delete_ne id j ps n, eq_iff q.id id, eq_iff q.id j)

-- Removing a Project returns exactly the repositories registered to it, leaves none of them and no
-- binding behind, and changes neither the backends nor any other Project's backend or repositories.
remove_project_exact :
    (c : Config) (id : String)
    → id ≢ ""
    → let (d, cleared) = remove_project c id in
      (cleared ≡ workspaces_for_project c id)
      × (workspaces_for_project d id ≡ [])
      × (backend_for_project d id ≡ none)
      × (d.backends ≡ c.backends)
      × (length cleared + length d.workspaces ≡ length c.workspaces)
      × ((j : String)
          → id ≢ j
          → (backend_for_project d j ≡ backend_for_project c j)
            × (workspaces_for_project d j ≡ workspaces_for_project c j))
unfolding remove_project workspaces_for_project backend_for_project
remove_project_exact c id n =
    let named : str_eq id "" ≡ false = ground (arith, eq_iff id "") in
    rw named (
      refl,
      select-delete_self (belongs_to id) c.workspaces,
      ground (arith, bound_to-delete_self id c.projects),
      refl,
      length-select-delete (belongs_to id) c.workspaces,
      λ j m. (
        ground (arith, bound_to-delete_ne id j c.projects m),
        select-delete_ne (belongs_to id) (belongs_to j) c.workspaces
            (λ w e. ground (arith, eq_iff w.project_id id, eq_iff w.project_id j)),
      ),
    )

-- A Project that a backend holds.
abbrev pub is_held : Config → String → String → Bool
is_held c id j = any (names j) (select (lives_on id) c.projects)

-- Removing a backend forgets it and the Projects on it, keeps every other backend with its Projects,
-- forgets the repositories of the Projects that it held and of no others, and reports how many.
pub remove_backend_exact :
    (c : Config) (id : String)
    → let (d, cleared) = remove_backend c id in
      (backend_by_id d id ≡ none)
      × (projects_for_backend d id ≡ [])
      × (cleared + length d.workspaces ≡ length c.workspaces)
      × ((j : String) → id ≢ j → backend_by_id d j ≡ backend_by_id c j)
      × ((j : String) → id ≢ j → projects_for_backend d j ≡ projects_for_backend c j)
      × ((j : String)
          → workspaces_for_project d j
            ≡ (if is_held c id j then [] else workspaces_for_project c j))
unfolding remove_backend backend_by_id projects_for_backend workspaces_for_project
remove_backend_exact c id = (
  ground (
    arith,
    any-find (has_id id) (delete (has_id id) c.backends),
    any-delete_self (has_id id) c.backends,
  ),
  ap (map (λ (q : Project). q.id)) (select-delete_self (lives_on id) c.projects),
  length-select-delete (cleared_with c id) c.workspaces,
  λ j n.
      find-delete_ne (has_id id) (has_id j) c.backends
        (λ b e. ground (arith, eq_iff b.id id, eq_iff b.id j)),
  λ j n. ap (map (λ (q : Project). q.id)) (
      select-delete_ne (lives_on id) (lives_on j) c.projects
        (λ q e. ground (arith, eq_iff q.backend_id id, eq_iff q.backend_id j))),
  λ j. elim (Bool-cases (is_held c id j)) [
    | inl e ↦ rw e (
        select-delete_all (cleared_with c id) (belongs_to j) c.workspaces
          (λ w m. rw (str_eq→eq w.project_id j m) e))
    | inr e ↦ rw e (
        select-delete_ne (cleared_with c id) (belongs_to j) c.workspaces
          (λ w m. rw (str_eq→eq w.project_id j m) e))
  ],
)
