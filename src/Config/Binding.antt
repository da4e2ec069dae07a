-- ===== src/Config/Binding.antt =====
-- `BindProject`, `RebindProject` and the resolution of a Project's backend.
use overgent.Prelude.{
  String, ◌≡◌, ◌≢◌, inl, inr, true, some, List, [], ◌∷◌, arith, str_eq, eq_iff, eq_refl,
  if◌then◌else◌, Bool-cases, is_some, ok, Result-cases,
}
use overgent.Config.{
  Config, Project, bind_loop, bind_project, rebind_loop, rebind_project, names, backend_for_project,
  backend_by_id, bound_to,
}

pub bound_to-bind_loop :
    (id target j : String) (ps : List Project)
    → bound_to j (bind_loop id target ps) ≡ (if str_eq id j then some target else bound_to j ps)
unfolding bind_loop bound_to
bound_to-bind_loop id target j [] = ground arith
bound_to-bind_loop id target j (x ∷ ps) =
    ground (arith, bound_to-bind_loop id target j ps, eq_iff x.id j, eq_iff x.id id, eq_iff id j)

pub bound_to-rebind_loop :
    (id target j : String) (ps qs : List Project)
    → rebind_loop id target ps ≡ ok qs
    → bound_to j qs ≡ (if str_eq id j then some target else bound_to j ps)
unfolding rebind_loop bound_to
bound_to-rebind_loop id target j [] qs h = cc
bound_to-rebind_loop id target j (x ∷ ps) qs h = elim (Result-cases (rebind_loop id target ps)) [
  | inl (moved, e) ↦ ground (
    arith,
    bound_to-rebind_loop id target j ps moved e,
    eq_iff x.id j,
    eq_iff x.id id,
    eq_iff id j,
  )
  | inr (f, e) ↦ ground (arith, eq_iff x.id j, eq_iff x.id id, eq_iff id j)
]

-- After a successful `RebindProject` the moved Project resolves to the backend named, which the
-- profile knows; every other Project resolves as before; and the backends and the registered
-- repositories are the same.
pub rebind_resolves :
    (c d : Config) (id target : String)
    → rebind_project c id target ≡ ok d
    → (backend_for_project d id ≡ backend_by_id c target)
      × (is_some (backend_for_project d id) ≡ true)
      × ((j : String) → id ≢ j → backend_for_project d j ≡ backend_for_project c j)
      × (d.backends ≡ c.backends)
      × (d.workspaces ≡ c.workspaces)
unfolding rebind_project backend_for_project
rebind_resolves c d id target h = elim (Result-cases (rebind_loop id target c.projects)) [
  | inl (moved, e) ↦ (
    ground (arith, bound_to-rebind_loop id target id c.projects moved e, eq_refl id),
    ground (arith, bound_to-rebind_loop id target id c.projects moved e, eq_refl id),
    λ j n. ground (arith, bound_to-rebind_loop id target j c.projects moved e, eq_iff id j),
    ground arith,
    ground arith,
  )
  | inr (f, e) ↦ absurd (ground arith)
]

rebind_loop_succeeds :
    (id target b : String) (ps : List Project)
    → bound_to id ps ≡ some b
    → b ≢ target
    → (qs : List Project) × (rebind_loop id target ps ≡ ok qs)
unfolding rebind_loop bound_to
rebind_loop_succeeds id target b [] h n = cc
rebind_loop_succeeds id target b (x ∷ ps) h n = elim (Bool-cases (names id x)) [
  | inl p ↦ (record x { backend_id = target } ∷ ps, ground (arith, eq_iff x.backend_id target))
  | inr p ↦
      let (qs, e) = rebind_loop_succeeds id target b ps (ground arith) n in (x ∷ qs, ground arith)
]

-- `RebindProject` is refused only for the four reasons of the code: a Project that is registered on
-- another backend moves to any backend that the profile knows.
pub rebind_succeeds :
    (c : Config) (id target b : String)
    → id ≢ ""
    → target ≢ ""
    → is_some (backend_by_id c target) ≡ true
    → bound_to id c.projects ≡ some b
    → b ≢ target
    → (d : Config) × (rebind_project c id target ≡ ok d)
unfolding rebind_project
rebind_succeeds c id target b i t k h n =
    let (qs, e) = rebind_loop_succeeds id target b c.projects h n in
    (record c { projects = qs }, ground (arith, eq_iff id "", eq_iff target ""))

-- A Project bound to a known backend resolves to it, and no other Project's resolution changes.
pub bind_resolves :
    (c : Config) (id target j : String)
    → id ≢ ""
    → target ≢ ""
    → backend_for_project (bind_project c id target) j
      ≡ (if str_eq id j then backend_by_id c target else backend_for_project c j)
unfolding bind_project backend_for_project
bind_resolves c id target j i t =
    ground (arith, bound_to-bind_loop id target j c.projects, eq_iff id "", eq_iff target "")
