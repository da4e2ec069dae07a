-- ===== src/Config/WellFormed.antt =====
-- The invariant of a profile's configuration, and the operations as steps that keep it.
use overgent.Prelude.{
  String, ◌≡◌, refl, ◌∙◌, inl, inr, true, ◌||◌, List, [], ◌∷◌, arith, str_eq, eq_iff, Bool-cases,
  Option-cases, is_some, All, All-mono, ok, Result-cases,
}
use overgent.Prelude.Tables.{delete, any, any-find, any-delete_ne}
use overgent.Prelude.Tables.Rows.{distinct, distinct-delete, All-delete}
use overgent.Config.{
  Config, Project, Backend, has_id, names, lives_on, upsert_loop, upsert_backend, new_backend,
  backend_by_id, bind_loop, bind_project, rebind_loop, rebind_project, remove_project,
  remove_backend,
}
use overgent.Config.Origin.{Platform, canonical_origin}
use overgent.Config.Enrolment.{any-upsert_loop, distinct-upsert_loop}

-- The profile knows the backend that a Project names.
abbrev pub IsKnown : List Backend → Project → Type 0
IsKnown bs project = any (has_id project.backend_id) bs ≡ true

pub record IsWellFormed (c : Config) : Type 0 where
  pub backends_distinct : distinct (λ (b : Backend). b.id) c.backends ≡ true
  pub projects_distinct : distinct (λ (q : Project). q.id) c.projects ≡ true
  pub bindings_known : All (IsKnown c.backends) c.projects

any-bind_loop :
    (id target j : String) (ps : List Project)
    → any (names j) (bind_loop id target ps) ≡ (any (names j) ps || str_eq id j)
unfolding bind_loop any
any-bind_loop id target j [] = ground arith
any-bind_loop id target j (x ∷ ps) =
    ground (arith, any-bind_loop id target j ps, eq_iff x.id j, eq_iff x.id id, eq_iff id j)

distinct-bind_loop :
    (id target : String) (ps : List Project)
    → distinct (λ (q : Project). q.id) ps ≡ true
    → distinct (λ (q : Project). q.id) (bind_loop id target ps) ≡ true
unfolding bind_loop distinct any
distinct-bind_loop id target [] h = refl
distinct-bind_loop id target (x ∷ ps) h = ground (
  arith,
  distinct-bind_loop id target ps,
  any-bind_loop id target x.id ps,
  eq_iff x.id id,
  eq_iff id x.id,
)

IsKnown-bind_loop :
    (bs : List Backend) (id target : String) (ps : List Project)
    → any (has_id target) bs ≡ true
    → All (IsKnown bs) ps
    → All (IsKnown bs) (bind_loop id target ps)
unfolding bind_loop
IsKnown-bind_loop bs id target [] k h = (k, tt)
IsKnown-bind_loop bs id target (x ∷ ps) k h = elim (Bool-cases (names id x)) [
  | inl e ↦ rw e (k, h.1)
  | inr e ↦ rw e (h.0, IsKnown-bind_loop bs id target ps k h.1)
]

any-rebind_loop :
    (id target j : String) (ps qs : List Project)
    → rebind_loop id target ps ≡ ok qs
    → any (names j) qs ≡ any (names j) ps
unfolding rebind_loop any
any-rebind_loop id target j [] qs h = cc
any-rebind_loop id target j (x ∷ ps) qs h = elim (Result-cases (rebind_loop id target ps)) [
  | inl (moved, e) ↦ ground (arith, any-rebind_loop id target j ps moved e)
  | inr (f, e) ↦ ground arith
]

distinct-rebind_loop :
    (id target : String) (ps qs : List Project)
    → rebind_loop id target ps ≡ ok qs
    → distinct (λ (q : Project). q.id) qs ≡ distinct (λ (q : Project). q.id) ps
unfolding rebind_loop distinct any
distinct-rebind_loop id target [] qs h = cc
distinct-rebind_loop id target (x ∷ ps) qs h = elim (Result-cases (rebind_loop id target ps)) [
  | inl (moved, e) ↦
      ground (
        arith,
        any-rebind_loop id target x.id ps moved e,
        distinct-rebind_loop id target ps moved e,
      )
  | inr (f, e) ↦ ground arith
]

IsKnown-rebind_loop :
    (bs : List Backend) (id target : String) (ps qs : List Project)
    → any (has_id target) bs ≡ true
    → rebind_loop id target ps ≡ ok qs
    → All (IsKnown bs) ps
    → All (IsKnown bs) qs
unfolding rebind_loop
IsKnown-rebind_loop bs id target [] qs k h a = cc
IsKnown-rebind_loop bs id target (x ∷ ps) qs k h a =
    elim (Result-cases (rebind_loop id target ps)) [
      | inl (moved, e) ↦ ground (arith, IsKnown-rebind_loop bs id target ps moved k e)
      | inr (f, e) ↦ ground arith
    ]

module _ (p : Platform) where
  upsert-IsWellFormed :
      (c d : Config) (url device : String) (b : Backend)
      → upsert_backend p c url device ≡ ok (d, b)
      → IsWellFormed c
      → IsWellFormed d
  unfolding upsert_backend
  upsert-IsWellFormed c d url device b h w =
      let next = new_backend p (canonical_origin url) device in
      elim (Option-cases (upsert_loop next c.backends)) [
        | inl e ↦ absurd (ground arith)
        | inr (ds, e) ↦
            let same : d ≡ record c { backends = ds } = ground arith in
            rw same (record {
              backends_distinct = distinct-upsert_loop next c.backends ds e w.backends_distinct;
              projects_distinct = w.projects_distinct;
              bindings_known =
                  All-mono (IsKnown c.backends) (IsKnown ds)
                    (λ q k. ground (arith, any-upsert_loop next q.backend_id c.backends ds e))
                    c.projects w.bindings_known;
            })
      ]

bind-IsWellFormed :
    (c : Config) (id target : String)
    → is_some (backend_by_id c target) ≡ true
    → IsWellFormed c
    → IsWellFormed (bind_project c id target)
unfolding bind_project backend_by_id
bind-IsWellFormed c id target k w = elim (Bool-cases (str_eq id "" || str_eq target "")) [
  | inl e ↦ rw e w
  | inr e ↦ rw e (record {
    backends_distinct = w.backends_distinct;
    projects_distinct = distinct-bind_loop id target c.projects w.projects_distinct;
    bindings_known =
        IsKnown-bind_loop c.backends id target c.projects (rw any-find k) w.bindings_known;
  })
]

rebind-IsWellFormed :
    (c d : Config) (id target : String)
    → rebind_project c id target ≡ ok d
    → IsWellFormed c
    → IsWellFormed d
unfolding rebind_project backend_by_id
rebind-IsWellFormed c d id target h w = elim (Result-cases (rebind_loop id target c.projects)) [
  | inl (qs, e) ↦
      let same : d ≡ record c { projects = qs } = ground arith in
      let known : any (has_id target) c.backends ≡ true =
        ground (arith, any-find (has_id target) c.backends) in
      rw same (record {
        backends_distinct = w.backends_distinct;
        projects_distinct = distinct-rebind_loop id target c.projects qs e ∙ w.projects_distinct;
        bindings_known =
            IsKnown-rebind_loop c.backends id target c.projects qs known e w.bindings_known;
      })
  | inr (f, e) ↦ absurd (ground arith)
]

remove_project-IsWellFormed :
    (c : Config) (id : String) → IsWellFormed c → IsWellFormed (remove_project c id).0
unfolding remove_project
remove_project-IsWellFormed c id w = elim (Bool-cases (str_eq id "")) [
  | inl e ↦ rw e w
  | inr e ↦ rw e (record {
    backends_distinct = w.backends_distinct;
    projects_distinct =
        distinct-delete (λ (q : Project). q.id) (names id) c.projects w.projects_distinct;
    bindings_known = All-delete (IsKnown c.backends) (names id) c.projects w.bindings_known;
  })
]

remaining-IsKnown :
    (bs : List Backend) (id : String) (ps : List Project)
    → All (IsKnown bs) ps
    → All (IsKnown (delete (has_id id) bs)) (delete (lives_on id) ps)
unfolding delete
remaining-IsKnown bs id [] h = tt
remaining-IsKnown bs id (q ∷ ps) h = elim (Bool-cases (lives_on id q)) [
  | inl e ↦ rw e (remaining-IsKnown bs id ps h.1)
  | inr e ↦ rw e (
    any-delete_ne (has_id id) (has_id q.backend_id) bs
          (λ b m. ground (arith, eq_iff b.id q.backend_id, eq_iff b.id id))
        ∙ h.0,
    remaining-IsKnown bs id ps h.1,
  )
]

remove_backend-IsWellFormed :
    (c : Config) (id : String) → IsWellFormed c → IsWellFormed (remove_backend c id).0
unfolding remove_backend
remove_backend-IsWellFormed c id w = record {
  backends_distinct =
      distinct-delete (λ (b : Backend). b.id) (has_id id) c.backends w.backends_distinct;
  projects_distinct =
      distinct-delete (λ (q : Project). q.id) (lives_on id) c.projects w.projects_distinct;
  bindings_known = remaining-IsKnown c.backends id c.projects w.bindings_known;
}

module _ (p : Platform) where
  -- One edit of a profile.
  pub data Edit (c : Config) : Config → Type 0 where
    enrol :
        {d : Config} (url device : String) (b : Backend)
        → upsert_backend p c url device ≡ ok (d, b)
        → Edit c d
    bind : (id target : String) → Edit c (bind_project c id target)
    rebind : {d : Config} (id target : String) → rebind_project c id target ≡ ok d → Edit c d
    forget_project : (id : String) → Edit c (remove_project c id).0
    forget_backend : (id : String) → Edit c (remove_backend c id).0

  pub data Edits (c : Config) : Config → Type 0 where
    here : Edits c c
    next : {d e : Config} → Edits c d → Edit d e → Edits c e

  -- An edit that binds no Project to a backend that the profile does not know.
  unfoldable pub IsEnrolled : {c d : Config} → Edit c d → Type 0
  IsEnrolled {c} (bind id target) = is_some (backend_by_id c target) ≡ true
  IsEnrolled _ = Unit

  unfoldable pub AreEnrolled : {c d : Config} → Edits c d → Type 0
  AreEnrolled here = Unit
  AreEnrolled (next r s) = AreEnrolled r × IsEnrolled s

  pub Edit-IsWellFormed :
      {c d : Config} → (e : Edit c d) → IsEnrolled e → IsWellFormed c → IsWellFormed d
  unfolding IsEnrolled
  Edit-IsWellFormed {c} {d} (enrol url device b h) k w = upsert-IsWellFormed p c d url device b h w
  Edit-IsWellFormed {c} (bind id target) k w = bind-IsWellFormed c id target k w
  Edit-IsWellFormed {c} {d} (rebind id target h) k w = rebind-IsWellFormed c d id target h w
  Edit-IsWellFormed {c} (forget_project id) k w = remove_project-IsWellFormed c id w
  Edit-IsWellFormed {c} (forget_backend id) k w = remove_backend-IsWellFormed c id w

  -- Whatever edits are made to a well-formed profile, no two backends and no two Projects share an
  -- id, and every Project is bound to a backend of the profile, as long as BindProject is called for
  -- backends that the profile knows alone: it does not check this itself.
  pub Edits-IsWellFormed :
      {c d : Config} → IsWellFormed c → (r : Edits c d) → AreEnrolled r → IsWellFormed d
  unfolding AreEnrolled
  Edits-IsWellFormed w here k = w
  Edits-IsWellFormed w (next r s) (k, l) = Edit-IsWellFormed s l (Edits-IsWellFormed w r k)
