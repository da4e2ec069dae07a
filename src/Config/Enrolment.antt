-- ===== src/Config/Enrolment.antt =====
-- `UpsertBackend`: one device identity for each backend.
use overgent.Prelude.{
  String, ◌≡◌, ap, ◌≢◌, inl, inr, true, ◌||◌, none, some, List, [], ◌∷◌, arith, str_eq, eq_iff,
  eq_refl, if◌then◌else◌, Option-cases, ok, err,
}
use overgent.Prelude.Tables.{find, any}
use overgent.Prelude.Tables.Rows.{distinct}
use overgent.Config.{
  Config, Backend, device_mismatch, has_id, upsert_loop, upsert_backend, new_backend, backend_by_id,
  backend_for_origin,
}
use overgent.Config.Origin.{Platform, canonical_origin, backend_id}

pub find-upsert_loop :
    (next : Backend) (j : String) (bs ds : List Backend)
    → upsert_loop next bs ≡ some ds
    → find (has_id j) ds ≡ (if str_eq next.id j then some next else find (has_id j) bs)
unfolding upsert_loop find
find-upsert_loop next j [] ds h = ground (arith)
find-upsert_loop next j (x ∷ bs) ds h = elim (Option-cases (upsert_loop next bs)) [
  | inl e ↦ ground (arith, eq_iff x.id j, eq_iff x.id next.id, eq_iff next.id j)
  | inr (rest, e) ↦ ground (
    arith,
    find-upsert_loop next j bs rest e,
    eq_iff x.id j,
    eq_iff x.id next.id,
    eq_iff next.id j,
  )
]

pub any-upsert_loop :
    (next : Backend) (j : String) (bs ds : List Backend)
    → upsert_loop next bs ≡ some ds
    → any (has_id j) ds ≡ (any (has_id j) bs || str_eq next.id j)
unfolding upsert_loop any
any-upsert_loop next j [] ds h = ground (arith)
any-upsert_loop next j (x ∷ bs) ds h = elim (Option-cases (upsert_loop next bs)) [
  | inl e ↦ ground (arith, eq_iff x.id j, eq_iff x.id next.id, eq_iff next.id j)
  | inr (rest, e) ↦ ground (
    arith,
    any-upsert_loop next j bs rest e,
    eq_iff x.id j,
    eq_iff x.id next.id,
    eq_iff next.id j,
  )
]

pub distinct-upsert_loop :
    (next : Backend) (bs ds : List Backend)
    → upsert_loop next bs ≡ some ds
    → distinct (λ (b : Backend). b.id) bs ≡ true
    → distinct (λ (b : Backend). b.id) ds ≡ true
unfolding upsert_loop distinct any
distinct-upsert_loop next [] ds h u = ground arith
distinct-upsert_loop next (x ∷ bs) ds h u = elim (Option-cases (upsert_loop next bs)) [
  | inl e ↦ ground (arith, eq_iff x.id next.id)
  | inr (rest, e) ↦ ground (
    arith,
    distinct-upsert_loop next bs rest e,
    any-upsert_loop next x.id bs rest e,
    eq_iff x.id next.id,
    eq_iff next.id x.id,
  )
]

module _ (p : Platform) where
  -- Enrolling at an origin in canonical form makes the profile answer with the new record for that
  -- origin and for no other, and touches neither Projects nor repositories.
  enrol_resolves :
      (c d : Config) (url device : String) (b : Backend)
      → canonical_origin (canonical_origin url) ≡ canonical_origin url
      → upsert_backend p c url device ≡ ok (d, b)
      → (backend_for_origin p d url ≡ some b)
        × (b.device_id ≡ device)
        × ((j : String) → b.id ≢ j → backend_by_id d j ≡ backend_by_id c j)
        × (d.projects ≡ c.projects)
        × (d.workspaces ≡ c.workspaces)
  unfolding upsert_backend backend_for_origin new_backend backend_id
  enrol_resolves c d url device b fixed h =
      let next = new_backend p (canonical_origin url) device in
      elim (Option-cases (upsert_loop next c.backends)) [
        | inl e ↦ absurd (ground arith)
        | inr (ds, e) ↦ (
          ground (
            arith,
            find-upsert_loop next next.id c.backends ds e,
            eq_refl next.id,
            ap (backend_id p) fixed,
          ),
          ground arith,
          λ j n. ground (arith, find-upsert_loop next j c.backends ds e, eq_iff next.id j),
          ground arith,
          ground arith,
        )
      ]

  upsert_loop_refuses :
      (next old : Backend) (bs : List Backend)
      → find (has_id next.id) bs ≡ some old
      → old.device_id ≢ ""
      → old.device_id ≢ next.device_id
      → upsert_loop next bs ≡ none
  unfolding upsert_loop find
  upsert_loop_refuses next old [] h n m = cc
  upsert_loop_refuses next old (x ∷ bs) h n m = ground (
    arith,
    upsert_loop_refuses next old bs,
    eq_iff old.device_id "",
    eq_iff old.device_id next.device_id,
  )

  -- A second device identity for a backend that the profile has enrolled with is refused.
  pub second_identity_refused :
      (c : Config) (url device : String) (old : Backend)
      → canonical_origin url ≢ ""
      → device ≢ ""
      → backend_by_id c (new_backend p (canonical_origin url) device).id ≡ some old
      → old.device_id ≢ ""
      → old.device_id ≢ device
      → upsert_backend p c url device ≡ err device_mismatch
  unfolding upsert_backend backend_by_id
  second_identity_refused c url device old u d h n m =
      let next = new_backend p (canonical_origin url) device in
      ground (
        arith,
        upsert_loop_refuses next old c.backends,
        eq_iff (canonical_origin url) "",
        eq_iff device "",
      )
