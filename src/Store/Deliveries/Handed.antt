-- ===== src/Store/Deliveries/Handed.antt =====
-- ClaimInjectionDeliveries: which of the items asked for a claim hands out.
use overgent.Prelude.{
  ℕ, String, ◌≡◌, refl, sym, ap, ◌∙◌, inl, inr, Bool, true, false, not, ◌&&◌, ◌||◌, List, [], ◌∷◌,
  ◌++◌, arith, str_eq→eq, eq_iff, eq_refl, Bool-cases, All, ok, Result-cases,
}
use mathlib.Core.Path.{subst}
use overgent.Prelude.Tables.{any, any-append}
use overgent.Store.{Delivery, InjectionItem}
use overgent.Store.Deliveries.{claim_loop, is_delivery, deliver, same_item}
use overgent.Store.Deliveries.Once.{IsFresh, claimed-IsFresh}

-- No item revision is in the list twice.
unfoldable pub no_repeats : List InjectionItem → Bool
unfolding any
no_repeats [] = true
no_repeats (x ∷ xs) = not (any (same_item x) xs) && no_repeats xs

same_item→eq : (a b : InjectionItem) → same_item a b ≡ true → a ≡ b
same_item→eq a b h =
    let id : a.id ≡ b.id = str_eq→eq a.id b.id (ground (arith, h)) in
    let revision : a.revision ≡ b.revision = ground (arith, h) in cc (id, revision)

same_item_comm : (a b : InjectionItem) → same_item a b ≡ same_item b a
same_item_comm a b = ground (arith, eq_iff a.id b.id, eq_iff b.id a.id)

delivered-after :
    (now : ℕ) (session : String) (item j : InjectionItem) (rows : List Delivery)
    → any (is_delivery session j) (rows ++ deliver now session item ∷ [])
      ≡ (any (is_delivery session j) rows || same_item item j)
unfolding any
delivered-after now session item j rows = ground (
  arith,
  any-append (is_delivery session j) rows (deliver now session item ∷ []),
  eq_refl session,
)

not_again :
    (now : ℕ) (session : String) (item : InjectionItem) (rows : List Delivery)
    (got : List InjectionItem)
    → All (IsFresh session (rows ++ deliver now session item ∷ [])) got
    → any (same_item item) got ≡ false
unfolding any
not_again now session item rows [] h = refl
not_again now session item rows (j ∷ got) (h, hs) =
    ground
      (arith, h, delivered-after now session item j rows, not_again now session item rows got hs)

-- An item is among those handed out when it is asked for and was not delivered before.
hands_out :
    (session : String) (item j : InjectionItem) (rows : List Delivery) (later asked : Bool)
    → any (is_delivery session item) rows ≡ false
    → later ≡ (asked && not (any (is_delivery session j) rows || same_item item j))
    → (same_item j item || later)
      ≡ ((same_item j item || asked) && not (any (is_delivery session j) rows))
hands_out session item j rows later asked fresh h = elim (Bool-cases (same_item j item)) [
  | inl e ↦
      let f : any (is_delivery session j) rows ≡ false =
        subst (λ x. any (is_delivery session x) rows ≡ false) (sym (same_item→eq j item e)) fresh in
      ground (arith, e, f)
  | inr e ↦ ground (arith, e, h, same_item_comm item j)
]

skips :
    (session : String) (item j : InjectionItem) (rows : List Delivery) (asked : Bool)
    → any (is_delivery session item) rows ≡ true
    → (asked && not (any (is_delivery session j) rows))
      ≡ ((same_item j item || asked) && not (any (is_delivery session j) rows))
skips session item j rows asked here = elim (Bool-cases (same_item j item)) [
  | inl e ↦
      let f : any (is_delivery session j) rows ≡ true =
        subst (λ x. any (is_delivery session x) rows ≡ true) (sym (same_item→eq j item e)) here in
      ground (arith, e, f)
  | inr e ↦ ground (arith, e)
]

pub claim_loop-hands_out :
    (now : ℕ) (session : String) (items got : List InjectionItem) (rows rows' : List Delivery)
    → claim_loop now session items rows ≡ ok (rows', got)
    → (no_repeats got ≡ true)
      × ((j : InjectionItem)
          → any (same_item j) got
            ≡ (any (same_item j) items && not (any (is_delivery session j) rows)))
unfolding claim_loop no_repeats any
claim_loop-hands_out now session [] got rows rows' h =
    let none : [] ≡ got = ground (arith, h) in
    subst (λ g. (no_repeats g ≡ true) × ((j : InjectionItem) → any (same_item j) g ≡ false)) none
      (refl, λ j. refl)
claim_loop-hands_out now session (item ∷ items) got rows rows' h =
    elim (Bool-cases (any (is_delivery session item) rows)) [
      | inl e ↦
          let (once, which) =
            claim_loop-hands_out now session items got rows rows' (ground (arith, h, e)) in
          (once, λ j. which j ∙ skips session item j rows (any (same_item j) items) e)
      | inr e ↦
          elim (Result-cases
            (claim_loop now session items (rows ++ deliver now session item ∷ []))) [
              | inr (x, p) ↦ absurd (ground (arith, h, e, p))
              | inl ((mid, rest), p) ↦
                  let shape : item ∷ rest ≡ got = ground (arith, h, e, p) in
                  let after = rows ++ deliver now session item ∷ [] in
                  let (once, which) = claim_loop-hands_out now session items rest after mid p in
                  let fresh = (claimed-IsFresh now session items rest after mid p).0 in
                  subst
                    (λ g.
                      (no_repeats g ≡ true)
                      × ((j : InjectionItem)
                          → any (same_item j) g ≡ (
                              any (same_item j) (item ∷ items)
                              && not (any (is_delivery session j) rows))))
                    shape
                    (
                      ground (arith, once, not_again now session item rows rest fresh),
                      λ j.
                          hands_out session item j rows (any (same_item j) rest)
                            (any (same_item j) items) e
                            (which j
                              ∙ ap (λ d. any (same_item j) items && not d)
                                  (delivered-after now session item j rows)),
                    )
            ]
    ]
