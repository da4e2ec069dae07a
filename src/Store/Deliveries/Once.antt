-- ===== src/Store/Deliveries/Once.antt =====
-- Each item revision is claimed once for a session.
use overgent.Prelude.{
  ℕ, ◌+◌, String, ◌≡◌, refl, ◌∙◌, ◌≢◌, inl, inr, Bool, true, false, List, [], ◌∷◌, ◌++◌, arith,
  eq_iff, eq_refl, Bool-cases, length, length-append, All, All-mono, ok, Result-cases,
}
use overgent.Prelude.Tables.{any, any-append}
use overgent.Store.{Delivery, InjectionItem}
use overgent.Store.Deliveries.{claim_loop, undelivered_loop, is_delivery, is_unidentified, deliver}

abbrev pub IsDelivered : String → List Delivery → InjectionItem → Type 0
IsDelivered session rows item = any (is_delivery session item) rows ≡ true

abbrev pub IsFresh : String → List Delivery → InjectionItem → Type 0
IsFresh session rows item = any (is_delivery session item) rows ≡ false

-- What was delivered stays delivered.
claim_loop_keeps :
    (now : ℕ) (session : String) (q : Delivery → Bool) (items got : List InjectionItem)
    (rows rows' : List Delivery)
    → claim_loop now session items rows ≡ ok (rows', got)
    → any q rows ≡ true
    → any q rows' ≡ true
unfolding claim_loop
claim_loop_keeps now session q [] got rows rows' h m = ground arith
claim_loop_keeps now session q (item ∷ items) got rows rows' h m =
    elim (Bool-cases (any (is_delivery session item) rows)) [
      | inl e ↦ claim_loop_keeps now session q items got rows rows' (ground arith) m
      | inr e ↦
          elim (Result-cases
            (claim_loop now session items (rows ++ deliver now session item ∷ []))) [
              | inr (x, p) ↦ absurd (ground arith)
              | inl ((mid, rest), p) ↦
                  let same : mid ≡ rows' = ground arith in
                  rw (← same) (
                    claim_loop_keeps now session q items rest
                      (rows ++ deliver now session item ∷ []) mid p (rw any-append (ground arith)))
            ]
    ]

just_delivered :
    (now : ℕ) (session : String) (item : InjectionItem) (rows : List Delivery)
    → any (is_delivery session item) (rows ++ deliver now session item ∷ []) ≡ true
unfolding any
just_delivered now session item rows = ground (
  arith,
  any-append (is_delivery session item) rows (deliver now session item ∷ []),
  eq_refl session,
  eq_refl item.id,
)

-- After a claim every item asked for is delivered, and was identified.
pub All-IsDelivered :
    (now : ℕ) (session : String) (items got : List InjectionItem) (rows rows' : List Delivery)
    → claim_loop now session items rows ≡ ok (rows', got)
    → All
        (λ (item : InjectionItem). (is_unidentified item ≡ false) × IsDelivered session rows' item)
        items
unfolding claim_loop
All-IsDelivered now session [] got rows rows' h = tt
All-IsDelivered now session (item ∷ items) got rows rows' h =
    elim (Bool-cases (any (is_delivery session item) rows)) [
      | inl e ↦ (
        (
          ground arith,
          claim_loop_keeps now session (is_delivery session item) items got rows rows'
              (ground arith) e,
        ),
        All-IsDelivered now session items got rows rows' (ground arith),
      )
      | inr e ↦
          elim (Result-cases
            (claim_loop now session items (rows ++ deliver now session item ∷ []))) [
              | inr (x, p) ↦ absurd (ground arith)
              | inl ((mid, rest), p) ↦
                  let p' : claim_loop now session items (rows ++ deliver now session item ∷ [])
                      ≡ ok (rows', rest) =
                    ground arith in
                  (
                    (
                      ground arith,
                      claim_loop_keeps now session (is_delivery session item) items rest
                          (rows ++ deliver now session item ∷ []) rows' p'
                          (just_delivered now session item rows),
                    ),
                    All-IsDelivered now session items rest (rows ++ deliver now session item ∷ [])
                        rows' p',
                  )
            ]
    ]

pub none_again :
    (later : ℕ) (session : String) (rows : List Delivery) (items : List InjectionItem)
    → All
        (λ (item : InjectionItem). (is_unidentified item ≡ false) × IsDelivered session rows item)
        items
    → (claim_loop later session items rows ≡ ok (rows, []))
      × (undelivered_loop session rows items ≡ ok [])
unfolding claim_loop undelivered_loop
none_again later session rows [] h = (refl, refl)
none_again later session rows (item ∷ items) h =
    ground (arith, none_again later session rows items h.1)

IsFresh-before :
    (session : String) (item j : InjectionItem) (now : ℕ) (rows : List Delivery)
    → IsFresh session (rows ++ deliver now session item ∷ []) j
    → IsFresh session rows j
unfolding any
IsFresh-before session item j now rows h =
    ground (arith, any-append (is_delivery session j) rows (deliver now session item ∷ []))

-- What a claim returns was new to the session, and one row is written for each.
pub claimed-IsFresh :
    (now : ℕ) (session : String) (items got : List InjectionItem) (rows rows' : List Delivery)
    → claim_loop now session items rows ≡ ok (rows', got)
    → All (IsFresh session rows) got × (length rows' ≡ length rows + length got)
unfolding claim_loop
claimed-IsFresh now session [] got rows rows' h = ground arith
claimed-IsFresh now session (item ∷ items) got rows rows' h =
    elim (Bool-cases (any (is_delivery session item) rows)) [
      | inl e ↦ claimed-IsFresh now session items got rows rows' (ground arith)
      | inr e ↦
          elim (Result-cases
            (claim_loop now session items (rows ++ deliver now session item ∷ []))) [
              | inr (x, p) ↦ absurd (ground arith)
              | inl ((mid, rest), p) ↦
                  let (fresh, count) =
                    claimed-IsFresh now session items rest (rows ++ deliver now session item ∷ [])
                      mid p in
                  let same : mid ≡ rows' = ground arith in
                  let shape : got ≡ item ∷ rest = ground arith in
                  rw (shape, ← same)
                    (
                      (
                        e,
                        All-mono (IsFresh session (rows ++ deliver now session item ∷ []))
                            (IsFresh session rows) (λ j f. IsFresh-before session item j now rows f)
                            rest fresh,
                      ),
                      omega (arith, length-append rows (deliver now session item ∷ [])),
                    )
            ]
    ]

-- Another session's deliveries are not touched.
pub others_kept :
    (now : ℕ) (session other : String) (j : InjectionItem) (items got : List InjectionItem)
    (rows rows' : List Delivery)
    → session ≢ other
    → claim_loop now session items rows ≡ ok (rows', got)
    → any (is_delivery other j) rows' ≡ any (is_delivery other j) rows
unfolding claim_loop
others_kept now session other j [] got rows rows' n h = ground arith
others_kept now session other j (item ∷ items) got rows rows' n h =
    elim (Bool-cases (any (is_delivery session item) rows)) [
      | inl e ↦ others_kept now session other j items got rows rows' n (ground arith)
      | inr e ↦
          elim (Result-cases
            (claim_loop now session items (rows ++ deliver now session item ∷ []))) [
              | inr (x, p) ↦ absurd (ground arith)
              | inl ((mid, rest), p) ↦
                  let same : mid ≡ rows' = ground arith in
                  rw (← same) (
                    others_kept now session other j items rest
                      (rows ++ deliver now session item ∷ []) mid n p
                    ∙ unfold any in
                      ground (
                        arith,
                        any-append (is_delivery other j) rows (deliver now session item ∷ []),
                        eq_iff session other,
                      ))
            ]
    ]
