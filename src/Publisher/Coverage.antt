-- ===== src/Publisher/Coverage.antt =====
-- The order in which a flush visits workspaces covers every event it may send.
use overgent.Prelude.{
  String, ◌≡◌, refl, sym, ◌∙◌, inl, inr, Bool, true, ◌||◌, List, [], ◌∷◌, ◌++◌, arith, str_eq,
  eq_iff, eq_refl, Bool-cases, All, All-append, All-mono,
}
use overgent.Prelude.Tables.{select, any}
use mathlib.Core.Path.{subst}
use overgent.Store.{Event, is_event}
use overgent.Publisher.{order, contains}

pub All-group :
    (P : Event → Type 0) (q : Event → Bool) (es : List Event)
    → All P (select q es)
    → All (λ (e : Event). q e ≡ true → P e) es
unfolding select
All-group P q [] h = tt
All-group P q (e ∷ es) h = elim (Bool-cases (q e)) [
  | inl m ↦ let t = rw (m, select) at h in (λ k. t.0, All-group P q es t.1)
  | inr m ↦ (λ k. absurd (ground arith), All-group P q es (rw (m, select) at h))
]

pub All-either :
    (id : String) (ids : List String) (P : Event → Type 0) (es : List Event)
    → All (λ (e : Event). str_eq e.workspace_id id ≡ true → P e) es
    → All (λ (e : Event). contains e.workspace_id ids ≡ true → P e) es
    → All (λ (e : Event). contains e.workspace_id (id ∷ ids) ≡ true → P e) es
unfolding contains
All-either id ids P [] h k = tt
All-either id ids P (e ∷ es) h k = (
  λ m. elim (Bool-cases (str_eq e.workspace_id id)) [
    | inl s ↦ h.0 s
    | inr s ↦ k.0 (ground (arith, eq_iff e.workspace_id id, eq_iff id e.workspace_id))
  ],
  All-either id ids P es h.1 k.1,
)

pub contains-append :
    (id : String) (seen : List String) (x : String)
    → contains id (seen ++ x ∷ []) ≡ (contains id seen || str_eq x id)
unfolding contains
contains-append id [] x = ground arith
contains-append id (y ∷ seen) x = ground (arith, contains-append id seen x)

pub order_keeps :
    (id : String) (seen : List String) (es : List Event)
    → contains id seen ≡ true
    → contains id (order seen es) ≡ true
unfolding order
order_keeps id seen [] h = h
order_keeps id seen (e ∷ es) h = elim (Bool-cases (contains e.workspace_id seen)) [
  | inl b ↦ rw (b, order) (order_keeps id seen es h)
  | inr b ↦
      rw (b, order)
        (order_keeps id (seen ++ e.workspace_id ∷ []) es
          (contains-append id seen e.workspace_id ∙ ground arith))
]

-- Every workspace with an event is in the order.
pub order_covers :
    (seen : List String) (es : List Event)
    → All (λ (e : Event). contains e.workspace_id (order seen es) ≡ true) es
unfolding order
order_covers seen [] = tt
order_covers seen (e ∷ es) = elim (Bool-cases (contains e.workspace_id seen)) [
  | inl b ↦ (
    rw (b, order) (order_keeps e.workspace_id seen es b),
    subst (λ ids. All (λ (x : Event). contains x.workspace_id ids ≡ true) es)
        (sym (rw (b, order) refl)) (order_covers seen es),
  )
  | inr b ↦ (
    rw (b, order)
        (order_keeps e.workspace_id (seen ++ e.workspace_id ∷ []) es (
          contains-append e.workspace_id seen e.workspace_id
          ∙ ground (arith, eq_refl e.workspace_id))),
    subst (λ ids. All (λ (x : Event). contains x.workspace_id ids ≡ true) es)
        (sym (rw (b, order) refl)) (order_covers (seen ++ e.workspace_id ∷ []) es),
  )
]

pub All-order :
    (P : String → Type 0) (seen : List String) (es : List Event)
    → All P seen
    → All (λ (e : Event). P e.workspace_id) es
    → All P (order seen es)
unfolding order
All-order P seen [] h k = h
All-order P seen (e ∷ es) h k = elim (Bool-cases (contains e.workspace_id seen)) [
  | inl b ↦ subst (All P) (sym (rw (b, order) refl)) (All-order P seen es h k.1)
  | inr b ↦ subst (All P) (sym (rw (b, order) refl)) (
      All-order P (seen ++ e.workspace_id ∷ []) es
        (All-append P seen (e.workspace_id ∷ []) h (k.0, tt)) k.1)
]

pub All-found : (es : List Event) → All (λ (e : Event). any (is_event e.id) es ≡ true) es
unfolding any
All-found [] = tt
All-found (e ∷ es) = (
  ground (arith, eq_refl e.id),
  All-mono (λ (x : Event). any (is_event x.id) es ≡ true)
      (λ (x : Event). any (is_event x.id) (e ∷ es) ≡ true) (λ x h. ground arith) es (All-found es),
)

pub All-both :
    (P Q : Event → Type 0) (es : List Event)
    → All P es
    → All (λ (e : Event). P e → Q e) es
    → All Q es
All-both P Q [] h k = tt
All-both P Q (e ∷ es) h k = (k.0 h.0, All-both P Q es h.1 k.1)

pub All-none :
    (P : Event → Type 0) (q : Event → Bool) (es : List Event) → es ≡ [] → All P (select q es)
unfolding select
All-none P q es p = subst (λ xs. All P (select q xs)) (sym p) tt
