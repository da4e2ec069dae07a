-- ===== src/Injection/Budget.antt =====
-- The budget of an injection.
use Prim.Native.String.{len}
use text.Mathlib.TextPositions.{len-append}
use overgent.Prelude.{
  ℕ, ◌+◌, ◌-◌, ◌≤◌, max, ◌≡◌, refl, ◌⊎◌, inl, inr, Bool, List, [], ◌∷◌, arith, ltb, leb, Bool-cases,
}
use overgent.Prelude.Tables.{select}
use overgent.Injection.{
  BriefItem, injection_line, reference, render_lines, render_injection, select_loop,
  select_injection_items, max_injection_chars, header,
}

select_loop_fits :
    (used : ℕ) (items : List BriefItem)
    → len (render_lines (select_loop used items)) + used ≤ max used max_injection_chars
unfolding select_loop render_lines
select_loop_fits used [] = omega arith
select_loop_fits used (item ∷ items) = elim (Bool-cases (leb max_injection_chars used)) [
  | inl a ↦ rw (a, select_loop) (omega arith)
  | inr a ↦
      rw (a, select_loop)
        (elim (Bool-cases (ltb (max_injection_chars - used) (len (injection_line item)))) [
          | inr b ↦
              let rest = select_loop (used + len (injection_line item)) items in
              rw (b, select_loop)
                (ground (
                  arith,
                  len-append (injection_line item) (render_lines rest),
                  select_loop_fits (used + len (injection_line item)) items,
                ))
          | inl b ↦
              rw (b, select_loop)
                (elim (Bool-cases
                  (ltb (max_injection_chars - used) (len (injection_line (reference item))))) [
                    | inl c ↦ rw (c, select_loop) (omega arith)
                    | inr c ↦
                        let rest =
                          select_loop (used + len (injection_line (reference item))) items in
                        rw (c, select_loop)
                          (ground (
                            arith,
                            len-append (injection_line (reference item)) (render_lines rest),
                            select_loop_fits (used + len (injection_line (reference item))) items,
                          ))
                  ])
        ])
]

render_select :
    (q : BriefItem → Bool) (items : List BriefItem)
    → len (render_lines (select q items)) ≤ len (render_lines items)
unfolding select render_lines
render_select q [] = omega arith
render_select q (item ∷ items) =
    let a = len-append (injection_line item) (render_lines items) in
    let b = len-append (injection_line item) (render_lines (select q items)) in
    ground (arith, a, b, render_select q items)

render_bound :
    (items : List BriefItem) → len (render_injection items) ≤ len header + len (render_lines items)
unfolding render_injection
render_bound [] = omega arith
render_bound (item ∷ items) = omega (arith, len-append header (render_lines (item ∷ items)))

-- What stands of an item after the selection.
abbrev pub IsSelected : BriefItem → BriefItem → Type 0
IsSelected item chosen = (chosen ≡ item) ⊎ (chosen ≡ reference item)

-- The chosen items are the first ones, in order, each as it is or as a reference to it.
abbrev pub IsPrefix : List BriefItem → List BriefItem → Type 0
IsPrefix [] items = Unit
IsPrefix (c ∷ cs) [] = ⊥
IsPrefix (c ∷ cs) (item ∷ items) = IsSelected item c × IsPrefix cs items

select_loop_prefix : (used : ℕ) (items : List BriefItem) → IsPrefix (select_loop used items) items
unfolding select_loop
select_loop_prefix used [] = tt
select_loop_prefix used (item ∷ items) = elim (Bool-cases (leb max_injection_chars used)) [
  | inl a ↦ rw (a, select_loop) tt
  | inr a ↦
      rw (a, select_loop)
        (elim (Bool-cases (ltb (max_injection_chars - used) (len (injection_line item)))) [
          | inr b ↦
              rw (b, select_loop)
                (inl refl, select_loop_prefix (used + len (injection_line item)) items)
          | inl b ↦
              rw (b, select_loop)
                (elim (Bool-cases
                  (ltb (max_injection_chars - used) (len (injection_line (reference item))))) [
                    | inl c ↦ rw (c, select_loop) tt
                    | inr c ↦
                        rw (c, select_loop)
                          (
                            inr refl,
                            select_loop_prefix (used + len (injection_line (reference item))) items,
                          )
                  ])
        ])
]

-- The selection is a prefix of the items, in which an item may be replaced by a reference to it, and
-- what is rendered of it, or of any part of it, has 3200 bytes at most.
pub selection_fits :
    (items : List BriefItem) (q : BriefItem → Bool)
    → IsPrefix (select_injection_items items) items
      × (len (render_injection (select q (select_injection_items items))) ≤ 3200)
unfolding select_injection_items
selection_fits items q = (
  select_loop_prefix (len header) items,
  let chosen = select_loop (len header) items in
      omega (
        arith,
        render_bound (select q chosen),
        render_select q chosen,
        select_loop_fits (len header) items,
      ),
)
