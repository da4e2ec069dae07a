-- ===== src/Hooks/Reads.antt =====
-- hooks.go, Inspect: what it answers on a file whose configured events each end with the expected group.
use mathlib.Core.List.{append-nil, append_assoc}
use overgent.Prelude.Bytes.{same}
use overgent.Hooks.Settings.{Handler, Group, Raw}
use overgent.Hooks.Groups.{managed, managed_for_vendor, same_handler}
use overgent.Hooks.Binding.{
  wanted, expected, inspect_handler, inspect_handlers, inspect_groups, inspect_events, Found,
  add_command, add_event,
}
use overgent.Hooks.Tables.{groups_at, is_event, are_distinct}
use overgent.Hooks.Bare.{has_managed, any_managed, event-str_neq}
use overgent.Prelude.{
  ℕ, String, ◌≡◌, refl, sym, ◌∙◌, true, false, ◌||◌, List, [], ◌∷◌, ◌++◌, arith, eq_refl, ok,
}

pub same_self : (s : List ℕ) → same s s ≡ true
unfolding same
same_self [] = refl
same_self (c ∷ s) = ground (arith, same_self s)

pub same_handler_self : (h : Handler) → same_handler h h ≡ true
unfolding same_handler
same_handler_self h = ground (arith, eq_refl h.kind, same_self h.command, eq_refl h.shell)

add_event-fresh :
    (e : String) (es : List String) → is_event e es ≡ false → add_event e es ≡ es ++ e ∷ []
unfolding is_event add_event
add_event-fresh e [] h = refl
add_event-fresh e (d ∷ es) h = ground (arith, add_event-fresh e es)

is_event-append :
    (e : String) (es fs : List String) → is_event e (es ++ fs) ≡ (is_event e es || is_event e fs)
unfolding is_event
is_event-append e [] fs = refl
is_event-append e (d ∷ es) fs = ground (arith, is_event-append e es fs)

module _ (os c vendor : List ℕ) where
  inspect_handlers-bare :
      (e : String) (hs : List Handler) (found : Found)
      → has_managed hs ≡ false
      → inspect_handlers os e vendor hs found ≡ ok found
  unfolding has_managed inspect_handlers inspect_handler
  inspect_handlers-bare e [] found n = refl
  inspect_handlers-bare e (h ∷ hs) found n =
      let bare : managed h.command ≡ false = ground arith in
      rw bare (inspect_handlers-bare e hs found (ground arith))

  inspect_groups-append :
      (e : String) (gs : List Group) (found : Found)
      → any_managed gs ≡ false
      → managed c ≡ true
      → managed_for_vendor c vendor ≡ true
      → inspect_groups os e vendor (gs ++ expected os e c ∷ []) found
        ≡ ok (record {
          commands = add_command c found.commands;
          present = add_event e found.present;
        })
  unfolding any_managed inspect_groups expected inspect_handlers inspect_handler wanted
  inspect_groups-append e [] found n m v = rw (m, v, same_handler_self (wanted os e c)) refl
  inspect_groups-append e (g ∷ gs) found n m v =
      rw (inspect_handlers-bare e g.hooks found (ground arith))
        (inspect_groups-append e gs found (ground arith) m v)

  -- The groups of an event are bare but for the expected one at their end.
  unfoldable pub IsBound : String → List (String × Raw) → Type 0
  IsBound e hooks =
      (gs : List Group) × (groups_at e hooks ≡ ok (gs ++ expected os e c ∷ []))
      × (any_managed gs ≡ false)

  inspect_event-bound :
      (e : String) (es : List String) (hooks : List (String × Raw)) (found : Found)
      → managed c ≡ true
      → managed_for_vendor c vendor ≡ true
      → IsBound e hooks
      → inspect_events os vendor (e ∷ es) hooks found
        ≡ inspect_events os vendor es hooks (record {
          commands = add_command c found.commands;
          present = add_event e found.present;
        })
  unfolding inspect_events groups_at IsBound
  inspect_event-bound e es hooks found m v (gs, k, n) =
      rw (k, inspect_groups-append e gs found n m v) refl

  inspect_events-bound :
      (es before : List String) (hooks : List (String × Raw))
      → managed c ≡ true
      → managed_for_vendor c vendor ≡ true
      → are_distinct es ≡ true
      → ((e : String) → is_event e es ≡ true → is_event e before ≡ false)
      → ((e : String) → is_event e es ≡ true → IsBound e hooks)
      → inspect_events os vendor es hooks (record { commands = c ∷ []; present = before })
        ≡ ok (record { commands = c ∷ []; present = before ++ es })
  unfolding inspect_events is_event are_distinct add_command
  inspect_events-bound [] before hooks m v d n b = rw (append-nil before) refl
  inspect_events-bound (e ∷ es) before hooks m v d n b =
      let here : is_event e (e ∷ es) ≡ true = rw (eq_refl e) refl in
      inspect_event-bound e es hooks (record { commands = c ∷ []; present = before }) m v (b e here)
      ∙ rw (same_self c, add_event-fresh e before (n e here), sym (append_assoc before (e ∷ []) es))
          (inspect_events-bound es (before ++ e ∷ []) hooks m v (ground (arith, d))
            (λ x k.
              let ne = event-str_neq es e x (ground (arith, d)) k in
              ground (arith, ne, n x (ground (arith, k)), is_event-append x before (e ∷ [])))
            (λ x k. b x (ground (arith, k))))

  -- Every configured event is counted, and one command is found.
  pub inspect-bound :
      (e : String) (es : List String) (hooks : List (String × Raw))
      → managed c ≡ true
      → managed_for_vendor c vendor ≡ true
      → are_distinct (e ∷ es) ≡ true
      → ((x : String) → is_event x (e ∷ es) ≡ true → IsBound x hooks)
      → inspect_events os vendor (e ∷ es) hooks (record { commands = []; present = [] })
        ≡ ok (record { commands = c ∷ []; present = e ∷ es })
  unfolding is_event are_distinct add_command add_event
  inspect-bound e es hooks m v d b =
      let here : is_event e (e ∷ es) ≡ true = rw (eq_refl e) refl in
      inspect_event-bound e es hooks (record { commands = []; present = [] }) m v (b e here)
      ∙ inspect_events-bound es (e ∷ []) hooks m v (ground (arith, d))
          (λ x k. let ne = event-str_neq es e x (ground (arith, d)) k in ground (arith, ne))
          (λ x k. b x (ground (arith, k)))
