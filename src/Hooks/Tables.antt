-- ===== src/Hooks/Tables.antt =====
-- hooks.go: the events of a settings file as a table, and what is read from it after a change.
use overgent.Prelude.{
  String, ◌≡◌, refl, ap, Bool, true, false, ◌&&◌, ◌||◌, not, none, some, List, [], ◌∷◌, arith,
  str_eq, eq_iff, eq_refl, if◌then◌else◌, Result, ok,
}
use overgent.Hooks.Settings.{
  Handler, Group, Raw, Document, document, HookError, read, write, value_of, set_member,
  delete_member, groups_for, marshal, put_kept, decoded_groups, decoded_handlers, written_groups,
  written_handlers,
}

module _ {ℓ} {V : Type ℓ} where
  pub value_of-set_member :
      (event wanted : String) (new : V) (table : List (String × V))
      → value_of wanted (set_member event new table)
        ≡ (if str_eq event wanted then some new else value_of wanted table)
  unfolding value_of set_member
  value_of-set_member event wanted new [] = refl
  value_of-set_member event wanted new ((name, raw) ∷ rest) = ground (
    arith,
    value_of-set_member event wanted new rest,
    eq_iff name event,
    eq_iff event wanted,
    eq_iff name wanted,
  )

  pub value_of-delete_member :
      (event wanted : String) (table : List (String × V))
      → value_of wanted (delete_member event table)
        ≡ (if str_eq event wanted then none else value_of wanted table)
  unfolding value_of delete_member
  value_of-delete_member event wanted [] = ground arith
  value_of-delete_member event wanted ((name, raw) ∷ rest) = ground (
    arith,
    value_of-delete_member event wanted rest,
    eq_iff name event,
    eq_iff event wanted,
    eq_iff name wanted,
  )

  pub set_member_same :
      (event : String) (new : V) (table : List (String × V))
      → value_of event table ≡ some new
      → set_member event new table ≡ table
  unfolding value_of set_member
  set_member_same event new [] h = cc
  set_member_same event new ((name, raw) ∷ rest) h = ground (arith, set_member_same event new rest)

  pub delete_member_absent :
      (event : String) (table : List (String × V))
      → value_of event table ≡ none
      → delete_member event table ≡ table
  unfolding value_of delete_member
  delete_member_absent event [] h = refl
  delete_member_absent event ((name, raw) ∷ rest) h =
      ground (arith, delete_member_absent event rest)

decoded-written_handlers : (hs : List Handler) → decoded_handlers (written_handlers hs) ≡ hs
decoded-written_handlers [] = refl
decoded-written_handlers (h ∷ hs) = ap (λ r. h ∷ r) (decoded-written_handlers hs)

decoded-written : (gs : List Group) → decoded_groups (written_groups gs) ≡ gs
decoded-written [] = refl
decoded-written (g ∷ gs) = cc (decoded-written_handlers g.hooks, decoded-written gs)

pub groups_for-marshal : (e : String) (gs : List Group) → groups_for e (some (marshal gs)) ≡ ok gs
unfolding groups_for marshal
groups_for-marshal e gs = ap ok (decoded-written gs)

-- The groups of an event.
unfoldable pub groups_at : String → List (String × Raw) → Result HookError (List Group)
groups_at e hooks = groups_for e (value_of e hooks)

pub groups_at-set_member :
    (e : String) (gs : List Group) (hooks : List (String × Raw))
    → groups_at e (set_member e (marshal gs) hooks) ≡ ok gs
unfolding groups_at
groups_at-set_member e gs hooks =
    rw (value_of-set_member e e (marshal gs) hooks, eq_refl e) (groups_for-marshal e gs)

pub groups_at-set_member_ne :
    (e k : String) (r : Raw) (hooks : List (String × Raw))
    → str_eq k e ≡ false
    → groups_at e (set_member k r hooks) ≡ groups_at e hooks
unfolding groups_at
groups_at-set_member_ne e k r hooks h = rw (value_of-set_member k e r hooks, h) refl

pub groups_at-put_kept :
    (e : String) (gs : List Group) (hooks : List (String × Raw))
    → groups_at e (put_kept e gs hooks) ≡ ok gs
unfolding groups_at put_kept groups_for
groups_at-put_kept e [] hooks = rw (value_of-delete_member e e hooks, eq_refl e) refl
groups_at-put_kept e (g ∷ gs) hooks =
    rw (value_of-set_member e e (marshal (g ∷ gs)) hooks, eq_refl e) (groups_for-marshal e (g ∷ gs))

pub groups_at-put_kept_ne :
    (e k : String) (gs : List Group) (hooks : List (String × Raw))
    → str_eq k e ≡ false
    → groups_at e (put_kept k gs hooks) ≡ groups_at e hooks
unfolding groups_at put_kept
groups_at-put_kept_ne e k [] hooks h = rw (value_of-delete_member k e hooks, h) refl
groups_at-put_kept_ne e k (g ∷ gs) hooks h =
    rw (value_of-set_member k e (marshal (g ∷ gs)) hooks, h) refl

pub read-write :
    (d : Document) (hooks : List (String × Raw))
    → read (document (write d hooks)) ≡ ok (write d hooks, hooks)
unfolding read write
read-write d [] = refl
read-write d (h ∷ hs) = refl

-- An event among others.
unfoldable pub is_event : String → List String → Bool
is_event e [] = false
is_event e (d ∷ ds) = str_eq d e || is_event e ds

unfoldable pub are_distinct : List String → Bool
are_distinct [] = true
are_distinct (d ∷ ds) = not (is_event d ds) && are_distinct ds
