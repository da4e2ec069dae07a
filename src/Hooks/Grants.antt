-- ===== src/Hooks/Grants.antt =====
-- hooks.go, AllowTools and DisallowTools: the tools that a settings file lets an agent call unasked.
use mathlib.Core.Path.{subst}
use overgent.Hooks.Tables.{read-write}
use overgent.Hooks.Settings.{
  Raw, AllowValue, strings, not_strings, Permissions, PermissionsValue, permissions, no_permissions,
  Document, File, missing, HookError, permissions_not_object, allow_not_strings, read, write,
  document,
}
use overgent.Prelude.{
  String, ◌≡◌, refl, sym, ap, ◌∙◌, inl, inr, Bool, true, false, ◌||◌, not, Option, none, some, List,
  [], ◌∷◌, ◌++◌, arith, str_eq, eq_refl, if◌then◌else◌, str_eq→eq, Bool-cases, Result, ok, err,
}
use overgent.Prelude.Outcomes.{◌>>=◌}
use mathlib.Core.List.{append-nil}
use overgent.Prelude.Tables.{any, select, any-append}

abbrev empty : Permissions
empty = record { allow = none; others = [] }

abbrev pub permissions_of : Option PermissionsValue → Result HookError Permissions
permissions_of none = ok empty
permissions_of (some (permissions p)) = ok p
permissions_of (some (no_permissions t)) = err permissions_not_object

abbrev pub entries_of : Option AllowValue → Result HookError (List String)
entries_of none = ok []
entries_of (some (strings entries)) = ok entries
entries_of (some (not_strings t)) = err allow_not_strings

unfoldable pub allow_list : Document → Result HookError (List String × Permissions)
allow_list d = do p ← permissions_of d.granted; allow ← entries_of p.allow; ok (allow, p)

abbrev pub with_allow : List String → Permissions → Permissions
with_allow [] p = record p { allow = none }
with_allow (t ∷ ts) p = record p { allow = some (strings (t ∷ ts)) }

abbrev is_empty : Permissions → Bool
is_empty p = elim (p.allow) [ none ↦ elim (p.others) [ [] ↦ true | _ ↦ false ] | some a ↦ false ]

unfoldable pub set_allow_list : Document → Permissions → List String → Document
set_allow_list d p allow =
    let p' = with_allow allow p in
    if is_empty p'
    then record d { granted = none }
    else record d { granted = some (permissions p') }

unfoldable pub grant : List String → List String → List String
grant [] allow = allow
grant (tool ∷ tools) allow =
    grant tools (if any (str_eq tool) allow then allow else allow ++ tool ∷ [])

unfoldable pub withdraw : List String → List String → List String
withdraw tools [] = []
withdraw tools (entry ∷ entries) =
    let kept = withdraw tools entries in if any (str_eq entry) tools then kept else entry ∷ kept

-- AllowTools
unfoldable pub allow_tools : File → List String → Result HookError Document
allow_tools file tools = do
  (d, hooks) ← read file
  (allow, p) ← allow_list d
  ok (write (set_allow_list d p (grant tools allow)) hooks)

-- DisallowTools; no document is written where there is no file.
unfoldable pub disallow_tools : File → List String → Result HookError (Option Document)
disallow_tools missing tools = ok none
disallow_tools file tools = do
  (d, hooks) ← read file
  (allow, p) ← allow_list d
  ok (some (write (set_allow_list d p (withdraw tools allow)) hooks))

allow_list-set :
    (d : Document) (p : Permissions) (allow : List String)
    → allow_list (set_allow_list d p allow) ≡ ok (allow, with_allow allow p)
unfolding allow_list set_allow_list
allow_list-set d p (t ∷ ts) = refl
allow_list-set d p [] =
    elim (p.others)
      as (λ (o : List (String × String)).
        allow_list (set_allow_list d (record p { others = o }) [])
        ≡ ok ([], with_allow [] (record p { others = o }))) [ [] ↦ refl | x ∷ xs ↦ refl ]

allow_list-write :
    (d : Document) (hooks : List (String × Raw)) → allow_list (write d hooks) ≡ allow_list d
unfolding allow_list write
allow_list-write d [] = refl
allow_list-write d (h ∷ hs) = refl

withdraw-append :
    (tools entries more : List String)
    → withdraw tools (entries ++ more) ≡ withdraw tools entries ++ withdraw tools more
unfolding withdraw
withdraw-append tools [] more = refl
withdraw-append tools (e ∷ es) more = ground (arith, withdraw-append tools es more)

withdraw_last :
    (all rest : List String) (t : String)
    → any (str_eq t) all ≡ true
    → rest ++ withdraw all (t ∷ []) ≡ rest
unfolding withdraw
withdraw_last all rest t h = rw h (append-nil rest)

-- Granting tools adds only what withdrawing them takes away.
withdraw-grant :
    (all tools allow : List String)
    → ((t : String) → any (str_eq t) tools ≡ true → any (str_eq t) all ≡ true)
    → withdraw all (grant tools allow) ≡ withdraw all allow
unfolding grant any
withdraw-grant all [] allow h = refl
withdraw-grant all (t ∷ ts) allow h =
    let later = λ (x : String) (k : any (str_eq x) ts ≡ true). h x (ground (arith, k)) in
    elim (Bool-cases (any (str_eq t) allow)) [
      | inl e ↦ rw e (withdraw-grant all ts allow later)
      | inr e ↦ rw e (
          withdraw-grant all ts (allow ++ t ∷ []) later
          ∙ withdraw-append all allow (t ∷ [])
          ∙ withdraw_last all (withdraw all allow) t (h t (rw (eq_refl t) refl)))
    ]

withdraw-select :
    (tools entries : List String)
    → withdraw tools entries ≡ select (λ entry. not (any (str_eq entry) tools)) entries
unfolding withdraw select
withdraw-select tools [] = refl
withdraw-select tools (e ∷ es) = ground (arith, withdraw-select tools es)

grant-any :
    (t : String) (tools allow : List String)
    → any (str_eq t) (grant tools allow) ≡ (any (str_eq t) tools || any (str_eq t) allow)
unfolding grant any
grant-any t [] allow = refl
grant-any t (x ∷ xs) allow = elim (Bool-cases (any (str_eq x) allow)) [
  | inl e ↦ rw e (
      grant-any t xs allow ∙ elim (Bool-cases (str_eq t x)) [
        | inl s ↦
            let there : any (str_eq t) allow ≡ true =
              subst (λ y. any (str_eq y) allow ≡ true) (sym (str_eq→eq t x s)) e in
            ground (arith, there, s)
        | inr s ↦ ground (arith, s)
      ])
  | inr e ↦
      rw e (grant-any t xs (allow ++ x ∷ []) ∙ ground (arith, any-append (str_eq t) allow (x ∷ [])))
]

-- The entries of the allow list of a file.
unfoldable pub allowed_in : File → Result HookError (List String)
allowed_in file = do (d, hooks) ← read file; (allow, p) ← allow_list d; ok allow

-- Where the allow list of a file can be read, AllowTools succeeds and allows each of the tools and
-- what was allowed before, and no more; DisallowTools on the result succeeds and leaves, in their
-- order, exactly the entries of the list before that are none of the tools; neither touches the
-- hooks.
pub disallow_tools-allow :
    (file : File) (tools allow : List String) (d : Document) (p : Permissions)
    (hooks : List (String × Raw))
    → read file ≡ ok (d, hooks)
    → allow_list d ≡ ok (allow, p)
    → (wider : Document) × (narrower : Document) × (allow_tools file tools ≡ ok wider)
      × (disallow_tools (document wider) tools ≡ ok (some narrower))
      × (read (document wider) ≡ ok (wider, hooks))
      × (read (document narrower) ≡ ok (narrower, hooks))
      × (allowed_in (document wider) ≡ ok (grant tools allow))
      × ((t : String)
          → any (str_eq t) (grant tools allow) ≡ (any (str_eq t) tools || any (str_eq t) allow))
      × (allowed_in (document narrower)
          ≡ ok (select (λ entry. not (any (str_eq entry) tools)) allow))
unfolding allow_tools disallow_tools allowed_in
disallow_tools-allow file tools allow d p hooks r a =
    let more = grant tools allow in
    let set = set_allow_list d p more in
    let wider = write set hooks in
    let wider_list : allow_list wider ≡ ok (more, with_allow more p) =
      allow_list-write set hooks ∙ allow_list-set d p more in
    let less = withdraw tools more in
    let back = set_allow_list wider (with_allow more p) less in
    let narrower = write back hooks in
    let narrower_list : allow_list narrower ≡ ok (less, with_allow less (with_allow more p)) =
      allow_list-write back hooks ∙ allow_list-set wider (with_allow more p) less in
    let read_wider : read (document wider) ≡ ok (wider, hooks) = read-write set hooks in
    let read_narrower : read (document narrower) ≡ ok (narrower, hooks) = read-write back hooks in
    (
      wider,
      narrower,
      rw (r, a) refl,
      rw (read_wider, wider_list) refl,
      read_wider,
      read_narrower,
      rw (read_wider, wider_list) refl,
      λ t. grant-any t tools allow,
      rw (read_narrower, narrower_list)
          (ap ok (withdraw-grant tools tools allow (λ t h. h) ∙ withdraw-select tools allow)),
    )
