-- ===== src/Store/Deliveries.antt =====
-- Injection deliveries of internal/store/store.go: each item revision is handed to a session once.
pub mod Once
pub mod Handed
pub mod Claims
use overgent.Prelude.{
  ℕ, String, Bool, ◌&&◌, ◌||◌, List, [], ◌∷◌, ◌++◌, str_eq, ltb, ◌==◌, if◌then◌else◌, Result, ok,
  err,
}
use overgent.Prelude.Tables.{any}
use overgent.Store.{Db, Delivery, InjectionItem, Error, invalid, unix_milli}

abbrev pub same_item : InjectionItem → InjectionItem → Bool
same_item a b = str_eq a.id b.id && a.revision == b.revision

abbrev pub is_delivery : String → InjectionItem → Delivery → Bool
is_delivery session item d = str_eq d.session_key session && same_item d.item item

abbrev pub is_unidentified : InjectionItem → Bool
is_unidentified item = str_eq item.id "" || ltb item.revision 1

abbrev pub deliver : ℕ → String → InjectionItem → Delivery
deliver now session item = record {
  session_key = session;
  item = item;
  delivered_at = unix_milli now;
}

-- The loop of `ClaimInjectionDeliveries`: INSERT OR IGNORE, and the items that inserted a row.
unfoldable pub claim_loop :
    ℕ
    → String
    → List InjectionItem
    → List Delivery
    → Result Error (List Delivery × List InjectionItem)
unfolding any
claim_loop now session [] rows = ok (rows, [])
claim_loop now session (item ∷ items) rows =
    let again = claim_loop now session items rows in
    let fresh = claim_loop now session items (rows ++ deliver now session item ∷ []) in
    if is_unidentified item
    then err invalid
    else if any (is_delivery session item) rows
    then again
    else elim fresh [ err e ↦ err e | ok (rows', claimed) ↦ ok (rows', item ∷ claimed) ]

unfoldable pub claim_injection_deliveries :
    ℕ → String → List InjectionItem → Db → Result Error (Db × List InjectionItem)
unfolding claim_loop
claim_injection_deliveries now session items db =
    if str_eq session "" then err invalid else elim (claim_loop now session items db.deliveries) [
      | err e ↦ err e
      | ok (rows, claimed) ↦ ok (record db { deliveries = rows }, claimed)
    ]

unfoldable pub undelivered_loop :
    String → List Delivery → List InjectionItem → Result Error (List InjectionItem)
unfolding any
undelivered_loop session rows [] = ok []
undelivered_loop session rows (item ∷ items) =
    let rest = undelivered_loop session rows items in
    if is_unidentified item
    then err invalid
    else if any (is_delivery session item) rows
    then rest
    else elim rest [ err e ↦ err e | ok pending ↦ ok (item ∷ pending) ]

unfoldable pub undelivered_injection_items :
    String → List InjectionItem → Db → Result Error (List InjectionItem)
unfolding undelivered_loop
undelivered_injection_items session items db =
    if str_eq session "" then err invalid else undelivered_loop session db.deliveries items
