-- ===== src/Store/Deliveries/Claims.antt =====
-- ClaimInjectionDeliveries and UndeliveredInjectionItems: each item revision is claimed once for a session.
use overgent.Prelude.{
  ℕ, ◌+◌, String, ◌≡◌, ◌≢◌, inl, inr, true, not, ◌&&◌, List, [], arith, length, All, ok,
  Result-cases,
}
use overgent.Prelude.Tables.{any}
use overgent.Store.{Db, InjectionItem}
use overgent.Store.Deliveries.{
  claim_loop, claim_injection_deliveries, undelivered_injection_items, is_delivery, same_item,
}
use overgent.Store.Deliveries.Once.{
  IsFresh, claimed-IsFresh, All-IsDelivered, none_again, others_kept,
}
use overgent.Store.Deliveries.Handed.{no_repeats, claim_loop-hands_out}

-- A claim hands out each item revision once: what it returns are the items asked for that had not been
-- delivered to the session, each of them and none twice, and one row is written for each; afterwards
-- nothing that it was asked for is undelivered, a second claim of the same items at any time returns
-- nothing and writes nothing, and other sessions' deliveries are as they were.
pub claim_once :
    (now later : ℕ) (session : String) (items got : List InjectionItem) (db db' : Db)
    → claim_injection_deliveries now session items db ≡ ok (db', got)
    → All (IsFresh session db.deliveries) got
      × (no_repeats got ≡ true)
      × ((j : InjectionItem)
          → any (same_item j) got
            ≡ (any (same_item j) items && not (any (is_delivery session j) db.deliveries)))
      × (length db'.deliveries ≡ length db.deliveries + length got)
      × (undelivered_injection_items session items db' ≡ ok [])
      × (claim_injection_deliveries later session items db' ≡ ok (db', []))
      × ((other : String) (j : InjectionItem)
          → session ≢ other
          → any (is_delivery other j) db'.deliveries ≡ any (is_delivery other j) db.deliveries)
unfolding claim_injection_deliveries undelivered_injection_items
claim_once now later session items got db db' h =
    elim (Result-cases (claim_loop now session items db.deliveries)) [
      | inr (x, p) ↦ absurd (ground arith)
      | inl ((rows, claimed), p) ↦
          let same : (db' ≡ record db { deliveries = rows }) × (claimed ≡ got) =
            (ground arith, ground arith) in
          let p' : claim_loop now session items db.deliveries ≡ ok (db'.deliveries, got) =
            ground (arith, same.0, same.1) in
          let again =
            none_again later session db'.deliveries items
              (All-IsDelivered now session items got db.deliveries db'.deliveries p') in
          (
            (claimed-IsFresh now session items got db.deliveries db'.deliveries p').0,
            (claim_loop-hands_out now session items got db.deliveries db'.deliveries p').0,
            (claim_loop-hands_out now session items got db.deliveries db'.deliveries p').1,
            (claimed-IsFresh now session items got db.deliveries db'.deliveries p').1,
            ground (arith, again.1),
            ground (arith, again.0),
            λ other j n.
                others_kept now session other j items got db.deliveries db'.deliveries n p',
          )
    ]
