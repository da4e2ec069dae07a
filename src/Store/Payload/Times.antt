-- ===== src/Store/Payload/Times.antt =====
-- `fillObservedAt` leaves no observation time open.
use overgent.Prelude.{String, ◌≡◌, refl, ap, ◌≢◌, Bool, false, ◌||◌, arith, eq_iff}
use overgent.Store.Payload.{
  Json, Items, Fields, null, boolean, number, text, array, object, nil, cons, end, field,
  fill_observed_at, fill_items, fill_fields, wants_time,
}

-- Some "observedAt" of the value is the empty text.
unfoldable mutual
  pub has_open_time : Json → Bool
  has_open_time null = false
  has_open_time (boolean b) = false
  has_open_time (number s) = false
  has_open_time (text s) = false
  has_open_time (array xs) = items_have_open_time xs
  has_open_time (object fs) = fields_have_open_time fs

  pub items_have_open_time : Items → Bool
  items_have_open_time nil = false
  items_have_open_time (cons x xs) = has_open_time x || items_have_open_time xs

  pub fields_have_open_time : Fields → Bool
  fields_have_open_time end = false
  fields_have_open_time (field key item fs) =
      wants_time key item || has_open_time item || fields_have_open_time fs

mutual
  unfolding fill_observed_at fill_items fill_fields has_open_time items_have_open_time
      fields_have_open_time

  filled : (time : String) (j : Json) → time ≢ "" → has_open_time (fill_observed_at time j) ≡ false
  filled time null n = refl
  filled time (boolean b) n = refl
  filled time (number s) n = refl
  filled time (text s) n = refl
  filled time (array xs) n = filled_items time xs n
  filled time (object fs) n = filled_fields time fs n

  filled_items :
      (time : String) (xs : Items) → time ≢ "" → items_have_open_time (fill_items time xs) ≡ false
  filled_items time nil n = refl
  filled_items time (cons x xs) n = ground (arith, filled time x n, filled_items time xs n)

  filled_fields :
      (time : String) (fs : Fields)
      → time ≢ ""
      → fields_have_open_time (fill_fields time fs) ≡ false
  filled_fields time end n = refl
  filled_fields time (field key null fs) n = ground (arith, filled_fields time fs n)
  filled_fields time (field key (boolean b) fs) n = ground (arith, filled_fields time fs n)
  filled_fields time (field key (number s) fs) n = ground (arith, filled_fields time fs n)
  filled_fields time (field key (text s) fs) n =
      ground (arith, filled_fields time fs n, eq_iff time "")
  filled_fields time (field key (array xs) fs) n =
      ground (arith, filled_items time xs n, filled_fields time fs n)
  filled_fields time (field key (object gs) fs) n =
      ground (arith, filled_fields time gs n, filled_fields time fs n)

mutual
  unfolding fill_observed_at fill_items fill_fields has_open_time items_have_open_time
      fields_have_open_time

  closed : (time : String) (j : Json) → has_open_time j ≡ false → fill_observed_at time j ≡ j
  closed time null h = refl
  closed time (boolean b) h = refl
  closed time (number s) h = refl
  closed time (text s) h = refl
  closed time (array xs) h = ap array (closed_items time xs h)
  closed time (object fs) h = ap object (closed_fields time fs h)

  closed_items :
      (time : String) (xs : Items) → items_have_open_time xs ≡ false → fill_items time xs ≡ xs
  closed_items time nil h = refl
  closed_items time (cons x xs) h =
      cc (closed time x (ground arith), closed_items time xs (ground arith))

  closed_fields :
      (time : String) (fs : Fields) → fields_have_open_time fs ≡ false → fill_fields time fs ≡ fs
  closed_fields time end h = refl
  closed_fields time (field key item fs) h =
      ground (arith, closed time item (ground arith), closed_fields time fs (ground arith))

-- Filling in a time leaves no "observedAt" empty anywhere in the payload, changes nothing in a
-- payload where none was, and so a later time never replaces one that was filled in.
fill_exact :
    (time later : String) (j : Json)
    → time ≢ ""
    → (has_open_time (fill_observed_at time j) ≡ false)
      × (has_open_time j ≡ false → fill_observed_at time j ≡ j)
      × (fill_observed_at later (fill_observed_at time j) ≡ fill_observed_at time j)
fill_exact time later j n =
    (filled time j n, closed time j, closed later (fill_observed_at time j) (filled time j n))
