-- ===== src/Store/Payload.antt =====
-- JSON values as `json.Unmarshal` builds them, and `fillObservedAt` of internal/store/store.go.
pub mod Times
use overgent.Prelude.{String, Bool, false, ◌&&◌, str_eq, if◌then◌else◌}

mutual
  pub data Json : Type 0 where
    null : Json
    boolean : Bool → Json
    -- a number in its text form
    number : String → Json
    text : String → Json
    array : Items → Json
    object : Fields → Json

  pub data Items : Type 0 where
    nil : Items
    cons : Json → Items → Items

  pub data Fields : Type 0 where
    end : Fields
    field : String → Json → Fields → Fields

abbrev is_unset : Json → Bool
is_unset (text s) = str_eq s ""
is_unset _ = false

-- An observation time that the caller left for the store to fill.
abbrev pub wants_time : String → Json → Bool
wants_time key item = str_eq key "observedAt" && is_unset item

unfoldable mutual
  pub fill_observed_at : String → Json → Json
  fill_observed_at time null = null
  fill_observed_at time (boolean b) = boolean b
  fill_observed_at time (number s) = number s
  fill_observed_at time (text s) = text s
  fill_observed_at time (array xs) = array (fill_items time xs)
  fill_observed_at time (object fs) = object (fill_fields time fs)

  pub fill_items : String → Items → Items
  fill_items time nil = nil
  fill_items time (cons x xs) = cons (fill_observed_at time x) (fill_items time xs)

  pub fill_fields : String → Fields → Fields
  fill_fields time end = end
  fill_fields time (field key item fs) =
      field key (if wants_time key item then text time else fill_observed_at time item)
        (fill_fields time fs)
