-- ===== src/Injection/Text.antt =====
-- The functions on text that the injection of internal/app/app.go uses: `strings.Join(strings.Fields(s), " ")`, and `validContractID`.
use Prim.Native.Char.{code}
use Prim.Native.String.{◌++◌ as concat}
use overgent.Prelude.{
  ℕ, String, ◌≡◌, refl, Bool, true, false, ◌&&◌, ◌||◌, List, [], ◌∷◌, str_eq, leb, ◌==◌,
  if◌then◌else◌,
}
use Prim.Native.String.{len}
use overgent.Config.Origin.{is_space}

-- Put the word that was read before the words that follow.
abbrev word_before : String → List String → List String
word_before word words = if str_eq word "" then words else word ∷ words

-- `strings.Fields`, from the word read so far.
unfoldable pub fields_from : String → String → List String
fields_from word String.[] = word_before word []
fields_from word (String.◌∷◌ c s) =
    let next = fields_from "" s in
    let more = fields_from (concat word (String.◌∷◌ c "")) s in
    if is_space c then word_before word next else more

unfoldable pub join_words : List String → String
join_words [] = ""
join_words (w ∷ []) = w
join_words (w ∷ v ∷ ws) = concat w (concat " " (join_words (v ∷ ws)))

unfoldable pub join_fields : String → String
unfolding fields_from join_words
join_fields s = join_words (fields_from "" s)

abbrev is_lower : ℕ → Bool
is_lower n = leb 97 n && leb n 122

abbrev is_id_char : ℕ → Bool
is_id_char n = is_lower n || (leb 48 n && leb n 57) || n == 95

unfoldable pub all_id_chars : String → Bool
all_id_chars String.[] = true
all_id_chars (String.◌∷◌ c s) = is_id_char (code c) && all_id_chars s

-- ^[a-z][a-z0-9_]{2,127}$
unfoldable pub is_contract_id : String → Bool
unfolding all_id_chars
is_contract_id String.[] = false
is_contract_id (String.◌∷◌ c s) =
    is_lower (code c) && all_id_chars s && leb 2 (len s) && leb (len s) 127

join_fields_runs : join_fields "  a \n\tb c " ≡ "a b c"
unfolding join_fields is_space
join_fields_runs = refl

contract_ids_run :
    (is_contract_id "wrk_1" ≡ true) × (is_contract_id "Wrk" ≡ false) × (is_contract_id "ab" ≡ false)
unfolding is_contract_id
contract_ids_run = (refl, refl, refl)
