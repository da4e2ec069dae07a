-- ===== src/Config/Origin.antt =====
-- Backend origins of internal/config/config.go. SHA-256 and the parsers of URLs and addresses are
-- the standard library's, and enter as the fields of `Platform`.
use Prim.Native.Char.{Char, code}
use Prim.Native.String.{◌++◌}
use overgent.Prelude.{
  String, ◌≡◌, refl, Bool, true, false, ◌&&◌, ◌||◌, Option, none, some, str_eq, leb, ◌==◌,
  if◌then◌else◌,
}

-- What `url.Parse` reports of an origin.
pub record Url : Type 0 where
  pub scheme : String
  pub host : String
  pub hostname : String

pub record Platform : Type 0 where
  -- the hexadecimal digits of the first 16 bytes of SHA-256
  pub digest16 : String → String
  -- `url.Parse`, with `none` for its error
  pub url_parse : String → Option Url
  -- `net.ParseIP(host).IsLoopback()`, with `none` for nil
  pub ip_is_loopback : String → Option Bool

-- `unicode.IsSpace`
unfoldable pub is_space : Char → Bool
is_space ch =
    let c = code ch in
    (leb 9 c && leb c 13)
    || c == 32
    || c == 0x85
    || c == 0xa0
    || c == 0x1680
    || (leb 0x2000 c && leb c 0x200a)
    || c == 0x2028
    || c == 0x2029
    || c == 0x202f
    || c == 0x205f
    || c == 0x3000

unfoldable pub trim_left : (Char → Bool) → String → String
trim_left cut String.[] = ""
trim_left cut (String.◌∷◌ c s) = if cut c then trim_left cut s else String.◌∷◌ c s

abbrev is_empty : String → Bool
is_empty String.[] = true
is_empty (String.◌∷◌ c s) = false

unfoldable pub trim_right : (Char → Bool) → String → String
trim_right cut String.[] = ""
trim_right cut (String.◌∷◌ c s) =
    let rest = trim_right cut s in if is_empty rest && cut c then "" else String.◌∷◌ c rest

unfoldable pub trim_space : String → String
unfolding is_space trim_left trim_right
trim_space s = trim_right is_space (trim_left is_space s)

abbrev is_slash : Char → Bool
is_slash ch = code ch == b'/'

unfoldable pub canonical_origin : String → String
unfolding trim_space trim_right
canonical_origin origin = trim_right is_slash (trim_space origin)

abbrev pub kind_local : String
kind_local = "local"

abbrev pub kind_team : String
kind_team = "team"

module _ (p : Platform) where
  unfoldable pub is_loopback_origin : String → Bool
  unfolding trim_space
  is_loopback_origin origin = elim (p.url_parse (trim_space origin)) [
    | none ↦ false
    | some url ↦
        if str_eq url.scheme "http" && (if str_eq url.host "" then false else true)
        then (if str_eq url.hostname "localhost"
            then true
            else elim (p.ip_is_loopback url.hostname) [ none ↦ false | some b ↦ b ])
        else false
  ]

  unfoldable pub backend_kind : String → String
  unfolding is_loopback_origin
  backend_kind origin = if is_loopback_origin origin then kind_local else kind_team

  unfoldable pub backend_id : String → String
  unfolding canonical_origin
  backend_id origin = "bk_" ++ p.digest16 ("overgent.backend.v1\0" ++ canonical_origin origin)

canonical_origin_runs : canonical_origin " https://o.example//\n" ≡ "https://o.example"
unfolding canonical_origin
canonical_origin_runs = refl
