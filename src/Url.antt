-- ===== src/Url.antt =====
-- `urllib.parse.urlparse` as _auth.py and _client.py use it, and `urllib.parse.quote` as the
-- resources use it. The checks of `urlparse` on brackets and control characters are not modelled.
use Prim.Native.Nat.{ℕ, ◌+◌, ◌-◌, ◌/◌, ◌%◌}
use Prim.Native.Char.{Char, code}
use Prim.Native.String.{◌++◌}
use mathlib.Core.List.{[], ◌∷◌}
use sonicwall_sdk.Prelude.{
  String, Bool, false, not, ◌&&◌, ◌||◌, ◌==◌, ltb, leb, if◌then◌else◌, ◌≡◌, refl,
}
use sonicwall_sdk.Prelude.Text.{codes, contains, span, ascii, lower_code}

pub record Url : Type 0 where
  pub scheme : String
  pub netloc : String
  pub path : String
  pub query : String

abbrev is_letter : ℕ → Bool
is_letter c = (leb b'a' c && leb c b'z') || (leb b'A' c && leb c b'Z')

abbrev is_digit : ℕ → Bool
is_digit c = leb b'0' c && leb c b'9'

abbrev is_scheme_code : ℕ → Bool
is_scheme_code c = is_letter c || is_digit c || c == b'+' || c == b'-' || c == b'.'

abbrev starts_with_letter : String → Bool
starts_with_letter String.[] = false
starts_with_letter (String.◌∷◌ c s) = is_letter (code c)

map_ascii : (ℕ → ℕ) → String → String
map_ascii f String.[] = String.[]
map_ascii f (String.◌∷◌ c s) = String.◌∷◌ (ascii (f (code c))) (map_ascii f s)

-- The part before the first `:` if it is a scheme, in lower case, and what follows.
split_scheme : String → String × String
unfolding span map_ascii ascii lower_code
split_scheme s =
    let (name, rest) = span is_scheme_code s in
    elim rest [
      | String.[] ↦ (String.[], s)
      | String.◌∷◌ c tail ↦
          if code c == b':' && starts_with_letter name
          then (map_ascii lower_code name, tail)
          else (String.[], s)
    ]

abbrev is_netloc_code : ℕ → Bool
is_netloc_code c = not (c == b'/' || c == b'?' || c == b'#')

split_netloc : String → String × String
unfolding span
split_netloc (String.◌∷◌ a (String.◌∷◌ b s)) =
    if code a == b'/' && code b == b'/'
    then span is_netloc_code s
    else (String.[], String.◌∷◌ a (String.◌∷◌ b s))
split_netloc s = (String.[], s)

-- What stands before and behind the first `d`.
split_at : ℕ → String → String × String
unfolding span
split_at d s =
    let (a, rest) = span (λ c. not (c == d)) s in
    elim rest [ String.[] ↦ (a, String.[]) | String.◌∷◌ _ tail ↦ (a, tail) ]

-- The path without the parameters that a `;` begins in its last segment.
drop_params : String → String
unfolding span contains
drop_params String.[] = String.[]
drop_params (String.◌∷◌ c s) =
    let rest = drop_params s in
    if code c == b';' && not (contains (b'/' ∷ []) (codes s)) then String.[] else String.◌∷◌ c rest

unfoldable pub urlparse : String → Url
unfolding split_scheme split_netloc split_at drop_params
urlparse url =
    let (scheme, s) = split_scheme url in
    let (netloc, t) = split_netloc s in
    let (u, fragment) = split_at b'#' t in
    let (path, query) = split_at b'?' u in
    record { scheme = scheme; netloc = netloc; path = drop_params path; query = query }

hex_code : ℕ → ℕ
hex_code n = if ltb n 10 then b'0' + n else b'A' + (n - 10)

-- `%XX` for a byte
percent : ℕ → String
unfolding hex_code ascii
percent b =
    String.◌∷◌ (ascii b'%')
      (String.◌∷◌ (ascii (hex_code (b / 16))) (String.◌∷◌ (ascii (hex_code (b % 16))) String.[]))

-- The characters that `quote` never escapes.
abbrev is_unreserved : ℕ → Bool
is_unreserved c = is_letter c || is_digit c || c == b'_' || c == b'.' || c == b'-' || c == b'~'

-- A character as its UTF-8 bytes, escaped.
quote_char : Char → String
unfolding percent
quote_char c =
    let n = code c in
    if is_unreserved n
    then String.◌∷◌ c String.[]
    else if ltb n 0x80
    then percent n
    else if ltb n 0x800
    then percent (0xC0 + n / 0x40) ++ percent (0x80 + n % 0x40)
    else if ltb n 0x10000
    then percent (0xE0 + n / 0x1000)
      ++ (percent (0x80 + n / 0x40 % 0x40) ++ percent (0x80 + n % 0x40))
    else percent (0xF0 + n / 0x40000)
      ++ (percent (0x80 + n / 0x1000 % 0x40)
          ++ (percent (0x80 + n / 0x40 % 0x40) ++ percent (0x80 + n % 0x40)))

-- `quote(s, safe="")`
unfoldable pub quote : String → String
unfolding quote_char
quote String.[] = String.[]
quote (String.◌∷◌ c s) = quote_char c ++ quote s

urlparse_auth :
    urlparse "https://fw:8443/api/sonicos/auth"
    ≡ record { scheme = "https"; netloc = "fw:8443"; path = "/api/sonicos/auth"; query = "" }
unfolding urlparse
urlparse_auth = refl

quote_runs : quote "a b/ü" ≡ "a%20b%2F%C3%BC"
unfolding quote
quote_runs = refl
