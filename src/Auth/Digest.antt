-- ===== src/Auth/Digest.antt =====
-- The Digest `auth-int` helpers of _auth.py. A `dict` of texts is a list of keys with values; the
-- regular expressions are read over ASCII.
pub mod Choice
pub mod Scan
pub mod Header
use Prim.Native.Nat.{ℕ, zero, suc}
use Prim.Native.Char.{Char, code}
use Prim.Native.String.{count, ◌++◌}
use mathlib.Core.List.{[], ◌∷◌}
use sonicwall_sdk.Prelude.{
  String, Bool, true, false, not, ◌&&◌, ◌||◌, Option, none, some, List, ◌==◌, str_eq, ltb, leb,
  if◌then◌else◌, ◌≡◌, refl,
}
use sonicwall_sdk.Prelude.Text.{
  codes, contains, begins_with, same_codes, span, lower, upper, upper_text, strip, lstrip, rstrip,
  is_space,
}
use sonicwall_sdk.Errors.{Result, ok, err, builtin, key_error, ◌>>=◌}
use sonicwall_sdk.Url.{Url, urlparse}
use sonicwall_sdk.Transport.{Env, Response, get_list}

abbrev pub Params : Type 0
Params = List (String × String)

-- `params.get(k)`
unfoldable pub lookup : String → Params → Option String
lookup k [] = none
lookup k ((j, v) ∷ l) = if str_eq j k then some v else lookup k l

-- `params[k] = v`
unfoldable pub assign : String → String → Params → Params
assign k v [] = (k, v) ∷ []
assign k v ((j, w) ∷ l) = if str_eq j k then (k, v) ∷ l else (j, w) ∷ assign k v l

-- `\w`
abbrev pub is_word : ℕ → Bool
is_word c =
    (leb b'0' c && leb c b'9')
    || (leb b'a' c && leb c b'z')
    || (leb b'A' c && leb c b'Z')
    || c == b'_'

-- `[^"]`
abbrev pub is_quotable : ℕ → Bool
is_quotable c = not (c == b'"')

-- `[^,\s]`
abbrev pub is_bare : ℕ → Bool
is_bare c = not (c == b',' || is_space c)

unquoted : String → Option (String × String)
unfolding span
unquoted s = let (v, rest) = span is_bare s in if str_eq v "" then none else some (v, rest)

-- The quoted value and what follows its end, if it has one; the bare value otherwise.
quoted_or : String → String → Option (String × String) → Option (String × String)
quoted_or v String.[] bare = bare
quoted_or v (String.◌∷◌ _ tail) bare = some (v, tail)

-- `(?:"([^"]*?)"|([^,\s]+))`: the value at the beginning of a text and what follows it.
pub match_value : String → Option (String × String)
unfolding span unquoted quoted_or
match_value String.[] = none
match_value (String.◌∷◌ c s) =
    let (v, rest) = span is_quotable s in
    let bare = unquoted (String.◌∷◌ c s) in if code c == b'"' then quoted_or v rest bare else bare

-- `=` and a value.
pub value_after : String → Option (String × String)
unfolding match_value
value_after String.[] = none
value_after (String.◌∷◌ e tail) = if code e == b'=' then match_value tail else none

abbrev take_match : String → String → Params → Option (String × String) → String × Params
take_match w rest params none = (rest, params)
take_match w rest params (some (v, after)) = (after, assign w v params)

-- One round of `finditer` of `(\w+)=` and a value: the text that is left, and the parameters. A word
-- that no match begins at is passed over whole, since a match inside it would end in the same `=`
-- and value.
pub step : Char → String → Params → String × Params
unfolding span value_after assign
step c s params =
    let (w, rest) = span is_word (String.◌∷◌ c s) in
    if is_word (code c) then take_match w rest params (value_after rest) else (s, params)

-- All rounds. `fuel` bounds the length of the text.
pub scan : ℕ → String → Params → Params
unfolding step
scan zero s params = params
scan (suc fuel) String.[] params = params
scan (suc fuel) (String.◌∷◌ c s) params =
    let (rest, found) = step c s params in scan fuel rest found

-- `re.sub(r"^[Dd]igest\s+", "", s)`
pub drop_scheme : String → String
unfolding span contains begins_with same_codes lstrip
drop_scheme (String.◌∷◌ c s) =
    let (w, rest) = span (λ d. not (is_space d)) s in
    let after = lstrip is_space rest in
    if (code c == b'D' || code c == b'd') && str_eq w "igest" && not (str_eq rest "")
    then after
    else String.◌∷◌ c s
drop_scheme String.[] = String.[]

-- `_parse_digest_challenge`
unfoldable pub parse_digest_challenge : String → Params
unfolding scan drop_scheme lstrip rstrip
parse_digest_challenge www_auth =
    let body = drop_scheme (strip www_auth) in scan (suc (count body)) body []

abbrev pub or_text : String → Option String → String
or_text d none = d
or_text d (some s) = s

-- `value.lower().startswith("digest")`
abbrev is_digest : String → Bool
is_digest value = begins_with (codes "digest") (lower value)

-- `"auth-int" in c.get("qop", "")`
abbrev pub has_auth_int : Params → Bool
has_auth_int c = contains (codes "auth-int") (codes (or_text "" (lookup "qop" c)))

-- The loop over the headers.
unfoldable pub challenges : List String → List Params
unfolding parse_digest_challenge begins_with contains lookup lower
challenges [] = []
challenges (value ∷ values) =
    let rest = challenges values in
    let c = parse_digest_challenge value in
    if is_digest value && has_auth_int c then c ∷ rest else rest

-- `c.get("algorithm", "MD5").upper()`
abbrev pub algorithm_of : Params → List ℕ
algorithm_of c = upper (or_text "MD5" (lookup "algorithm" c))

-- `_priority`
unfoldable pub priority : Params → ℕ
unfolding same_codes upper lookup
priority c =
    if same_codes (algorithm_of c) (codes "SHA-256")
    then 0
    else if same_codes (algorithm_of c) (codes "SHA-256-SESS")
    then 1
    else 2

-- `min(challenges, key=_priority)`: the first one with the least key
unfoldable pub best : Params → List Params → Params
unfolding priority
best c [] = c
best c (d ∷ ds) = best (if ltb (priority d) (priority c) then d else c) ds

abbrev best_of : List Params → Option Params
best_of [] = none
best_of (c ∷ cs) = some (best c cs)

-- `_pick_challenge`
unfoldable pub pick_challenge : Response → Option Params
unfolding challenges best get_list
pick_challenge r = best_of (challenges (get_list "www-authenticate" r.headers))

abbrev index : String → Option String → Result String
index key none = err (builtin key_error ("'" ++ (key ++ "'")))
index key (some v) = ok v

abbrev colon : String → String → String
colon a b = a ++ (":" ++ b)

abbrev pub nc : String
nc = "00000001"

-- The texts that the response to a challenge hashes.
module _ (h : String → String) where
  -- `ha1`
  unfoldable pub ha1 : Bool → String → String → String → String → String → String
  ha1 sess username realm password nonce cnonce =
      let first = h (colon username (colon realm password)) in
      if sess then h (colon first (colon nonce cnonce)) else first

  -- `ha2`: the hash of the body is part of it
  unfoldable pub ha2 : String → String → String → String
  ha2 method uri body = h (colon method (colon uri (h body)))

  unfoldable pub digest_response : String → String → String → String → String
  digest_response first nonce cnonce second =
      h (colon first (colon nonce (colon nc (colon cnonce (colon "auth-int" second)))))

abbrev pub uri_of : Url → String
uri_of u = u.path ++ (if str_eq u.query "" then "" else "?" ++ u.query)

-- The f-string of the header.
pub header_text : String → String → String → String → String → String → String → String
header_text username realm nonce uri algorithm cnonce response =
    "Digest username=\""
    ++ (username
        ++ ("\", realm=\""
            ++ (realm
                ++ ("\", nonce=\""
                    ++ (nonce
                        ++ ("\", uri=\""
                            ++ (uri
                                ++ ("\", algorithm="
                                    ++ (algorithm
                                        ++ (", qop=auth-int, nc="
                                            ++ (nc
                                                ++ (", cnonce=\""
                                                    ++ (cnonce
                                                        ++ ("\", response=\""
                                                            ++ (response ++ "\"")))))))))))))))

-- `_build_digest_auth_header`; `cnonce` is what `os.urandom` gives
unfoldable pub build_digest_auth_header :
    Env → String → String → String → String → String → String → Params → Result String
unfolding lookup upper contains urlparse ha1 ha2 digest_response header_text upper_text
build_digest_auth_header env cnonce method url body username password challenge = do
  realm ← index "realm" (lookup "realm" challenge)
  nonce ← index "nonce" (lookup "nonce" challenge)
  let algorithm = algorithm_of challenge
  let h = if contains (codes "SHA-256") algorithm then env.sha256 else env.md5
  let uri = uri_of (urlparse url)
  let first = ha1 h (contains (codes "SESS") algorithm) username realm password nonce cnonce
  let response = digest_response h first nonce cnonce (ha2 h method uri body)
  let opaque = or_text "" (lookup "opaque" challenge)
  ok (
      header_text username realm nonce uri
        (upper_text (or_text "MD5" (lookup "algorithm" challenge))) cnonce response
      ++ (if str_eq opaque "" then "" else ", opaque=\"" ++ (opaque ++ "\"")))

tests : Unit {0}
unfolding parse_digest_challenge pick_challenge
tests = tt

parse_two :
    parse_digest_challenge "Digest realm=\"fw\", qop=\"auth,auth-int\", algorithm=MD5"
    ≡ ("realm", "fw") ∷ ("qop", "auth,auth-int") ∷ ("algorithm", "MD5") ∷ []
unfolding tests
parse_two = refl
