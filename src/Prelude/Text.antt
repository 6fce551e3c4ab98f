-- ===== src/Prelude/Text.antt =====
-- The methods of Python's `str` that the package calls. A text is a native `String`; where the
-- code looks inside a text, the functions walk its code points. Letters are folded, and digits and
-- spaces recognised, over ASCII only.
pub mod Decimal
pub mod Lines
pub mod Runs
use Prim.Native.Nat.{ℕ, zero, suc, ◌+◌, ◌-◌, ◌/◌, ◌%◌, ◌<◌, compare, Ordering}
use Prim.Native.Char.{Char, char, code, nul, IsScalar}
use Prim.Native.String.{String}
use mathlib.Core.Path.{◌≡◌, refl}
use mathlib.Core.Bool.{Bool, true, false, ◌&&◌, ◌||◌}
use mathlib.Core.Logic.{dite}
use mathlib.Core.List.{List, [], ◌∷◌, map}
use native.Mathlib.Decide.{dec_lt}
use native.Mathlib.Omega.{arith}
use sonicwall_sdk.Prelude.Tests.{leb, ◌==◌, if◌then◌else◌}

-- The code points of a text.
abbrev pub codes : String → List ℕ
codes String.[] = []
codes (String.◌∷◌ c s) = code c ∷ codes s

pub IsScalar-ascii : (n : ℕ) → n < 128 → IsScalar n
IsScalar-ascii n h = let e : compare n 55296 ≡ Ordering.lt = ground arith in rw e tt

-- The character of an ASCII code.
unfoldable pub ascii : ℕ → Char
unfolding dec_lt
ascii n = dite (dec_lt n 128) (λ h. char n (IsScalar-ascii n h)) (λ _. nul)

-- `str.lower`, as code points.
unfoldable pub lower_code : ℕ → ℕ
lower_code c = if leb b'A' c && leb c b'Z' then c + 32 else c

unfoldable pub lower : String → List ℕ
unfolding lower_code
lower s = map lower_code (codes s)

-- `str.upper`, as code points.
unfoldable pub upper_code : ℕ → ℕ
upper_code c = if leb b'a' c && leb c b'z' then c - 32 else c

unfoldable pub upper : String → List ℕ
unfolding upper_code
upper s = map upper_code (codes s)

unfoldable pub upper_text : String → String
unfolding ascii upper_code
upper_text String.[] = String.[]
upper_text (String.◌∷◌ c s) =
    let rest = upper_text s in
    if leb b'a' (code c) && leb (code c) b'z'
    then String.◌∷◌ (ascii (upper_code (code c))) rest
    else String.◌∷◌ c rest

unfoldable pub lower_text : String → String
unfolding ascii lower_code
lower_text String.[] = String.[]
lower_text (String.◌∷◌ c s) =
    let rest = lower_text s in
    if leb b'A' (code c) && leb (code c) b'Z'
    then String.◌∷◌ (ascii (lower_code (code c))) rest
    else String.◌∷◌ c rest

-- The code points at which `str.splitlines` splits.
abbrev pub is_line_break : ℕ → Bool
is_line_break c =
    (leb 10 c && leb c 13) || (leb 28 c && leb c 30) || c == 133 || c == 8232 || c == 8233

abbrev on_first_line : Char → List String → List String
on_first_line c [] = String.◌∷◌ c String.[] ∷ []
on_first_line c (l ∷ ls) = String.◌∷◌ c l ∷ ls

-- The lines of a text, which stands after a carriage return or not.
lines_from : Bool → String → List String
lines_from after_return String.[] = []
lines_from after_return (String.◌∷◌ c s) =
    let rest = lines_from (code c == 13) s in
    if after_return && code c == 10
    then rest
    else if is_line_break (code c)
    then String.[] ∷ rest
    else on_first_line c rest

-- `s.splitlines()`
unfoldable pub splitlines : String → List String
unfolding lines_from
splitlines s = lines_from false s

-- `s[:-1]`
unfoldable pub drop_last : String → String
drop_last String.[] = String.[]
drop_last (String.◌∷◌ c String.[]) = String.[]
drop_last (String.◌∷◌ c (String.◌∷◌ d s)) = String.◌∷◌ c (drop_last (String.◌∷◌ d s))

-- `s.endswith(c)` for one character, given as its code point
unfoldable pub ends_with : ℕ → String → Bool
ends_with x String.[] = false
ends_with x (String.◌∷◌ c String.[]) = code c == x
ends_with x (String.◌∷◌ c (String.◌∷◌ d s)) = ends_with x (String.◌∷◌ d s)

-- `s.startswith(p)`
unfoldable pub begins_with : List ℕ → List ℕ → Bool
begins_with [] s = true
begins_with (p ∷ ps) [] = false
begins_with (p ∷ ps) (c ∷ cs) = (p == c) && begins_with ps cs

-- `p in s`
unfoldable pub contains : List ℕ → List ℕ → Bool
unfolding begins_with
contains p [] = begins_with p []
contains p (c ∷ cs) = begins_with p (c ∷ cs) || contains p cs

unfoldable pub same_codes : List ℕ → List ℕ → Bool
same_codes [] [] = true
same_codes (a ∷ as') (b ∷ bs) = (a == b) && same_codes as' bs
same_codes _ _ = false

abbrev pub is_slash : ℕ → Bool
is_slash c = c == b'/'

-- The ASCII characters that `str.isspace` accepts.
abbrev pub is_space : ℕ → Bool
is_space c = c == 32 || (leb 9 c && leb c 13) || (leb 28 c && leb c 31)

-- `s.lstrip()` for the characters of a set
unfoldable pub lstrip : (ℕ → Bool) → String → String
lstrip p String.[] = String.[]
lstrip p (String.◌∷◌ c s) = let rest = lstrip p s in if p (code c) then rest else String.◌∷◌ c s

-- `(c + s).rstrip()` for an `s` that is stripped
push_unless : (ℕ → Bool) → Char → String → String
push_unless p c String.[] = if p (code c) then String.[] else String.◌∷◌ c String.[]
push_unless p c (String.◌∷◌ d s) = String.◌∷◌ c (String.◌∷◌ d s)

-- `s.rstrip()` for the characters of a set
unfoldable pub rstrip : (ℕ → Bool) → String → String
unfolding push_unless
rstrip p String.[] = String.[]
rstrip p (String.◌∷◌ c s) = push_unless p c (rstrip p s)

-- `s.strip()`
abbrev pub strip : String → String
strip s = rstrip is_space (lstrip is_space s)

-- The longest beginning of `s` whose characters pass the test, and the rest.
unfoldable pub span : (ℕ → Bool) → String → String × String
span p String.[] = (String.[], String.[])
span p (String.◌∷◌ c s) =
    let (a, b) = span p s in if p (code c) then (String.◌∷◌ c a, b) else (String.[], String.◌∷◌ c s)

-- Decimal digits of a number, most significant first; `fuel` bounds their count.
show_from : ℕ → ℕ → String → String
unfolding ascii
show_from zero n acc = acc
show_from (suc fuel) n acc =
    let acc' = String.◌∷◌ (ascii (b'0' + n % 10)) acc in
    let rest = show_from fuel (n / 10) acc' in if n / 10 == 0 then acc' else rest

-- `str(n)`: a number has at most `n + 1` digits.
unfoldable pub show_nat : ℕ → String
unfolding show_from
show_nat n = show_from (suc n) n String.[]

show_nat-404 : show_nat 404 ≡ "404"
unfolding show_nat
show_nat-404 = refl

lower-contains : contains (codes "api not found") (lower "E: API not Found") ≡ true
unfolding contains lower
lower-contains = refl

strips : rstrip is_slash "https://fw//" ≡ "https://fw"
unfolding rstrip
strips = refl
