-- ===== src/Auth/Digest/Scan.antt =====
-- The scanner of challenge parameters ends for every text.
use Prim.Native.Nat.{ℕ, zero, suc, ◌+◌, ◌≤◌}
use Prim.Native.Char.{Char, code}
use Prim.Native.String.{count}
use text.Mathlib.TextLemmas.{length-nil, length-cons}
use sonicwall_sdk.Prelude.{
  String, Bool, true, false, Option, none, some, ◌==◌, str_eq, if◌then◌else◌, ◌≡◌, refl, arith,
  Bool-cases, inl, inr,
}
use sonicwall_sdk.Prelude.Text.{span}
use sonicwall_sdk.Auth.Digest.{
  Params, is_word, is_quotable, is_bare, unquoted, quoted_or, match_value, value_after, take_match,
  step, scan,
}

-- A span and its rest are as long as the text.
pub span-length : (p : ℕ → Bool) (s : String) → count (span p s).0 + count (span p s).1 ≡ count s
unfolding span
span-length p String.[] = omega (arith, length-nil)
span-length p (String.◌∷◌ c s) = elim (Bool-cases (p (code c))) [
  | inl y ↦ rw y (omega (arith, length-cons c (span p s).0, length-cons c s, span-length p s))
  | inr n ↦ rw n (omega (arith, length-nil))
]

span-le : (p : ℕ → Bool) (s : String) → count (span p s).1 ≤ count s
span-le p s = omega (arith, span-length p s)

-- What follows a value is no longer than the text.
abbrev AtMost : ℕ → Option (String × String) → Type 0
AtMost n none = Unit {0}
AtMost n (some (v, after)) = count after ≤ n

unquoted-AtMost : (s : String) → AtMost (count s) (unquoted s)
unfolding unquoted
unquoted-AtMost s = elim (Bool-cases (str_eq (span is_bare s).0 "")) [
  | inl y ↦ rw y tt
  | inr n ↦ rw n (span-le is_bare s)
]

quoted_or-AtMost :
    (n : ℕ) (v rest : String) (bare : Option (String × String))
    → count rest ≤ n
    → AtMost n bare
    → AtMost n (quoted_or v rest bare)
unfolding quoted_or
quoted_or-AtMost n v String.[] bare h b = b
quoted_or-AtMost n v (String.◌∷◌ c tail) bare h b = omega (arith, h, length-cons c tail)

match_value-AtMost : (s : String) → AtMost (count s) (match_value s)
unfolding match_value
match_value-AtMost String.[] = tt
match_value-AtMost (String.◌∷◌ c s) = elim (Bool-cases (code c == b'"')) [
  | inl y ↦ rw y (
      quoted_or-AtMost (count (String.◌∷◌ c s)) (span is_quotable s).0 (span is_quotable s).1 _
        (omega (arith, span-le is_quotable s, length-cons c s)) (unquoted-AtMost (String.◌∷◌ c s)))
  | inr n ↦ rw n (unquoted-AtMost (String.◌∷◌ c s))
]

AtMost-le : {n m : ℕ} (o : Option (String × String)) → n ≤ m → AtMost n o → AtMost m o
AtMost-le none h a = tt
AtMost-le (some (v, after)) h a = omega arith

value_after-AtMost : (s : String) → AtMost (count s) (value_after s)
unfolding value_after
value_after-AtMost String.[] = tt
value_after-AtMost (String.◌∷◌ c s) = elim (Bool-cases (code c == b'=')) [
  | inl y ↦ rw y (AtMost-le (match_value s) (omega (arith, length-cons c s)) (match_value-AtMost s))
  | inr n ↦ rw n tt
]

take_match-le :
    (w rest : String) (params : Params) (o : Option (String × String))
    → AtMost (count rest) o
    → count (take_match w rest params o).0 ≤ count rest
take_match-le w rest params none h = omega arith
take_match-le w rest params (some (v, after)) h = h

-- The first character is a word's, so the word takes one at least.
word-lt :
    (c : Char) (s : String)
    → is_word (code c) ≡ true
    → count (span is_word (String.◌∷◌ c s)).1 ≤ count s
unfolding span
word-lt c s y = rw y (span-le is_word s)

if-le :
    (b : Bool) (x y : String × Params) (n : ℕ)
    → (b ≡ true → count x.0 ≤ n)
    → count y.0 ≤ n
    → count (if b then x else y).0 ≤ n
if-le true x y n h k = h refl
if-le false x y n h k = k

pub step-le : (c : Char) (s : String) (params : Params) → count (step c s params).0 ≤ count s
unfolding step
step-le c s params =
    let (w, rest) = span is_word (String.◌∷◌ c s) in
    if-le (is_word (code c)) (take_match w rest params (value_after rest)) (s, params) (count s)
      (λ y. omega (
        arith,
        take_match-le w rest params (value_after rest) (value_after-AtMost rest),
        word-lt c s y,
      ))
      (omega arith)

-- The scanner ends by the end of the text: all fuels that are no less than the length of the text
-- give the same parameters.
scan_enough :
    (fuel more : ℕ) (s : String) (params : Params)
    → count s ≤ fuel
    → count s ≤ more
    → scan fuel s params ≡ scan more s params
unfolding scan
scan_enough zero zero s params h k = refl
scan_enough zero (suc more) String.[] params h k = refl
scan_enough (suc fuel) zero String.[] params h k = refl
scan_enough (suc fuel) (suc more) String.[] params h k = refl
scan_enough zero more (String.◌∷◌ c s) params h k = absurd (omega (arith, length-cons c s))
scan_enough (suc fuel) zero (String.◌∷◌ c s) params h k = absurd (omega (arith, length-cons c s))
scan_enough (suc fuel) (suc more) (String.◌∷◌ c s) params h k =
    let (rest, found) = step c s params in
    scan_enough fuel more rest found (omega (arith, step-le c s params, length-cons c s))
      (omega (arith, step-le c s params, length-cons c s))
