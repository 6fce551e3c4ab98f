-- ===== src/Prelude/Text/Lines.antt =====
-- `str.splitlines`, and what stands at the end of a text.
use Prim.Native.Char.{Char, code}
use Prim.Native.String.{◌++◌}
use text.Mathlib.TextLemmas.{nil-append, cons-append}
use mathlib.Core.List.{List, [], ◌∷◌}
use sonicwall_sdk.Prelude.Tests.{Bool-cases, ◌==◌}
use mathlib.Core.Path.{◌≡◌, refl, ap, sym, ◌∙◌}
use mathlib.Core.Bool.{Bool, true, false}
use Prim.Native.Nat.{ℕ}
use Prim.Native.String.{String}
use mathlib.Core.Logic.{inl, inr}
use text.Mathlib.Text.{◌==◌ as str_eq}
use text.Mathlib.TextEquality.{eq_iff}
use native.Mathlib.Omega.{arith}
use sonicwall_sdk.Prelude.Text.{is_line_break, lines_from, splitlines, drop_last, ends_with, rstrip}

-- A text with no line break in it.
abbrev pub IsLine : String → Type 0
IsLine String.[] = Unit {0}
IsLine (String.◌∷◌ c s) = (is_line_break (code c) ≡ false) × IsLine s

abbrev pub AreLines : List String → Type 0
AreLines [] = Unit {0}
AreLines (l ∷ ls) = IsLine l × AreLines ls

-- Each line with a line feed.
unfoldable pub unlines : List String → String
unlines [] = ""
unlines (l ∷ ls) = l ++ ("\n" ++ unlines ls)

return_is_break : (c : ℕ) → is_line_break c ≡ false → (c == 13) ≡ false
return_is_break c h = ground arith

-- A text of one character before a text.
pub glue : (c : Char) (s : String) → String.◌∷◌ c String.[] ++ s ≡ String.◌∷◌ c s
glue c s = rw (cons-append c String.[] s, nil-append s) refl

lines_from-append :
    (l s : String) → IsLine l → lines_from false (l ++ ("\n" ++ s)) ≡ l ∷ lines_from false s
unfolding lines_from
lines_from-append String.[] s h = rw (nil-append ("\n" ++ s), glue "\n" s) refl
lines_from-append (String.◌∷◌ c l) s h =
    rw (cons-append c l ("\n" ++ s))
      (rw (return_is_break (code c) h.0, h.0) (rw (lines_from-append l s h.1) refl))

pub splitlines-unlines : (ls : List String) → AreLines ls → splitlines (unlines ls) ≡ ls
unfolding splitlines unlines
splitlines-unlines [] h = refl
splitlines-unlines (l ∷ ls) h =
    rw (lines_from-append l (unlines ls) h.0) (rw (splitlines-unlines ls h.1) refl)

-- A text that ends with a character outside the set has nothing to strip at its end.
pub rstrip-ends :
    (p : ℕ → Bool) (x : ℕ) (s : String) → p x ≡ false → ends_with x s ≡ true → rstrip p s ≡ s
unfolding rstrip ends_with
rstrip-ends p x String.[] n h = cc
rstrip-ends p x (String.◌∷◌ c String.[]) n h = let e : code c ≡ x = ground arith in rw (e, n) refl
rstrip-ends p x (String.◌∷◌ c (String.◌∷◌ d s)) n h = rw (rstrip-ends p x (String.◌∷◌ d s) n h) refl

pub ends_with-cons :
    (x : ℕ) (c : Char) (s : String) → ends_with x s ≡ true → ends_with x (String.◌∷◌ c s) ≡ true
unfolding ends_with
ends_with-cons x c String.[] h = cc
ends_with-cons x c (String.◌∷◌ d s) h = h

pub ends_with-append : (x : ℕ) (s t : String) → ends_with x t ≡ true → ends_with x (s ++ t) ≡ true
ends_with-append x String.[] t h = rw (nil-append t) h
ends_with-append x (String.◌∷◌ c s) t h =
    rw (cons-append c s t) (ends_with-cons x c (s ++ t) (ends_with-append x s t h))

drop_last-cons :
    (c d : Char) (s t : String)
    → drop_last (s ++ String.◌∷◌ d String.[]) ≡ t
    → drop_last (String.◌∷◌ c (s ++ String.◌∷◌ d String.[])) ≡ String.◌∷◌ c t
unfolding drop_last
drop_last-cons c d String.[] t h =
    let last = nil-append (String.◌∷◌ d String.[]) in
    rw last (ap (String.◌∷◌ c) (ap drop_last (sym last) ∙ h))
drop_last-cons c d (String.◌∷◌ e s) t h =
    let next = cons-append e s (String.◌∷◌ d String.[]) in
    rw next (ap (String.◌∷◌ c) (ap drop_last (sym next) ∙ h))

pub drop_last-append : (d : Char) (s : String) → drop_last (s ++ String.◌∷◌ d String.[]) ≡ s
unfolding drop_last
drop_last-append d String.[] = rw (nil-append (String.◌∷◌ d String.[])) refl
drop_last-append d (String.◌∷◌ c s) =
    rw (cons-append c s (String.◌∷◌ d String.[])) (drop_last-cons c d s s (drop_last-append d s))

pub str_eq-cons : (c : Char) (s : String) → str_eq (String.◌∷◌ c s) "" ≡ false
str_eq-cons c s = elim (Bool-cases (str_eq (String.◌∷◌ c s) "")) [
  | inl y ↦ cc ((eq_iff (String.◌∷◌ c s) "").0 y)
  | inr n ↦ n
]
