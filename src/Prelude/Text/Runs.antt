-- ===== src/Prelude/Text/Runs.antt =====
-- Texts put together character by character, and the runs of characters in them.
use Prim.Native.Nat.{ℕ}
use Prim.Native.Char.{Char, code}
use Prim.Native.String.{String, ◌++◌}
use mathlib.Core.Path.{◌≡◌, refl, ap, ◌∙◌}
use mathlib.Core.Bool.{Bool, true, false}
use text.Mathlib.TextLemmas.{nil-append, cons-append}
use sonicwall_sdk.Prelude.Text.{span, ends_with}
use sonicwall_sdk.Prelude.Text.Lines.{ends_with-cons}

-- `s ++ t`, by the characters of `s`.
unfoldable pub onto : String → String → String
onto String.[] t = t
onto (String.◌∷◌ c s) t = String.◌∷◌ c (onto s t)

pub append-onto : (s t : String) → s ++ t ≡ onto s t
unfolding onto
append-onto String.[] t = nil-append t
append-onto (String.◌∷◌ c s) t = cons-append c s t ∙ ap (String.◌∷◌ c) (append-onto s t)

-- Each character of the text passes the test.
abbrev pub AllOf : (ℕ → Bool) → String → Type 0
AllOf p String.[] = Unit {0}
AllOf p (String.◌∷◌ c s) = (p (code c) ≡ true) × AllOf p s

pub span-onto :
    (p : ℕ → Bool) (a : String) (d : Char) (r : String)
    → AllOf p a
    → p (code d) ≡ false
    → span p (onto a (String.◌∷◌ d r)) ≡ (a, String.◌∷◌ d r)
unfolding span onto
span-onto p String.[] d r h n = rw n refl
span-onto p (String.◌∷◌ c a) d r h n = rw (span-onto p a d r h.1 n, h.0) refl

pub onto-ends : (x : ℕ) (s t : String) → ends_with x t ≡ true → ends_with x (onto s t) ≡ true
unfolding onto
onto-ends x String.[] t h = h
onto-ends x (String.◌∷◌ c s) t h = ends_with-cons x c (onto s t) (onto-ends x s t h)
