-- ===== src/Prelude/Text/Decimal.antt =====
-- The decimal text of a number is read back to it, so the fuel of the printer is enough.
use Prim.Native.Nat.{ℕ, zero, suc, ◌+◌, ◌-◌, ◌*◌, ◌/◌, ◌%◌, ◌<◌}
use Prim.Native.Char.{char, code, nul}
use Prim.Native.String.{String}
use mathlib.Core.Path.{◌≡◌, refl, ap, ◌∙◌}
use mathlib.Core.Logic.{dite, inl, inr}
use native.Mathlib.Decide.{dec_lt}
use native.Mathlib.Omega.{arith}
use sonicwall_sdk.Prelude.Tests.{◌==◌, Bool-cases}
use sonicwall_sdk.Prelude.Text.{IsScalar-ascii, ascii, show_from, show_nat}

-- The number that decimal digits continue.
pub read_from : ℕ → String → ℕ
read_from n String.[] = n
read_from n (String.◌∷◌ c s) = read_from (n * 10 + (code c - b'0')) s

code-char_if :
    (n : ℕ) (d : Dec (n < 128))
    → n < 128
    → code (dite d (λ h. char n (IsScalar-ascii n h)) (λ _. nul)) ≡ n
code-char_if n (yes p) h = refl
code-char_if n (no k) h = absurd (k h)

code-ascii : (n : ℕ) → n < 128 → code (ascii n) ≡ n
unfolding ascii
code-ascii n h = code-char_if n (dec_lt n 128) h

digit-code : (n : ℕ) → code (ascii (b'0' + n % 10)) ≡ b'0' + n % 10
digit-code n = code-ascii (b'0' + n % 10) (omega arith)

read_from-show_from :
    (fuel n : ℕ) (acc : String) → n < fuel → read_from 0 (show_from fuel n acc) ≡ read_from n acc
unfolding show_from read_from
read_from-show_from zero n acc h = absurd (omega arith)
read_from-show_from (suc fuel) n acc h = elim (Bool-cases (n / 10 == 0)) [
  | inl y ↦ rw y (ap (λ k. read_from k acc) (ground (arith, digit-code n)))
  | inr k ↦ rw k (
      read_from-show_from fuel (n / 10) (String.◌∷◌ (ascii (b'0' + n % 10)) acc) (ground arith)
      ∙ ap (λ k. read_from k acc) (ground (arith, digit-code n)))
]

-- Every number is printed whole.
pub read_from-show_nat : (n : ℕ) → read_from 0 (show_nat n) ≡ n
unfolding show_nat read_from
read_from-show_nat n = read_from-show_from (suc n) n String.[] (omega arith)
