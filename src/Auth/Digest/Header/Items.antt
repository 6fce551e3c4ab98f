-- ===== src/Auth/Digest/Header/Items.antt =====
-- What the scanner of challenge parameters reads from items written one after the other.
use Prim.Native.Nat.{ℕ, zero, suc, ◌≤◌}
use Prim.Native.Char.{Char, code}
use Prim.Native.String.{count}
use text.Mathlib.TextLemmas.{length-cons}
use sonicwall_sdk.Prelude.{
  String, true, false, Option, none, some, ◌==◌, str_eq, if◌then◌else◌, ◌≡◌, refl, ap, ◌∙◌, arith,
}
use sonicwall_sdk.Prelude.Text.{span}
use sonicwall_sdk.Prelude.Text.Lines.{str_eq-cons}
use sonicwall_sdk.Prelude.Text.Runs.{onto, AllOf, span-onto}
use sonicwall_sdk.Auth.Digest.{
  Params, is_word, is_quotable, is_bare, assign, unquoted, quoted_or, value_after, take_match, step,
  scan,
}
use sonicwall_sdk.Auth.Digest.Scan.{step-le}

-- With enough fuel, the scanner goes from these parameters to those.
abbrev pub Reads : String → Params → Params → Type 0
Reads s params result = (fuel : ℕ) → count s ≤ fuel → scan fuel s params ≡ result

pub Reads-end : (params : Params) → Reads "" params params
unfolding scan
Reads-end params zero h = refl
Reads-end params (suc fuel) h = refl

Reads-step :
    (c : Char) (s : String) (params : Params) (rest : String) (found result : Params)
    → step c s params ≡ (rest, found)
    → Reads rest found result
    → Reads (String.◌∷◌ c s) params result
unfolding scan
Reads-step c s params rest found result e h zero k = absurd (omega (arith, length-cons c s))
Reads-step c s params rest found result e h (suc fuel) k =
    ap (λ (q : String × Params). scan fuel q.0 q.1) e
    ∙ h fuel (
        omega
          (arith, length-cons c s, step-le c s params, ap (λ (q : String × Params). count q.0) e))

-- A word, and what may follow it.
step_word :
    (c : Char) (s w rest : String) (params : Params)
    → is_word (code c) ≡ true
    → span is_word (String.◌∷◌ c s) ≡ (w, rest)
    → step c s params ≡ take_match w rest params (value_after rest)
unfolding step
step_word c s w rest params h e =
    ap
      (λ (q : String × String).
        if is_word (code c) then take_match q.0 q.1 params (value_after q.1) else (s, params))
      e
    ∙ rw h refl

quoted_lem :
    (v rest : String)
    → AllOf is_quotable v
    → value_after (String.◌∷◌ "=" (String.◌∷◌ "\"" (onto v (String.◌∷◌ "\"" rest))))
      ≡ some (v, rest)
unfolding value_after
quoted_lem v rest free =
    let s = onto v (String.◌∷◌ "\"" rest) in
    ap (λ (q : String × String). quoted_or q.0 q.1 (unquoted (String.◌∷◌ "\"" s)))
      (span-onto is_quotable v "\"" rest free refl)

unquoted_lem :
    (d : Char) (w rest : String)
    → AllOf is_bare (String.◌∷◌ d w)
    → unquoted (onto (String.◌∷◌ d w) (String.◌∷◌ "," rest))
      ≡ some (String.◌∷◌ d w, String.◌∷◌ "," rest)
unfolding unquoted
unquoted_lem d w rest free =
    ap (λ (q : String × String). if str_eq q.0 "" then none else some (q.0, q.1))
      (span-onto is_bare (String.◌∷◌ d w) "," rest free refl)
    ∙ rw (str_eq-cons d w) refl

bare_lem :
    (d : Char) (w rest : String)
    → (code d == b'"') ≡ false
    → AllOf is_bare (String.◌∷◌ d w)
    → value_after (String.◌∷◌ "=" (onto (String.◌∷◌ d w) (String.◌∷◌ "," rest)))
      ≡ some (String.◌∷◌ d w, String.◌∷◌ "," rest)
unfolding value_after onto
bare_lem d w rest n free = rw n (unquoted_lem d w rest free)

module _ (c : Char) (k rest : String) (params : Params)
    (word : AllOf is_word (String.◌∷◌ c k)) where
  named :
      (after : String) (o : Option (String × String))
      → value_after (String.◌∷◌ "=" after) ≡ o
      → step c (onto k (String.◌∷◌ "=" after)) params
        ≡ take_match (String.◌∷◌ c k) (String.◌∷◌ "=" after) params o
  unfolding onto
  named after o e =
      step_word c (onto k (String.◌∷◌ "=" after)) (String.◌∷◌ c k) (String.◌∷◌ "=" after) params
        word.0 (span-onto is_word (String.◌∷◌ c k) "=" after word refl)
      ∙ ap (take_match (String.◌∷◌ c k) (String.◌∷◌ "=" after) params) e

  -- A name with a value in quotes is read, and the rest after it.
  pub Reads-quoted :
      (v : String) (result : Params)
      → AllOf is_quotable v
      → Reads rest (assign (String.◌∷◌ c k) v params) result
      → Reads
          (String.◌∷◌ c (onto k (String.◌∷◌ "=" (String.◌∷◌ "\"" (onto v (String.◌∷◌ "\"" rest))))))
          params
          result
  Reads-quoted v result free =
      Reads-step c _ params rest (assign (String.◌∷◌ c k) v params) result
        (named _ (some (v, rest)) (quoted_lem v rest free))

  -- So is one with a bare value before a comma.
  pub Reads-bare :
      (d : Char) (w : String) (result : Params)
      → (code d == b'"') ≡ false
      → AllOf is_bare (String.◌∷◌ d w)
      → Reads (String.◌∷◌ "," rest) (assign (String.◌∷◌ c k) (String.◌∷◌ d w) params) result
      → Reads
          (String.◌∷◌ c (onto k (String.◌∷◌ "=" (onto (String.◌∷◌ d w) (String.◌∷◌ "," rest)))))
          params
          result
  Reads-bare d w result n free =
      Reads-step c _ params (String.◌∷◌ "," rest) (assign (String.◌∷◌ c k) (String.◌∷◌ d w) params)
        result (named _ (some (String.◌∷◌ d w, String.◌∷◌ "," rest)) (bare_lem d w rest n free))

-- What is no word's is passed over.
skip_lem :
    (c : Char) (s : String) (params : Params)
    → is_word (code c) ≡ false
    → step c s params ≡ (s, params)
unfolding step
skip_lem c s params n = rw n refl

pub Reads-separator :
    (rest : String) (params result : Params)
    → Reads rest params result
    → Reads (String.◌∷◌ "," (String.◌∷◌ " " rest)) params result
Reads-separator rest params result h =
    Reads-step "," _ params _ params result (skip_lem "," _ params refl)
      (Reads-step " " rest params rest params result (skip_lem " " rest params refl) h)
