-- ===== src/VersionSync/Rewrite.antt =====
-- What the rewriting of a version in a file leaves: the version is there, and a second run changes
-- nothing.
use Prim.Native.Char.{Char, code}
use Prim.Native.String.{◌++◌}
use sonicwall_sdk.Prelude.{
  ℕ, String, Bool, true, false, not, Option, none, some, ◌==◌, ==_iff, if◌then◌else◌, ◌≡◌, inl, inr,
  refl, ap, ◌∙◌, arith, Bool-cases, Option-cases,
}
use sonicwall_sdk.Prelude.Text.{span}
use sonicwall_sdk.Prelude.Text.Lines.{glue}
use sonicwall_sdk.Prelude.Text.Runs.{onto, append-onto, AllOf, span-onto}
use sonicwall_sdk.VersionSync.{after_prefix, closed, run_to, and_run, matched, replaced, sub_line}

abbrev pub is_inside : ℕ → Bool
is_inside c = not (c == b'"')

abbrev pub stays : ℕ → Bool
stays c = not (c == 10)

same_code : (n : ℕ) → (n == n) ≡ true
same_code n = (==_iff n n).1 refl

after_prefix-onto : (p t : String) → after_prefix p (onto p t) ≡ some t
unfolding after_prefix onto
after_prefix-onto String.[] t = refl
after_prefix-onto (String.◌∷◌ x p) t = rw (same_code (code x), after_prefix-onto p t) refl

run_to-onto :
    (d : Char) (w after : String)
    → AllOf is_inside (String.◌∷◌ d w)
    → run_to b'"' (onto (String.◌∷◌ d w) (String.◌∷◌ "\"" after)) ≡ some (String.◌∷◌ d w, after)
unfolding run_to
run_to-onto d w after free =
    ap (λ (q : String × String). closed q.0 q.1)
      (span-onto is_inside (String.◌∷◌ d w) "\"" after free refl)

-- Where a run does not end there is nothing to run over, or a quote, or no quote at all.
data NoRun : String → Type 0 where
  over : NoRun String.[]
  quote : (c : Char) (s : String) → is_inside (code c) ≡ false → NoRun (String.◌∷◌ c s)
  open_end : (s : String) → AllOf is_inside s → NoRun s

span_end : (s : String) → (span is_inside s).1 ≡ "" → AllOf is_inside s
unfolding span
span_end String.[] h = tt
span_end (String.◌∷◌ c s) h = elim (Bool-cases (is_inside (code c))) [
  | inl y ↦ (y, span_end s (rw y at h))
  | inr n ↦ cc (rw n at h)
]

no_run : (s : String) → run_to b'"' s ≡ none → NoRun s
unfolding run_to
no_run String.[] h = over
no_run (String.◌∷◌ c s) h = elim (Bool-cases (is_inside (code c))) [
  | inl y ↦
      open_end (String.◌∷◌ c s) (y, ends (span is_inside s).0 (span is_inside s).1 refl (rw y at h))
  | inr n ↦ quote c s n
]
  where
    ends :
        (v rest : String)
        → (span is_inside s).1 ≡ rest
        → closed (String.◌∷◌ c v) rest ≡ none
        → AllOf is_inside s
    ends v String.[] e k = span_end s e
    ends v (String.◌∷◌ a t) e k = cc

AllOf-span : (s : String) → AllOf is_inside s → span is_inside s ≡ (s, "")
unfolding span
AllOf-span String.[] h = refl
AllOf-span (String.◌∷◌ c s) h = rw (AllOf-span s h.1, h.0) refl

closed_open : (v : String) → closed v "" ≡ none
closed_open String.[] = refl
closed_open (String.◌∷◌ d w) = refl

open_run : (s : String) → AllOf is_inside s → run_to b'"' s ≡ none
unfolding run_to
open_run s h = ap (λ (q : String × String). closed q.0 q.1) (AllOf-span s h) ∙ closed_open s

open_matched : (p s : String) → AllOf is_inside s → matched p s ≡ none
unfolding matched
open_matched String.[] s h = open_run s h
open_matched (String.◌∷◌ x p) String.[] h = refl
open_matched (String.◌∷◌ x p) (String.◌∷◌ c s) h = elim (Bool-cases (code c == code x)) [
  | inl y ↦ rw y (open_matched p s h.1)
  | inr n ↦ rw n refl
]

-- A text with no quote in it is left alone.
open_sub_line :
    (p ver : String) (b : Bool) (s : String) → AllOf is_inside s → sub_line p ver b s ≡ s
unfolding sub_line
open_sub_line p ver b String.[] h = refl
open_sub_line p ver true (String.◌∷◌ c s) h =
    rw (open_matched p (String.◌∷◌ c s) h)
      (ap (String.◌∷◌ c) (open_sub_line p ver (code c == 10) s h.1))
open_sub_line p ver false (String.◌∷◌ c s) h =
    ap (String.◌∷◌ c) (open_sub_line p ver (code c == 10) s h.1)

abbrev pub map_rest : (String → String) → Option String → Option String
map_rest f none = none
map_rest f (some s) = some (f s)

-- In the middle of a line, what follows a prefix with no line break is rewritten behind it.
after_prefix-sub_line :
    (prefix ver p t : String)
    → AllOf stays p
    → after_prefix p (sub_line prefix ver false t)
      ≡ map_rest (sub_line prefix ver false) (after_prefix p t)
unfolding after_prefix sub_line
after_prefix-sub_line prefix ver String.[] t h = refl
after_prefix-sub_line prefix ver (String.◌∷◌ x p) String.[] h = refl
after_prefix-sub_line prefix ver (String.◌∷◌ x p) (String.◌∷◌ c t) h =
    elim (Bool-cases (code c == code x)) [
      | inl y ↦
          let same : code c ≡ code x = (==_iff (code c) (code x)).0 y in
          let inside : (code c == 10) ≡ false = ground arith in
          rw (y, inside) (after_prefix-sub_line prefix ver p t h.1)
      | inr n ↦ rw n refl
    ]

-- Rewriting what a run does not end in does not end the run.
no_run-sub_line :
    (prefix ver r : String) → NoRun r → run_to b'"' (sub_line prefix ver false r) ≡ none
unfolding sub_line run_to
no_run-sub_line prefix ver r over = refl
no_run-sub_line prefix ver r (quote c s n) = rw n refl
no_run-sub_line prefix ver r (open_end s h) = rw (open_sub_line prefix ver false s h) (open_run s h)

abbrev version_or : Option (String × String) → Option String → Option String
version_or none later = later
version_or (some (v, _)) later = some v

-- The version that the expression finds first, in a text that stands at the start of a line or not.
unfoldable pub find_version : String → Bool → String → Option String
unfolding matched
find_version prefix at_start String.[] = none
find_version prefix at_start (String.◌∷◌ c s) =
    let later = find_version prefix (code c == 10) s in
    if at_start then version_or (matched prefix (String.◌∷◌ c s)) later else later

module _ (x : Char) (p ver : String) (line : AllOf stays (String.◌∷◌ x p)) where
  abbrev pub prefix : String
  prefix = String.◌∷◌ x p

  -- A place where the expression does not match is none after the rewriting of what follows.
  unmatched :
      (c : Char) (s : String)
      → matched prefix (String.◌∷◌ c s) ≡ none
      → matched prefix (String.◌∷◌ c (sub_line prefix ver (code c == 10) s)) ≡ none
  unfolding matched after_prefix
  unmatched c s h = elim (Bool-cases (code c == code x)) [
    | inl y ↦
        let same : code c ≡ code x = (==_iff (code c) (code x)).0 y in
        let inside : (code c == 10) ≡ false = ground arith in
        rw (y, inside, after_prefix-sub_line prefix ver p s line.1)
          (rest (after_prefix p s) (rw y at h))
    | inr n ↦ rw n refl
  ]
    where
      rest :
          (o : Option String)
          → and_run b'"' o ≡ none
          → and_run b'"' (map_rest (sub_line prefix ver false) o) ≡ none
      rest none h = refl
      rest (some r) h = no_run-sub_line prefix ver r (no_run r h)

module _ (x : Char) (p : String) (d : Char) (w : String) (line : AllOf stays (String.◌∷◌ x p))
    (free : AllOf is_inside (String.◌∷◌ d w)) where
  abbrev literal : String
  literal = String.◌∷◌ x p

  abbrev ver : String
  ver = String.◌∷◌ d w

  rewritten :
      (after : String)
      → literal ++ (ver ++ ("\"" ++ after)) ≡ onto literal (onto ver (String.◌∷◌ "\"" after))
  rewritten after =
      append-onto literal _
      ∙ ap (onto literal) (append-onto ver ("\"" ++ after) ∙ ap (onto ver) (glue "\"" after))

  own_match :
      (after : String)
      → matched literal (onto literal (onto ver (String.◌∷◌ "\"" after))) ≡ some (ver, after)
  unfolding matched
  own_match after =
      rw (after_prefix-onto literal (onto ver (String.◌∷◌ "\"" after))) (run_to-onto d w after free)

  sub_line_own :
      (after : String)
      → let text = onto literal (onto ver (String.◌∷◌ "\"" after)) in
        sub_line literal ver true text ≡ text
  unfolding sub_line onto
  sub_line_own after =
      ap
        (replaced literal ver (
          String.◌∷◌ x
            (sub_line literal ver (code x == 10) (onto p (onto ver (String.◌∷◌ "\"" after))))))
        (own_match after)
      ∙ rewritten after

  pub sub_line_again :
      (b : Bool) (s : String)
      → sub_line literal ver b (sub_line literal ver b s) ≡ sub_line literal ver b s
  unfolding sub_line
  sub_line_again b String.[] = refl
  sub_line_again false (String.◌∷◌ c s) = ap (String.◌∷◌ c) (sub_line_again (code c == 10) s)
  sub_line_again true (String.◌∷◌ c s) = elim (Option-cases (matched literal (String.◌∷◌ c s))) [
    | inl e ↦
        rw e
          (rw (unmatched x p ver line c s e) (ap (String.◌∷◌ c) (sub_line_again (code c == 10) s)))
    | inr ((v, after), e) ↦ rw e (rw (rewritten after) (sub_line_own after))
  ]

  find_version-own :
      (after : String)
      → find_version literal true (onto literal (onto ver (String.◌∷◌ "\"" after))) ≡ some ver
  unfolding find_version onto
  find_version-own after =
      ap
        (λ (m : Option (String × String)).
          version_or m
            (find_version literal (code x == 10) (onto p (onto ver (String.◌∷◌ "\"" after)))))
        (own_match after)

  -- The version that is found in the rewritten text is the new one, where one was found before.
  pub find_version-sub_line :
      (b : Bool) (s : String)
      → find_version literal b (sub_line literal ver b s)
        ≡ map_rest (λ _. ver) (find_version literal b s)
  unfolding sub_line find_version
  find_version-sub_line b String.[] = refl
  find_version-sub_line false (String.◌∷◌ c s) = find_version-sub_line (code c == 10) s
  find_version-sub_line true (String.◌∷◌ c s) =
      elim (Option-cases (matched literal (String.◌∷◌ c s))) [
        | inl e ↦ rw e (rw (unmatched x p ver line c s e) (find_version-sub_line (code c == 10) s))
        | inr ((v, after), e) ↦ rw e (rw (rewritten after) (find_version-own after))
      ]
