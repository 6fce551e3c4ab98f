-- ===== src/VersionSync/Aligned.antt =====
-- After a run of scripts/sync_versions_from_file.py the files have the version of VERSION.
use Prim.Native.Char.{Char, code}
use sonicwall_sdk.Prelude.{
  ℕ, String, Bool, true, not, Option, none, some, ◌==◌, ==_iff, str_eq, ◌≡◌, inl, inr, refl, ap,
  arith, Bool-cases, eq_iff,
}
use sonicwall_sdk.Prelude.Text.{span}
use sonicwall_sdk.Prelude.Text.Runs.{AllOf}
use sonicwall_sdk.VersionSync.{
  is_digit, is_label, some_of, one, and_some, optional, at_end, is_semver, sub_line, Files,
  with_version, version_of, written, main, python_prefix, npm_prefix,
}
use sonicwall_sdk.VersionSync.Rewrite.{
  is_inside, find_version, map_rest, sub_line_again, find_version-sub_line,
}

-- The characters of the set are no quotes.
abbrev IsInside : (ℕ → Bool) → Type 0
IsInside p = (c : ℕ) → p c ≡ true → is_inside c ≡ true

is_digit-IsInside : IsInside is_digit
is_digit-IsInside c h = ground arith

is_label-IsInside : IsInside is_label
is_label-IsInside c h = ground arith

span_inside :
    (p : ℕ → Bool) (s : String) → IsInside p → AllOf is_inside (span p s).1 → AllOf is_inside s
unfolding span
span_inside p String.[] i h = tt
span_inside p (String.◌∷◌ c s) i h = elim (Bool-cases (p (code c))) [
  | inl y ↦ (i (code c) y, span_inside p s i (rw y at h))
  | inr n ↦ rw n at h
]

-- A text has no quotes if what a matcher leaves of it has none.
abbrev Keeps : String → Option String → Type 0
Keeps s o = (rest : String) → o ≡ some rest → AllOf is_inside rest → AllOf is_inside s

some_of-Keeps : (p : ℕ → Bool) (s : String) → IsInside p → Keeps s (some_of p s)
unfolding some_of
some_of-Keeps p s i rest e h = elim (Bool-cases (str_eq (span p s).0 "")) [
  | inl y ↦ cc (rw y at e)
  | inr n ↦
      let e' : some (span p s).1 ≡ some rest = rw n at e in
      let same : (span p s).1 ≡ rest = cc in span_inside p s i (rw same h)
]

moved : {s t : String} → s ≡ t → AllOf is_inside t → AllOf is_inside s
moved e h = rw e h

seen : (c : Char) (x : ℕ) → (code c == x) ≡ true → is_inside x ≡ true → is_inside (code c) ≡ true
seen c x y i = let same : code c ≡ x = (==_iff (code c) x).0 y in rw same i

one-Keeps :
    (x : ℕ) (s : String) (o : Option String) → is_inside x ≡ true → Keeps s o → Keeps s (one x o)
unfolding one
one-Keeps x s none i k rest e h = cc
one-Keeps x s (some String.[]) i k rest e h = cc
one-Keeps x s (some (String.◌∷◌ c t)) i k rest e h = elim (Bool-cases (code c == x)) [
  | inl y ↦
      let e' : some t ≡ some rest = rw y at e in
      let same : t ≡ rest = cc in k (String.◌∷◌ c t) refl (seen c x y i, rw same h)
  | inr n ↦ cc (rw n at e)
]

and_some-Keeps :
    (p : ℕ → Bool) (s : String) (o : Option String)
    → IsInside p
    → Keeps s o
    → Keeps s (and_some p o)
and_some-Keeps p s none i k rest e h = cc
and_some-Keeps p s (some t) i k rest e h = k t refl (some_of-Keeps p t i rest e h)

optional-Keeps :
    (x : ℕ) (s : String) (o : Option String)
    → is_inside x ≡ true
    → Keeps s o
    → Keeps s (optional x o)
unfolding optional
optional-Keeps x s none i k rest e h = cc
optional-Keeps x s (some String.[]) i k rest e h = k "" refl tt
optional-Keeps x s (some (String.◌∷◌ c t)) i k rest e h = elim (Bool-cases (code c == x)) [
  | inl y ↦
      k (String.◌∷◌ c t) refl
        (seen c x y i, some_of-Keeps is_label t is_label-IsInside rest (rw y at e) h)
  | inr n ↦
      let e' : some (String.◌∷◌ c t) ≡ some rest = rw n at e in
      let same : String.◌∷◌ c t ≡ rest = cc in k (String.◌∷◌ c t) refl (moved same h)
]

at_end-Keeps : (s : String) (o : Option String) → Keeps s o → at_end o ≡ true → AllOf is_inside s
at_end-Keeps s none k h = cc
at_end-Keeps s (some t) k h = k t refl (rw ((eq_iff t "").0 h) tt)

is_semver-inside : (ver : String) → is_semver ver ≡ true → AllOf is_inside ver
unfolding is_semver
is_semver-inside ver h =
    let major =
      one-Keeps b'.' ver (some_of is_digit ver) refl
        (some_of-Keeps is_digit ver is_digit-IsInside) in
    let minor = one-Keeps b'.' ver _ refl (and_some-Keeps is_digit ver _ is_digit-IsInside major) in
    let patch = and_some-Keeps is_digit ver _ is_digit-IsInside minor in
    at_end-Keeps ver _ (optional-Keeps b'+' ver _ refl (optional-Keeps b'-' ver _ refl patch)) h

-- The line-based files of a run: the version found is the new one where one was found before, and a
-- second rewriting changes nothing.
abbrev pub IsAligned : String → String → String → String → Type 0
IsAligned prefix ver before after =
    (find_version prefix true after ≡ map_rest (λ _. ver) (find_version prefix true before))
    × (sub_line prefix ver true after ≡ after)

IsAligned-of_eq :
    (prefix ver before : String) {a b : String}
    → a ≡ b
    → IsAligned prefix ver before b
    → IsAligned prefix ver before a
IsAligned-of_eq prefix ver before e h = rw e h

no_version : is_semver "" ≡ true → ⊥
unfolding is_semver
no_version h = cc

aligned :
    (x : Char) (p ver text : String)
    → AllOf (λ c. not (c == 10)) (String.◌∷◌ x p)
    → is_semver ver ≡ true
    → IsAligned (String.◌∷◌ x p) ver text (sub_line (String.◌∷◌ x p) ver true text)
aligned x p String.[] text line h = absurd (no_version h)
aligned x p (String.◌∷◌ d w) text line h =
    let free = is_semver-inside (String.◌∷◌ d w) h in
    (find_version-sub_line x p d w line free true text, sub_line_again x p d w line free true text)

written_lem :
    (repr : String → String) (files after : Files) (o : Option String)
    → written repr files o ≡ inr after
    → (ver : String) × (o ≡ some ver) × (is_semver ver ≡ true) × (after ≡ with_version ver files)
written_lem repr files after none h = cc
written_lem repr files after (some ver) h = elim (Bool-cases (is_semver ver)) [
  | inl y ↦ let e : inr (with_version ver files) ≡ inr after = rw y at h in (ver, refl, y, cc)
  | inr n ↦ cc (rw n at h)
]

with_version-IsAligned :
    (ver : String) (files : Files)
    → is_semver ver ≡ true
    → IsAligned python_prefix ver files.pyproject (with_version ver files).pyproject
      × IsAligned npm_prefix ver files.package_json (with_version ver files).package_json
unfolding with_version
with_version-IsAligned ver files h = (
  aligned "v" "ersion = \"" ver files.pyproject (ground arith) h,
  aligned " " " \"version\": \"" ver files.package_json (ground arith) h,
)

-- A run that writes has a semantic version in the first line of VERSION; pyproject.toml and
-- package.json have it where they had a version before, and a second run leaves both as they are.
pub main-IsAligned :
    (repr : String → String) (version_text : String) (files after : Files)
    → main repr version_text files ≡ inr after
    → (ver : String) × (version_of version_text ≡ some ver)
      × (is_semver ver ≡ true)
      × IsAligned python_prefix ver files.pyproject after.pyproject
      × IsAligned npm_prefix ver files.package_json after.package_json
unfolding main
main-IsAligned repr version_text files after h =
    let (ver, e, v, same) = written_lem repr files after (version_of version_text) h in
    let (python, npm) = with_version-IsAligned ver files v in
    (
      ver,
      e,
      v,
      IsAligned-of_eq _ _ _ (ap (λ (f : Files). f.pyproject) same) python,
      IsAligned-of_eq _ _ _ (ap (λ (f : Files). f.package_json) same) npm,
    )
