-- ===== src/VersionSync.antt =====
-- scripts/sync_versions_from_file.py: the version in the files of the packages is replaced by the one
-- in VERSION. The texts of the files are a record; `repr` is a parameter. The regular expressions are
-- functions on texts: `\s` is read over ASCII.
pub mod Rewrite
pub mod Aligned
use Prim.Native.Char.{Char, code}
use Prim.Native.String.{◌++◌}
use mathlib.Core.List.{[], ◌∷◌}
use sonicwall_sdk.Prelude.{
  ℕ, String, Bool, true, false, not, ◌&&◌, ◌||◌, Option, none, some, List, ◌==◌, leb, str_eq,
  if◌then◌else◌, ◌≡◌, ◌⊎◌, inl, inr, refl,
}
use sonicwall_sdk.Prelude.Text.{codes, contains, span, strip, lstrip, rstrip, splitlines, is_space}

-- `[0-9]`
abbrev is_digit : ℕ → Bool
is_digit c = leb b'0' c && leb c b'9'

-- `[0-9A-Za-z.-]`
abbrev is_label : ℕ → Bool
is_label c =
    is_digit c || (leb b'A' c && leb c b'Z') || (leb b'a' c && leb c b'z') || c == b'.' || c == b'-'

-- Some characters of a set: what follows the longest run of them.
unfoldable pub some_of : (ℕ → Bool) → String → Option String
unfolding span
some_of p s = let (a, rest) = span p s in if str_eq a "" then none else some rest

-- One character.
unfoldable pub one : ℕ → Option String → Option String
one x none = none
one x (some String.[]) = none
one x (some (String.◌∷◌ c s)) = if code c == x then some s else none

abbrev and_some : (ℕ → Bool) → Option String → Option String
and_some p none = none
and_some p (some s) = some_of p s

-- `(xLABELS)?`
unfoldable pub optional : ℕ → Option String → Option String
unfolding some_of
optional x none = none
optional x (some String.[]) = some String.[]
optional x (some (String.◌∷◌ c s)) =
    if code c == x then some_of is_label s else some (String.◌∷◌ c s)

abbrev at_end : Option String → Bool
at_end none = false
at_end (some s) = str_eq s ""

-- The `fullmatch` of a semantic version.
unfoldable pub is_semver : String → Bool
unfolding some_of one optional
is_semver ver =
    let major = one b'.' (some_of is_digit ver) in
    let minor = one b'.' (and_some is_digit major) in
    let patch = and_some is_digit minor in at_end (optional b'+' (optional b'-' patch))

-- What follows a literal.
unfoldable pub after_prefix : String → String → Option String
after_prefix String.[] s = some s
after_prefix (String.◌∷◌ x p) String.[] = none
after_prefix (String.◌∷◌ x p) (String.◌∷◌ c s) =
    let rest = after_prefix p s in if code c == code x then rest else none

-- A run that is not empty, and what follows its end.
abbrev closed : String → String → Option (String × String)
closed String.[] rest = none
closed (String.◌∷◌ d w) String.[] = none
closed (String.◌∷◌ d w) (String.◌∷◌ _ after) = some (String.◌∷◌ d w, after)

-- `[^e]+e`: the run, and what follows its end `e`
unfoldable pub run_to : ℕ → String → Option (String × String)
unfolding span
run_to e s = let (v, rest) = span (λ c. not (c == e)) s in closed v rest

abbrev and_run : ℕ → Option String → Option (String × String)
and_run e none = none
and_run e (some s) = run_to e s

-- `prefix"[^"]+"` at the beginning of a text: the version, and what follows it.
unfoldable pub matched : String → String → Option (String × String)
unfolding after_prefix run_to
matched prefix s = and_run b'"' (after_prefix prefix s)

abbrev replaced : String → String → String → Option (String × String) → String
replaced prefix ver kept none = kept
replaced prefix ver kept (some (_, after)) = prefix ++ (ver ++ ("\"" ++ after))

-- `re.sub(r'^prefix"[^"]+"', ..., count=1, flags=re.MULTILINE)`, on a text that stands at the start of
-- a line or not.
unfoldable pub sub_line : String → String → Bool → String → String
unfolding matched
sub_line prefix ver at_start String.[] = String.[]
sub_line prefix ver at_start (String.◌∷◌ c s) =
    let kept = String.◌∷◌ c (sub_line prefix ver (code c == 10) s) in
    if at_start then replaced prefix ver kept (matched prefix (String.◌∷◌ c s)) else kept

abbrev artifact : String
artifact = "<artifactId>sonicwall-sdk</artifactId>"

abbrev in_tag : String → Option (String × String) → Option (String × String)
in_tag space none = none
in_tag space (some (_, after)) = elim (after_prefix "/version>" after) [
  | none ↦ none
  | some rest ↦ some (space, rest)
]

abbrev after_artifact : Option String → Option (String × String)
after_artifact none = none
after_artifact (some s) =
    let (space, tag) = span is_space s in
    if contains (10 ∷ []) (codes space)
    then in_tag space (and_run b'<' (after_prefix "<version>" tag))
    else none

-- The expression for the POM: the space before the version, and what follows its end tag.
unfoldable pub matched_pom : String → Option (String × String)
unfolding after_prefix run_to span contains
matched_pom s = after_artifact (after_prefix artifact s)

abbrev replaced_pom : String → String → Option (String × String) → String
replaced_pom ver kept none = kept
replaced_pom ver kept (some (space, after)) =
    artifact ++ (space ++ ("<version>" ++ (ver ++ ("</version>" ++ after))))

unfoldable pub sub_pom : String → String → String
unfolding matched_pom
sub_pom ver String.[] = String.[]
sub_pom ver (String.◌∷◌ c s) =
    let kept = String.◌∷◌ c (sub_pom ver s) in replaced_pom ver kept (matched_pom (String.◌∷◌ c s))

-- The files that `main` writes.
pub record Files : Type 0 where
  pub pyproject : String
  pub package_json : String
  pub version_go : String
  pub pom : String
  pub version_java : String

unfoldable pub go_text : String → String
go_text ver =
    "package sonicwall\n\n// Version is the SDK release version (aligned with Python and npm; see VERSION + CONTRIBUTING.md).\nconst Version = \""
    ++ (ver ++ "\"\n")

unfoldable pub java_text : String → String
java_text ver =
    "package tech.gandiva.sonicwall;\n\n/** SDK release version (aligned with Python, TypeScript, Go; see repository {@code VERSION}). */\npublic final class Version {\n  public static final String VERSION = \""
    ++ (ver ++ "\";\n\n  private Version() {}\n}\n")

abbrev pub python_prefix : String
python_prefix = "version = \""

abbrev pub npm_prefix : String
npm_prefix = "  \"version\": \""

-- The files with the version in them.
unfoldable pub with_version : String → Files → Files
unfolding sub_line sub_pom go_text java_text
with_version ver files = record {
  pyproject = sub_line python_prefix ver true files.pyproject;
  package_json = sub_line npm_prefix ver true files.package_json;
  version_go = go_text ver;
  pom = sub_pom ver files.pom;
  version_java = java_text ver;
}

-- The version that `main` takes: the first line of the text, without space at its ends.
abbrev first_line : List String → Option String
first_line [] = none
first_line (l ∷ ls) = some (strip l)

unfoldable pub version_of : String → Option String
unfolding splitlines lstrip rstrip
version_of text = first_line (splitlines (strip text))

abbrev written : (String → String) → Files → Option String → String ⊎ Files
written repr files none = inl "VERSION is empty"
written repr files (some ver) =
    if is_semver ver
    then inr (with_version ver files)
    else inl ("VERSION must be semver X.Y.Z (optional pre-release): " ++ repr ver)

-- `main`: the message that it exits with, or the files that it leaves.
unfoldable pub main : (String → String) → String → Files → String ⊎ Files
unfolding is_semver with_version version_of
main repr version_text files = written repr files (version_of version_text)

semver : is_semver "1.20.3-rc.1+build.7" ≡ true
unfolding is_semver
semver = refl

no_semver : is_semver "1.20" ≡ false
unfolding is_semver
no_semver = refl

one_line :
    sub_line python_prefix "2.0.0" true "[project]\nversion = \"1.0.0\"\nversion = \"3\""
    ≡ "[project]\nversion = \"2.0.0\"\nversion = \"3\""
unfolding sub_line
one_line = refl
