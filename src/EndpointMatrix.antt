-- ===== src/EndpointMatrix.antt =====
-- generate_endpoint_support_matrix.py: the endpoints of the OpenAPI file, found line by line, and the
-- table of their support. The status file is JSON that is read; `shown` is `str` of a value that is
-- no text.
pub mod Kinds
pub mod Document
pub mod Printed
use Prim.Native.String.{◌++◌}
use mathlib.Core.List.{[], ◌∷◌, ◌++◌ as append}
use sonicwall_sdk.Prelude.{
  ℕ, String, Bool, true, false, not, ◌&&◌, ◌||◌, Option, none, some, List, str_eq, if◌then◌else◌,
  ◌≡◌, ◌==◌, refl,
}
use sonicwall_sdk.Prelude.Text.{
  codes, begins_with, ends_with, strip, rstrip, lstrip, lower_text, upper_text, splitlines,
  drop_last, is_space,
}
use sonicwall_sdk.Prelude.Text.Lines.{unlines}
use sonicwall_sdk.Json.Value.{Value, str, obj, end}
use sonicwall_sdk.Json.Access
use sonicwall_sdk.Errors.{Result, ok, ◌>>=◌}

-- `(method, path)`
abbrev pub Endpoint : Type 0
Endpoint = String × String

-- The variables of the loop.
pub record Reader : Type 0 where
  pub in_paths : Bool
  pub current_path : Option String

abbrev pub start : Reader
start = record { in_paths = false; current_path = none }

-- What a line does: go on with these endpoints more, or leave the loop.
pub data Turn : Type 0 where
  go_on : List Endpoint → Reader → Turn
  leave : Turn

-- `methods`
abbrev pub is_method : String → Bool
is_method token =
    str_eq token "get"
    || str_eq token "post"
    || str_eq token "put"
    || str_eq token "delete"
    || str_eq token "patch"

abbrev pub is_colon : ℕ → Bool
is_colon c = c == b':'

-- `line.strip().rstrip(":").lower()`
unfoldable pub token_of : String → String
unfolding rstrip lstrip lower_text
token_of line = lower_text (rstrip is_colon (strip line))

abbrev pub is_path_line : String → Bool
is_path_line line = begins_with (codes "  /") (codes line) && ends_with b':' line

-- The line under a path: an operation of the path, or nothing.
unfoldable pub operation_line : String → Option String → List Endpoint
unfolding token_of upper_text begins_with
operation_line line none = []
operation_line line (some path) =
    if not (str_eq path "") && begins_with (codes "    ") (codes line) && is_method (token_of line)
    then (upper_text (token_of line), path) ∷ []
    else []

-- The body of the loop, for the line with its end stripped.
unfoldable pub read_line : Reader → String → Turn
unfolding operation_line begins_with ends_with drop_last
read_line reader line =
    if begins_with (codes "paths:") (codes line)
    then go_on [] (record reader { in_paths = true })
    else if not reader.in_paths
    then go_on [] reader
    else if not (str_eq line "") && not (begins_with (codes " ") (codes line))
    then leave
    else if is_path_line line
    then go_on [] (record reader { current_path = some (drop_last (strip line)) })
    else go_on (operation_line line reader.current_path) reader

-- The loop
unfoldable pub read_lines : Reader → List String → List Endpoint
unfolding read_line rstrip
read_lines reader [] = []
read_lines reader (raw ∷ lines) = elim (read_line reader (rstrip is_space raw)) [
  | leave ↦ []
  | go_on found reader' ↦ append found (read_lines reader' lines)
]

-- `parse_spec_endpoints`
unfoldable pub parse_spec_endpoints : String → List Endpoint
unfolding read_lines splitlines
parse_spec_endpoints spec_text = read_lines start (splitlines spec_text)

module _ (shown : Value → String) where
  -- `{v}` in a format string
  abbrev pub text_of : Value → String
  text_of (str s) = s
  text_of v = shown v

  -- The row of an endpoint
  unfoldable pub row : Value → Endpoint → Result String
  unfolding Access.get
  row statuses (method, path) = do
    let key = method ++ (" " ++ path)
    st ← Access.get statuses key (obj end)
    sdk_status ← Access.get st "sdk_status" (str "unknown")
    fw_status ← Access.get st "firmware_status" (str "not_yet_validated")
    notes ← Access.get st "notes" (str "")
    ok (
        "| `"
        ++ (key
            ++ ("` | Yes | "
                ++ (text_of sdk_status
                    ++ (" | " ++ (text_of fw_status ++ (" | " ++ (text_of notes ++ " |"))))))))

  unfoldable pub rows : Value → List Endpoint → Result (List String)
  unfolding row
  rows statuses [] = ok []
  rows statuses (e ∷ es) = do line ← row statuses e; lines ← rows statuses es; ok (line ∷ lines)

abbrev heading : List String
heading =
    "# Endpoint Support Matrix" ∷ ""
    ∷ "Auto-generated from `spec/openapi.yaml` and `docs/endpoint-support-status.json`." ∷ ""
    ∷ "| Endpoint | Spec | Python SDK | Validated firmware status | Notes |"
    ∷ "|---|---|---|---|---|" ∷ []

abbrev legend : List String
legend =
    "" ∷ "Legend:" ∷ "- `supported`" ∷ "- `supported_with_fallback`" ∷ "- `supported_with_quirks`"
    ∷ "- `unsupported_on_validated_firmware`" ∷ "- `not_yet_validated`" ∷ []

-- `render`, from the texts of the two files
unfoldable pub render : (Value → String) → Value → String → Result String
unfolding rows parse_spec_endpoints unlines
render shown statuses spec_text = do
  lines ← rows shown statuses (parse_spec_endpoints spec_text)
  ok (unlines (append heading (append lines legend)))

small_spec :
    parse_spec_endpoints
      "info:\npaths:\n  /auth:\n    post:\n      summary: x\n    delete:\nend:\n  /z:"
    ≡ ("POST", "/auth") ∷ ("DELETE", "/auth") ∷ []
unfolding parse_spec_endpoints
small_spec = refl
