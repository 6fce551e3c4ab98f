-- ===== src/EndpointMatrix/Document.antt =====
-- An OpenAPI file in the layout that the reader expects, written out of its paths.
use Prim.Native.String.{◌++◌}
use mathlib.Core.List.{[], ◌∷◌, ◌++◌ as append}
use sonicwall_sdk.Prelude.{String, true, false, Option, List, str_eq, ◌≡◌, ◌⊎◌}
use sonicwall_sdk.Prelude.Text.{codes, begins_with, rstrip, is_space}
use sonicwall_sdk.EndpointMatrix.{Endpoint, Reader, is_method, token_of}

pub data Method : Type 0 where
  get : Method
  post : Method
  put : Method
  delete : Method
  patch : Method

abbrev pub capitals : Method → String
capitals get = "GET"
capitals post = "POST"
capitals put = "PUT"
capitals delete = "DELETE"
capitals patch = "PATCH"

pub record Operation : Type 0 where
  pub method : Method
  pub details : List String

-- `rest` is the path without its slash.
pub record PathItem : Type 0 where
  pub rest : String
  pub details : List String
  pub operations : List Operation

abbrev pub slash : String → String
slash rest = String.◌∷◌ "/" rest

unfoldable pub path_line : String → String
path_line rest = String.◌∷◌ " " (String.◌∷◌ " " (slash (rest ++ ":")))

abbrev pub method_line : Method → String
method_line get = "    get:"
method_line post = "    post:"
method_line put = "    put:"
method_line delete = "    delete:"
method_line patch = "    patch:"

abbrev pub operation_lines : List Operation → List String
operation_lines [] = []
operation_lines (o ∷ os) = method_line o.method ∷ append o.details (operation_lines os)

abbrev pub item_lines : List PathItem → List String
item_lines [] = []
item_lines (i ∷ is) =
    path_line i.rest ∷ append i.details (append (operation_lines i.operations) (item_lines is))

abbrev pub operation_endpoints : String → List Operation → List Endpoint
operation_endpoints path [] = []
operation_endpoints path (o ∷ os) = (capitals o.method, path) ∷ operation_endpoints path os

abbrev pub endpoints : List PathItem → List Endpoint
endpoints [] = []
endpoints (i ∷ is) = append (operation_endpoints (slash i.rest) i.operations) (endpoints is)

-- A line under an operation or a path: blank, or indented by four spaces and with something else than
-- a method's name.
abbrev pub IsDetail : String → Type 0
IsDetail l =
    (rstrip is_space l ≡ "")
    ⊎ ((begins_with (codes "    ") (codes (rstrip is_space l)) ≡ true)
        × (is_method (token_of (rstrip is_space l)) ≡ false))

abbrev pub AreDetails : List String → Type 0
AreDetails [] = Unit {0}
AreDetails (l ∷ ls) = IsDetail l × AreDetails ls

abbrev pub in_paths : Option String → Reader
in_paths path = record { in_paths = true; current_path = path }

abbrev pub AreOperations : List Operation → Type 0
AreOperations [] = Unit {0}
AreOperations (o ∷ os) = AreDetails o.details × AreOperations os

abbrev pub AreItems : List PathItem → Type 0
AreItems [] = Unit {0}
AreItems (i ∷ is) = AreDetails i.details × AreOperations i.operations × AreItems is

-- A file: the sections before `paths:`, the paths, and the sections after them.
pub record Document : Type 0 where
  pub preamble : List String
  pub items : List PathItem
  pub sections : List String

abbrev pub AreBefore : List String → Type 0
AreBefore [] = Unit {0}
AreBefore (l ∷ ls) =
    (begins_with (codes "paths:") (codes (rstrip is_space l)) ≡ false) × AreBefore ls

-- The first line of what follows stands at the margin.
abbrev pub AreAfter : List String → Type 0
AreAfter [] = Unit {0}
AreAfter (l ∷ ls) =
    (str_eq (rstrip is_space l) "" ≡ false)
    × (begins_with (codes " ") (codes (rstrip is_space l)) ≡ false)
    × (begins_with (codes "paths:") (codes (rstrip is_space l)) ≡ false)

pub record IsDocument (d : Document) : Type 0 where
  pub before : AreBefore d.preamble
  pub items : AreItems d.items
  pub after : AreAfter d.sections

unfoldable pub document_lines : Document → List String
unfolding path_line
document_lines d = append d.preamble ("paths:" ∷ append (item_lines d.items) d.sections)
