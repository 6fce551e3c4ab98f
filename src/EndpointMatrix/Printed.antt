-- ===== src/EndpointMatrix/Printed.antt =====
-- What the reader of the OpenAPI file finds in a file in the layout that it expects.
use Prim.Native.String.{◌++◌}
use mathlib.Core.List.{[], ◌∷◌, ◌++◌ as append}
use mathlib.Core.List.{append_assoc}
use text.Mathlib.TextLemmas.{cons-append}
use sonicwall_sdk.Prelude.{
  String, Bool, true, false, Option, none, some, List, ◌≡◌, refl, arith, inl, inr, sym, ap, ◌∙◌,
}
use sonicwall_sdk.Prelude.Text.{
  codes, begins_with, ends_with, strip, rstrip, lstrip, drop_last, is_space,
}
use sonicwall_sdk.Prelude.Text.Lines.{
  str_eq-cons, AreLines, unlines, splitlines-unlines, rstrip-ends, ends_with-append, ends_with-cons,
  drop_last-append,
}
use sonicwall_sdk.EndpointMatrix.{
  Endpoint, Reader, start, go_on, leave, is_method, token_of, is_path_line, operation_line,
  read_line, read_lines, parse_spec_endpoints,
}
use sonicwall_sdk.EndpointMatrix.Document.{
  get, post, put, delete, patch, Method, Operation, PathItem, Document, IsDocument, capitals, slash,
  path_line, method_line, operation_lines, item_lines, operation_endpoints, endpoints, IsDetail,
  AreDetails, in_paths, AreOperations, AreItems, AreBefore, AreAfter, document_lines,
}

method_line_lem :
    (m : Method) (rest : String)
    → read_line (in_paths (some (slash rest))) (rstrip is_space (method_line m))
      ≡ go_on ((capitals m, slash rest) ∷ []) (in_paths (some (slash rest)))
unfolding read_line rstrip
method_line_lem get rest = rw (str_eq-cons "/" rest) refl
method_line_lem post rest = rw (str_eq-cons "/" rest) refl
method_line_lem put rest = rw (str_eq-cons "/" rest) refl
method_line_lem delete rest = rw (str_eq-cons "/" rest) refl
method_line_lem patch rest = rw (str_eq-cons "/" rest) refl

-- The line of a path has nothing to strip at its end.
path_line-ends : (rest : String) → ends_with b':' (slash (rest ++ ":")) ≡ true
unfolding ends_with
path_line-ends rest = ends_with-cons b':' "/" (rest ++ ":") (ends_with-append b':' rest ":" refl)

path_line_strip : (rest : String) → rstrip is_space (path_line rest) ≡ path_line rest
unfolding path_line ends_with
path_line_strip rest = rstrip-ends is_space b':' (path_line rest) refl (path_line-ends rest)

path_line_path : (rest : String) → drop_last (strip (path_line rest)) ≡ slash rest
unfolding path_line lstrip
path_line_path rest =
    rw (rstrip-ends is_space b':' (slash (rest ++ ":")) refl (path_line-ends rest))
      (ap drop_last (sym (cons-append "/" rest ":")) ∙ drop_last-append ":" (slash rest))

is_path_line-path_line : (rest : String) → is_path_line (path_line rest) ≡ true
unfolding path_line begins_with ends_with
is_path_line-path_line rest = path_line-ends rest

path_line_lem :
    (path : Option String) (rest : String)
    → read_line (in_paths path) (rstrip is_space (path_line rest))
      ≡ go_on [] (in_paths (some (slash rest)))
unfolding read_line
path_line_lem path rest =
    rw (path_line_strip rest, is_path_line-path_line rest, path_line_path rest)
      (unfold path_line begins_with in ground arith)

indented :
    (line : String) (b : Bool)
    → begins_with (codes "    ") (codes line) ≡ true
    → (begins_with (codes "paths:") (codes line) ≡ false)
      × (begins_with (codes " ") (codes line) ≡ true)
      × (begins_with (codes "  /") (codes line) ≡ false)
unfolding begins_with
indented String.[] b h = cc
indented (String.◌∷◌ c String.[]) b h = ground arith
indented (String.◌∷◌ c (String.◌∷◌ d String.[])) b h = ground arith
indented (String.◌∷◌ c (String.◌∷◌ d (String.◌∷◌ e s))) b h = ground arith

no_operation :
    (line : String) (path : Option String)
    → is_method (token_of line) ≡ false
    → operation_line line path ≡ []
unfolding operation_line
no_operation line none h = refl
no_operation line (some path) h = ground arith

detail_lem :
    (path : Option String) (l : String)
    → IsDetail l
    → read_line (in_paths path) (rstrip is_space l) ≡ go_on [] (in_paths path)
unfolding read_line
detail_lem path l (inl h) = rw h (ap (λ es. go_on es (in_paths path)) (no_operation "" path refl))
detail_lem path l (inr (h, k)) =
    let line = rstrip is_space l in
    let (p, q, r) = indented line true h in rw (p, q, r, no_operation line path k) (ground arith)

go_on_lem :
    (reader reader' : Reader) (raw : String) (lines : List String) (found : List Endpoint)
    → read_line reader (rstrip is_space raw) ≡ go_on found reader'
    → read_lines reader (raw ∷ lines) ≡ append found (read_lines reader' lines)
unfolding read_lines
go_on_lem reader reader' raw lines found h = rw (h, read_lines) refl

read_details :
    (path : Option String) (details after : List String)
    → AreDetails details
    → read_lines (in_paths path) (append details after) ≡ read_lines (in_paths path) after
read_details path [] after h = refl
read_details path (l ∷ ls) after h =
    go_on_lem (in_paths path) (in_paths path) l (append ls after) [] (detail_lem path l h.0)
    ∙ read_details path ls after h.1

read_operations :
    (rest : String) (os : List Operation) (after : List String)
    → AreOperations os
    → read_lines (in_paths (some (slash rest))) (append (operation_lines os) after)
      ≡ append
          (operation_endpoints (slash rest) os)
          (read_lines (in_paths (some (slash rest))) after)
read_operations rest [] after h = refl
read_operations rest (o ∷ os) after h =
    let here = in_paths (some (slash rest)) in
    go_on_lem here here (method_line o.method) _ _ (method_line_lem o.method rest)
    ∙ ap (λ es. (capitals o.method, slash rest) ∷ es)
        (ap (read_lines here) (append_assoc o.details (operation_lines os) after)
          ∙ read_details (some (slash rest)) o.details _ h.0
          ∙ read_operations rest os after h.1)

read_items :
    (path : Option String) (is : List PathItem) (after : List String)
    → AreItems is
    → ((p : Option String) → read_lines (in_paths p) after ≡ [])
    → read_lines (in_paths path) (append (item_lines is) after) ≡ endpoints is
read_items path [] after h stop = stop path
read_items path (i ∷ is) after h stop =
    let here = some (slash i.rest) in
    let later = append (operation_lines i.operations) (item_lines is) in
    go_on_lem (in_paths path) (in_paths here) (path_line i.rest) _ [] (path_line_lem path i.rest)
    ∙ ap (read_lines (in_paths here)) (append_assoc i.details later after)
    ∙ read_details here i.details (append later after) h.0
    ∙ ap (read_lines (in_paths here))
        (append_assoc (operation_lines i.operations) (item_lines is) after)
    ∙ read_operations i.rest i.operations (append (item_lines is) after) h.1
    ∙ ap (append (operation_endpoints (slash i.rest) i.operations))
        (read_items here is after h.2 stop)

after_lem :
    (path : Option String) (l : String) (ls : List String)
    → AreAfter (l ∷ ls)
    → read_line (in_paths path) (rstrip is_space l) ≡ leave
unfolding read_line
after_lem path l ls h = rw (h.2, h.0, h.1) refl

read_after :
    (ls : List String) (path : Option String) → AreAfter ls → read_lines (in_paths path) ls ≡ []
unfolding read_lines
read_after [] path h = refl
read_after (l ∷ ls) path h = rw (after_lem path l ls h, read_lines) refl

read_before :
    (ls after : List String)
    → AreBefore ls
    → read_lines start (append ls after) ≡ read_lines start after
unfolding read_line
read_before [] after h = refl
read_before (l ∷ ls) after h =
    go_on_lem start start l (append ls after) [] (rw h.0 refl) ∙ read_before ls after h.1

paths_lem : read_line start (rstrip is_space "paths:") ≡ go_on [] (in_paths none)
unfolding read_line rstrip
paths_lem = refl

-- From a file in this layout, each of its lines free of line breaks, the reader finds each operation of
-- each path, in order.
pub parse-document :
    (d : Document)
    → IsDocument d
    → AreLines (document_lines d)
    → parse_spec_endpoints (unlines (document_lines d)) ≡ endpoints d.items
unfolding parse_spec_endpoints document_lines
parse-document d v lines =
    let paths = append (item_lines d.items) d.sections in
    ap (read_lines start) (splitlines-unlines (document_lines d) lines)
    ∙ read_before d.preamble ("paths:" ∷ paths) v.before
    ∙ go_on_lem start (in_paths none) "paths:" paths [] paths_lem
    ∙ read_items none d.items d.sections v.items (λ p. read_after d.sections p v.after)
