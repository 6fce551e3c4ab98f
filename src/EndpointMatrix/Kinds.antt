-- ===== src/EndpointMatrix/Kinds.antt =====
-- What the endpoints look like that the reader of the OpenAPI file finds.
use Prim.Native.Char.{Char, code}
use mathlib.Core.List.{[], ◌∷◌, ◌++◌ as append}
use sonicwall_sdk.Prelude.{
  String, Bool, true, false, not, ◌&&◌, Option, none, some, List, str_eq, if◌then◌else◌, ◌≡◌, refl,
  arith, ◌⊎◌, inl, inr, eq_iff,
}
use sonicwall_sdk.Prelude.Text.{
  codes, begins_with, ends_with, strip, rstrip, lstrip, upper_text, splitlines, drop_last, is_space,
}
use sonicwall_sdk.Prelude.Text.Lines.{rstrip-ends}
use sonicwall_sdk.EndpointMatrix.{
  Endpoint, Reader, start, Turn, go_on, leave, is_method, token_of, is_path_line, operation_line,
  read_line, read_lines, parse_spec_endpoints,
}

-- A method of HTTP that the file can name.
abbrev pub IsHttpMethod : String → Type 0
IsHttpMethod m = (m ≡ "GET") ⊎ (m ≡ "POST") ⊎ (m ≡ "PUT") ⊎ (m ≡ "DELETE") ⊎ (m ≡ "PATCH")

abbrev pub IsPath : String → Type 0
IsPath p = begins_with (codes "/") (codes p) ≡ true

abbrev pub IsEndpoint : Endpoint → Type 0
IsEndpoint (m, p) = IsHttpMethod m × IsPath p

abbrev pub AreEndpoints : List Endpoint → Type 0
AreEndpoints [] = Unit {0}
AreEndpoints (e ∷ es) = IsEndpoint e × AreEndpoints es

AreEndpoints-append :
    (es fs : List Endpoint) → AreEndpoints es → AreEndpoints fs → AreEndpoints (append es fs)
AreEndpoints-append [] fs h k = k
AreEndpoints-append (e ∷ es) fs (a, h) k = (a, AreEndpoints-append es fs h k)

pub is_method-cases :
    (t : String)
    → is_method t ≡ true
    → (t ≡ "get") ⊎ (t ≡ "post") ⊎ (t ≡ "put") ⊎ (t ≡ "delete") ⊎ (t ≡ "patch")
is_method-cases t h =
    ground
      (arith, eq_iff t "get", eq_iff t "post", eq_iff t "put", eq_iff t "delete", eq_iff t "patch")

upper-IsHttpMethod : (t : String) → is_method t ≡ true → IsHttpMethod (upper_text t)
unfolding upper_text
upper-IsHttpMethod t h = elim (is_method-cases t h) [
  | inl e ↦ inl (rw e)
  | inr (inl e) ↦ inr (inl (rw e))
  | inr (inr (inl e)) ↦ inr (inr (inl (rw e)))
  | inr (inr (inr (inl e))) ↦ inr (inr (inr (inl (rw e))))
  | inr (inr (inr (inr e))) ↦ inr (inr (inr (inr (rw e))))
]

drop_last-IsPath :
    (e : Char) (rest : String)
    → code e ≡ b'/'
    → ends_with b':' (String.◌∷◌ e rest) ≡ true
    → IsPath (drop_last (String.◌∷◌ e rest))
unfolding drop_last ends_with begins_with
drop_last-IsPath e String.[] l m = ground arith
drop_last-IsPath e (String.◌∷◌ f r) l m = rw l refl

slash-IsPath :
    (c d e : Char) (rest : String)
    → code c ≡ 32
    → code d ≡ 32
    → code e ≡ b'/'
    → ends_with b':' (String.◌∷◌ e rest) ≡ true
    → IsPath (drop_last (strip (String.◌∷◌ c (String.◌∷◌ d (String.◌∷◌ e rest)))))
unfolding lstrip
slash-IsPath c d e rest h k l m =
    rw (h, k, l) (rw (rstrip-ends is_space b':' _ refl m) (drop_last-IsPath e rest l m))

drop_last-strip-IsPath :
    (line : String) → is_path_line line ≡ true → IsPath (drop_last (strip line))
unfolding begins_with ends_with
drop_last-strip-IsPath String.[] h = cc
drop_last-strip-IsPath (String.◌∷◌ c String.[]) h = ground arith
drop_last-strip-IsPath (String.◌∷◌ c (String.◌∷◌ d String.[])) h = ground arith
drop_last-strip-IsPath (String.◌∷◌ c (String.◌∷◌ d (String.◌∷◌ e rest))) h =
    slash-IsPath c d e rest (ground arith) (ground arith) (ground arith) (ground arith)

-- The path that the reader is under, if it is under one.
abbrev OnPath : Option String → Type 0
OnPath none = Unit {0}
OnPath (some p) = IsPath p

operation_line-AreEndpoints :
    (line : String) (path : Option String) → OnPath path → AreEndpoints (operation_line line path)
unfolding operation_line
operation_line-AreEndpoints line none h = tt
operation_line-AreEndpoints line (some path) h =
    found
      (not (str_eq path "") && begins_with (codes "    ") (codes line) && is_method (token_of line))
      (λ e. upper-IsHttpMethod (token_of line) (ground arith))
  where
    found :
        (b : Bool)
        → (b ≡ true → IsHttpMethod (upper_text (token_of line)))
        → AreEndpoints (if b then (upper_text (token_of line), path) ∷ [] else [])
    found true m = ((m refl, h), tt)
    found false m = tt

abbrev IsGood : Turn → Type 0
IsGood leave = Unit {0}
IsGood (go_on found reader) = AreEndpoints found × OnPath reader.current_path

IsGood-if : (b : Bool) (x y : Turn) → (b ≡ true → IsGood x) → IsGood y → IsGood (if b then x else y)
IsGood-if true x y h k = h refl
IsGood-if false x y h k = k

read_line-IsGood :
    (reader : Reader) (line : String) → OnPath reader.current_path → IsGood (read_line reader line)
unfolding read_line
read_line-IsGood reader line h =
    let test = λ (p : String). begins_with (codes p) (codes line) in
    IsGood-if (test "paths:") _ _ (λ _. (tt, h))
      (IsGood-if (not reader.in_paths) _ _ (λ _. (tt, h))
        (IsGood-if (not (str_eq line "") && not (test " ")) _ _ (λ _. tt)
          (IsGood-if (is_path_line line) _ _ (λ e. (tt, drop_last-strip-IsPath line e))
            (operation_line-AreEndpoints line reader.current_path h, h))))

read_lines-AreEndpoints :
    (reader : Reader) (lines : List String)
    → OnPath reader.current_path
    → AreEndpoints (read_lines reader lines)
unfolding read_lines
read_lines-AreEndpoints reader [] h = tt
read_lines-AreEndpoints reader (raw ∷ lines) h =
    turned (read_line reader (rstrip is_space raw)) (λ r k. read_lines-AreEndpoints r lines k)
      (read_line-IsGood reader (rstrip is_space raw) h)
  where
    turned :
        (t : Turn)
        → ((r : Reader) → OnPath r.current_path → AreEndpoints (read_lines r lines))
        → IsGood t
        → AreEndpoints
            (elim t [ leave ↦ [] | go_on found reader' ↦ append found (read_lines reader' lines) ])
    turned leave later g = tt
    turned (go_on found reader') later g = AreEndpoints-append found _ g.0 (later reader' g.1)

-- Whatever the text is, each endpoint that is found has one of the five methods, in capitals, and a
-- path that begins with a slash.
pub parse-AreEndpoints : (spec_text : String) → AreEndpoints (parse_spec_endpoints spec_text)
unfolding parse_spec_endpoints
parse-AreEndpoints spec_text = read_lines-AreEndpoints start (splitlines spec_text) tt
