-- ===== src/Http/Status/Code.antt =====
-- The code of an error, and the code that `_raise_for_status` read.
use sonicwall_sdk.Prelude.{
  Option, none, some, ◌≡◌, refl, arith, Bool-cases, Option-cases, inl, inr, if◌then◌else◌,
}
use sonicwall_sdk.Json.Value.{Value, null, bool, int, float, str, arr, obj, ℤ, pos, truthy, lookup}
use sonicwall_sdk.Json.Access.{get, subscript_zero, to_int}
use sonicwall_sdk.Errors.{Error, HttpError, Result, ok, err, ◌>>=◌}
use sonicwall_sdk.Firmware.{or_missing, info_list, sonicos_code, nonzero}
use sonicwall_sdk.Http.Status.{extract_sonicos_code, code_of}

-- A code that is 0 counts as none.
abbrev pub drop_zero : Option ℤ → Option ℤ
drop_zero none = none
drop_zero (some n) = nonzero n

abbrev pub without_zero : Result (Option ℤ) → Result (Option ℤ)
without_zero r = do code ← r; ok (drop_zero code)

abbrev number_of : Value → Result (Option ℤ)
number_of v = do n ← to_int v; ok (nonzero n)

abbrev Agrees : Result (Option ℤ) → Result (Option ℤ) → Type 0
Agrees a b = or_missing none a ≡ without_zero (or_missing none b)

-- Both let the same exceptions through.
raised-Agrees : (x : Error) → Agrees (err x) (err x)
unfolding or_missing
raised-Agrees x = ground arith

read-Agrees : (r : Result ℤ) → Agrees (do n ← r; ok (nonzero n)) (do n ← r; ok (some n))
unfolding or_missing
read-Agrees (ok n) = refl
read-Agrees (err x) = raised-Agrees x

value-Agrees : (v : Value) → Agrees (number_of v) (code_of v)
unfolding or_missing to_int
value-Agrees null = refl
value-Agrees (bool b) = read-Agrees (to_int (bool b))
value-Agrees (int n) = read-Agrees (to_int (int n))
value-Agrees (float n x) = read-Agrees (to_int (float n x))
value-Agrees (str s) = read-Agrees (to_int (str s))
value-Agrees (arr xs) = read-Agrees (to_int (arr xs))
value-Agrees (obj fs) = read-Agrees (to_int (obj fs))

code-Agrees :
    (first : Value)
    → Agrees
        (do code ← get first "code" (int (pos 0)); number_of code)
        (do code ← get first "code" null; code_of code)
unfolding or_missing get to_int
code-Agrees (obj fs) = elim (Option-cases (lookup "code" fs)) [
  | inl n ↦ rw n refl
  | inr (v, p) ↦ rw p (value-Agrees v)
]
code-Agrees null = refl
code-Agrees (bool b) = refl
code-Agrees (int n) = refl
code-Agrees (float n x) = refl
code-Agrees (str s) = refl
code-Agrees (arr xs) = refl

first-Agrees :
    (r : Result Value)
    → Agrees
        (do first ← r; code ← get first "code" (int (pos 0)); number_of code)
        (do first ← r; code ← get first "code" null; code_of code)
first-Agrees (ok first) = code-Agrees first
first-Agrees (err x) = raised-Agrees x

info-Agrees :
    (r : Result Value)
    → Agrees
        (do
          info ← r
          if truthy info
              then (do
                first ← subscript_zero info
                code ← get first "code" (int (pos 0))
                number_of code)
              else ok none)
        (do
          info ← r
          if truthy info
              then (do first ← subscript_zero info; code ← get first "code" null; code_of code)
              else ok none)
unfolding or_missing
info-Agrees (err x) = raised-Agrees x
info-Agrees (ok info) = elim (Bool-cases (truthy info)) [
  | inl y ↦ rw y (first-Agrees (subscript_zero info))
  | inr n ↦ rw n refl
]

-- The code of an error is the one that `_extract_sonicos_code` reads from its body, with 0 for
-- none, and where that raises it raises the same.
pub sonicos_code-without_zero :
    (e : HttpError) → sonicos_code e ≡ without_zero (extract_sonicos_code e.response_body)
unfolding sonicos_code extract_sonicos_code
sonicos_code-without_zero e = info-Agrees (info_list e.response_body)
