-- ===== src/Json/Access.antt =====
-- Attribute access, subscripts and conversions on values whose type the code does not check, with
-- the exceptions that Python raises on the wrong type.
use Prim.Native.String.{◌++◌}
use mathlib.Core.List.{reverse}
use sonicwall_sdk.Prelude.{
  ℕ, ◌+◌, ◌-◌, ◌*◌, String, Bool, true, false, ◌&&◌, ◌||◌, Option, none, some, List, [], ◌∷◌, ◌==◌,
  leb, if◌then◌else◌, ◌≡◌, refl,
}
use sonicwall_sdk.Prelude.Text.{codes, is_space}
use sonicwall_sdk.Json.Value.{
  Value, null, bool, int, float, str, arr, obj, Fields, ℤ, pos, negsuc, lookup, nil, cons, to_list,
}
use sonicwall_sdk.Errors.{
  Result, ok, err, Error, builtin, key_error, index_error, type_error, attribute_error, value_error,
}

-- `type(v).__name__`
abbrev type_name : Value → String
type_name null = "NoneType"
type_name (bool _) = "bool"
type_name (int _) = "int"
type_name (float _ _) = "float"
type_name (str _) = "str"
type_name (arr _) = "list"
type_name (obj _) = "dict"

abbrev or_default : Value → Option Value → Value
or_default d none = d
or_default d (some v) = v

abbrev no_attribute : Value → String → Error
no_attribute v name =
    builtin attribute_error
      ("'" ++ (type_name v ++ ("' object has no attribute '" ++ (name ++ "'"))))

-- `v.get(key, d)`
unfoldable pub get : Value → String → Value → Result Value
get (obj fs) key d = ok (or_default d (lookup key fs))
get v key d = err (no_attribute v "get")

abbrev found : String → Option Value → Result Value
found key none = err (builtin key_error ("'" ++ (key ++ "'")))
found key (some v) = ok v

-- `v[key]` for a text `key`
unfoldable pub subscript : Value → String → Result Value
subscript (obj fs) key = found key (lookup key fs)
subscript (str s) key = err (builtin type_error "string indices must be integers, not 'str'")
subscript (arr xs) key = err (builtin type_error "list indices must be integers or slices, not str")
subscript v key = err (builtin type_error ("'" ++ (type_name v ++ "' object is not subscriptable")))

-- `v[0]`, where `v` is true: a `dict` has no key 0, since JSON keys are texts.
unfoldable pub subscript_zero : Value → Result Value
subscript_zero (arr (cons x xs)) = ok x
subscript_zero (str (String.◌∷◌ c s)) = ok (str (String.◌∷◌ c String.[]))
subscript_zero (obj fs) = err (builtin key_error "0")
subscript_zero (arr nil) = err (builtin index_error "list index out of range")
subscript_zero (str String.[]) = err (builtin index_error "string index out of range")
subscript_zero v =
    err (builtin type_error ("'" ++ (type_name v ++ "' object is not subscriptable")))

abbrev chars : String → List Value
chars String.[] = []
chars (String.◌∷◌ c s) = str (String.◌∷◌ c String.[]) ∷ chars s

abbrev keys : Fields → List Value
keys Fields.end = []
keys (Fields.field k v fs) = str k ∷ keys fs

-- What `for item in v` runs over.
unfoldable pub iterate : Value → Result (List Value)
iterate (arr xs) = ok (to_list xs)
iterate (str s) = ok (chars s)
iterate (obj fs) = ok (keys fs)
iterate v = err (builtin type_error ("'" ++ (type_name v ++ "' object is not iterable")))

drop_spaces : List ℕ → List ℕ
drop_spaces [] = []
drop_spaces (c ∷ cs) = let rest = drop_spaces cs in if is_space c then rest else c ∷ cs

strip_spaces : List ℕ → List ℕ
unfolding drop_spaces
strip_spaces s = reverse (drop_spaces (reverse (drop_spaces s)))

-- The digits of a literal, with single underscores between two of them.
digits : Bool → ℕ → List ℕ → Option ℕ
digits after_digit n [] = if after_digit then some n else none
digits after_digit n (c ∷ cs) =
    let is_digit = leb b'0' c && leb c b'9' in
    let n' = if is_digit then n * 10 + (c - b'0') else n in
    let rest = digits is_digit n' cs in
    if is_digit || (c == b'_' && after_digit) then rest else none

abbrev negate : Option ℕ → Option ℤ
negate none = none
negate (some n) = some (if n == 0 then pos 0 else negsuc (n - 1))

abbrev positive : Option ℕ → Option ℤ
positive none = none
positive (some n) = some (pos n)

signed : List ℕ → Option ℤ
unfolding digits
signed [] = none
signed (c ∷ cs) =
    if c == b'-'
    then negate (digits false 0 cs)
    else if c == b'+'
    then positive (digits false 0 cs)
    else positive (digits false 0 (c ∷ cs))

abbrev or_value_error : String → Option ℤ → Result ℤ
or_value_error s none =
    err (builtin value_error ("invalid literal for int() with base 10: '" ++ (s ++ "'")))
or_value_error s (some n) = ok n

-- `int(v)`
unfoldable pub to_int : Value → Result ℤ
unfolding signed strip_spaces
to_int (bool true) = ok (pos 1)
to_int (bool false) = ok (pos 0)
to_int (int n) = ok n
to_int (float n _) = ok n
to_int (str s) = or_value_error s (signed (strip_spaces (codes s)))
to_int v = err (
    builtin type_error (
      "int() argument must be a string, a bytes-like object or a real number, not '"
      ++ (type_name v ++ "'")))

int_of_text : to_int (str " 1_085 ") ≡ ok (pos 1085)
unfolding to_int
int_of_text = refl

int_of_word :
    to_int (str "-") ≡ err (builtin value_error "invalid literal for int() with base 10: '-'")
unfolding to_int
int_of_word = refl
