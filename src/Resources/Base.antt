-- ===== src/Resources/Base.antt =====
-- resources/_base.py, and what the resources share.
use mathlib.Core.List.{[], ◌∷◌}
use sonicwall_sdk.Prelude.{
  String, Bool, true, false, ◌&&◌, ◌||◌, Option, none, some, List, ◌==◌, if◌then◌else◌,
}
use sonicwall_sdk.Prelude.Text.{codes, contains, lower}
use sonicwall_sdk.Json.Value.{Value, str, arr, obj, Items, nil, cons, dict, lookup, equals_str}
use sonicwall_sdk.Json.Access.{get, subscript, iterate}
use sonicwall_sdk.Errors.{
  Error, http, HttpError, Result, ok, err, builtin, type_error, error_text, is_exception,
  as_http_error,
}
use sonicwall_sdk.Errors
use sonicwall_sdk.Exec.{Exec, pure, raise, lift, except_exception, ◌>>=◌, ◌>>◌}
use sonicwall_sdk.Transport.{Env, Session, empty, json}
use sonicwall_sdk.Http.Client.{request}

-- `_get`, `_post`, `_put` and `_delete`
abbrev pub get_path : Env → String → Exec Session Value
get_path env path = request env "GET" path empty

abbrev pub post_path : Env → String → Value → Exec Session Value
post_path env path body = request env "POST" path (json body)

abbrev pub put_path : Env → String → Value → Exec Session Value
put_path env path body = request env "PUT" path (json body)

abbrev pub delete_path : Env → String → Exec Session (Unit {0})
delete_path env path = do request env "DELETE" path empty; pure tt

any_equals : String → Items → Bool
any_equals key nil = false
any_equals key (cons v vs) = equals_str v key || any_equals key vs

abbrev is_present : Option Value → Bool
is_present none = false
is_present (some _) = true

abbrev not_iterable : Result Bool
not_iterable = err (builtin type_error "argument is not iterable")

-- `key in v`
unfoldable pub has_key : Value → String → Result Bool
unfolding lookup any_equals contains
has_key (obj fs) key = ok (is_present (lookup key fs))
has_key (arr vs) key = ok (any_equals key vs)
has_key (str s) key = ok (contains (codes key) (codes s))
has_key _ key = not_iterable

-- `if key in data: data = data[key]`, as the models' parsers begin
unfoldable pub unwrap : String → Value → Result Value
unfolding has_key subscript
unwrap key data' =
    Errors.◌>>=◌ (has_key data' key) (λ wrapped. if wrapped then subscript data' key else ok data')

-- The body of the loop of `_list`: both branches call the parser.
parse_item : {T : Type 0} → String → (Value → Result T) → Value → Result T
parse_item item_key parser item = Errors.◌>>=◌ (has_key item item_key) (λ _. parser item)

abbrev put_first : {T : Type 0} → T → Result (List T) → Result (List T)
put_first t (ok ts) = ok (t ∷ ts)
put_first t (err e) = err e

-- One round of the loop: a failure ends it, or is passed over.
keep_or_skip : {T : Type 0} → Bool → Result T → Result (List T) → Result (List T)
keep_or_skip skip (ok t) rest = put_first t rest
keep_or_skip true (err e) rest = rest
keep_or_skip false (err e) rest = err e

-- The loop of `_list`
unfoldable pub parse_items :
    {T : Type 0} → Bool → String → (Value → Result T) → List Value → Result (List T)
unfolding parse_item keep_or_skip
parse_items skip item_key parser [] = ok []
parse_items skip item_key parser (item ∷ items) =
    keep_or_skip skip (parse_item item_key parser item) (parse_items skip item_key parser items)

-- `_list`
unfoldable pub list_path :
    {T : Type 0}
    → Env
    → String
    → String
    → String
    → (Value → Result T)
    → Bool
    → Exec Session (List T)
list_path env path list_key item_key parser skip = do
  response ← get_path env path
  listed ← lift (get response list_key (arr nil))
  items ← lift (iterate listed)
  lift (parse_items skip item_key parser items)

-- `_is_schema_array_error` of the resources, for the key that each names
unfoldable pub is_schema_array_error : String → HttpError → Bool
unfolding contains lower error_text
is_schema_array_error key e =
    let msg = lower (error_text (http e)) in
    e.status_code == 400
    && contains (codes "schema validation error") msg
    && contains (codes key) msg
    && contains (codes "expected '['") msg

abbrev or_empty : Option Value → Value
or_empty none = dict []
or_empty (some v) = v

abbrev field_or_empty : Value → String → Value
field_or_empty (obj fs) key = or_empty (lookup key fs)
field_or_empty _ key = dict []

-- `_to_collection_payload`: the single payload's content as a list of one
unfoldable pub collection_payload : String → String → Value → Value
unfolding lookup
collection_payload singular plural single =
    dict ((plural, arr (cons (field_or_empty single singular) nil)) ∷ [])

-- What a resource needs of its model: `to_api_dict` and `from_api_response`.
pub record Model (T : Type 0) : Type 0 where
  pub to_api_dict : T → Value
  pub from_api_response : Value → Result T

-- `except SonicWallHTTPError as exc: if not self._is_schema_array_error(exc): raise`
abbrev pub except_schema_error : {A : Type 0} → String → Exec Session A → Error → Exec Session A
except_schema_error key fallback (http e) =
    if is_schema_array_error key e then fallback else raise (http e)
except_schema_error key fallback e = raise e

-- `except Exception`: the fallback
abbrev pub except_any : {A : Type 0} → Exec Session A → Error → Exec Session A
except_any fallback = except_exception (λ e. fallback)
