-- ===== src/Resources/ServiceObjects.antt =====
-- resources/service_objects.py, over what pydantic makes of the model's fields.
use Prim.Native.String
use mathlib.Core.List.{[], ◌∷◌}
use sonicwall_sdk.Prelude.{
  String, Bool, true, false, ◌||◌, Option, none, some, List, str_eq, if◌then◌else◌,
}
use sonicwall_sdk.Json.Value.{Value, null, str, obj, Fields, dict, singleton, lookup, equals_str}
use sonicwall_sdk.Errors.{Error, is_not_found, http_error, not_found}
use sonicwall_sdk.Exec.{Exec, pure, raise, lift, try_except, ◌>>=◌, ◌>>◌}
use sonicwall_sdk.Transport.{Env, Session}
use sonicwall_sdk.Url.{quote}
use sonicwall_sdk.Models.ServiceObject.{
  ServiceObject, Pydantic, protocol_entries, to_api_dict, from_api_response,
}
use sonicwall_sdk.Resources.Normalize.{normalize_get_from_plural}
use sonicwall_sdk.Resources.Base.{
  get_path, post_path, put_path, delete_path, list_path, collection_payload, except_schema_error,
  except_any,
}

abbrev pub base : String
base = "/service-objects"

-- `f"{self._BASE}/name/{encoded_name}"`
abbrev pub name_path : String → String
name_path name = String.◌++◌ base (String.◌++◌ "/name/" (quote name))

-- `_to_firmware_collection_payload`
unfoldable pub to_firmware_collection_payload : ServiceObject → Value
to_firmware_collection_payload object = dict (
    (
      "service_objects",
      singleton (dict (("name", str object.name) ∷ protocol_entries object.protocol)),
    )
    ∷ [])

abbrev or_null : Option Value → Value
or_null none = null
or_null (some v) = v

abbrev is_named : String → Fields → Bool
is_named name fs = equals_str (or_null (lookup "name" fs)) name

abbrev inner_is_named : String → Option Value → Bool
inner_is_named name (some (obj inner)) = is_named name inner
inner_is_named name _ = false

-- The predicate of `_normalize_get_response`
unfoldable pub is_expected : String → Fields → Bool
unfolding lookup
is_expected name item = inner_is_named name (lookup "service_object" item) || is_named name item

-- The loop of `get`
unfoldable pub find_object : String → List ServiceObject → Option ServiceObject
find_object name [] = none
find_object name (object ∷ objects) =
    let rest = find_object name objects in if str_eq object.name name then some object else rest

-- The `NotFoundError` that `get` raises
abbrev pub no_object : String → Error
no_object name = http_error not_found 404 (String.◌++◌ "Service object not found: " name) null

abbrev found_or : Error → Option ServiceObject → Exec Session ServiceObject
found_or e none = raise e
found_or e (some object) = pure object

module _ (env : Env) (py : Pydantic) where
  -- `list`
  unfoldable pub list : Exec Session (List ServiceObject)
  list = list_path env base "service_objects" "service_object" (from_api_response py) false

  -- The `try` of `get`
  unfoldable pub get_single : String → Exec Session ServiceObject
  get_single name = do
    response ← get_path env (name_path name)
    single ←
        lift
          (normalize_get_from_plural response "service_objects" "service_object" (is_expected name))
    lift (from_api_response py single)

  -- What `get` does once the object is not found by its path
  unfoldable pub get_listed : String → Exec Session ServiceObject
  unfolding find_object
  get_listed name = do objects ← list; found_or (no_object name) (find_object name objects)

  abbrev on_missing : String → Error → Exec Session ServiceObject
  on_missing name e = if is_not_found e then get_listed name else raise e

  -- `get`
  unfoldable pub get : String → Exec Session ServiceObject
  get name = try_except (get_single name) (on_missing name)

  -- The payloads that `create` and `update` try in turn
  unfoldable pub write_any : (Value → Exec Session Value) → ServiceObject → Exec Session Value
  write_any write object = try_except (write (to_api_dict object)) (
      except_schema_error "service_objects" (
        try_except
          (write (collection_payload "service_object" "service_objects" (to_api_dict object)))
          (except_any (write (to_firmware_collection_payload object)))))

  -- `create`
  unfoldable pub create : ServiceObject → Exec Session ServiceObject
  create object = do
    write_any (post_path env base) object
    try_except (get object.name) (except_any (pure object))

  -- `update`
  unfoldable pub update : String → ServiceObject → Exec Session ServiceObject
  update name object = do
    write_any (put_path env (name_path name)) object
    try_except (get object.name) (except_any (pure object))

  -- `delete`
  unfoldable pub delete : String → Exec Session (Unit {0})
  delete name = delete_path env (name_path name)

  -- The `try` of `ensure`
  unfoldable pub refresh : ServiceObject → Exec Session (ServiceObject × Bool)
  refresh object = do get object.name; updated ← update object.name object; pure (updated, false)

  abbrev create_missing : ServiceObject → Error → Exec Session (ServiceObject × Bool)
  create_missing object e =
      if is_not_found e then (do created ← create object; pure (created, true)) else raise e

  -- `ensure`
  unfoldable pub ensure : ServiceObject → Exec Session (ServiceObject × Bool)
  ensure object = try_except (refresh object) (create_missing object)
