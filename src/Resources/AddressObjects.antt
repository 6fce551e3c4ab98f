-- ===== src/Resources/AddressObjects.antt =====
-- resources/address_objects.py, over the interface of models/address_object.py and the name of an
-- object.
pub mod Upsert
use Prim.Native.String
use mathlib.Core.List.{[], ◌∷◌}
use sonicwall_sdk.Prelude.{String, Bool, true, false, Option, none, some, List, if◌then◌else◌}
use sonicwall_sdk.Json.Value.{Value, null, obj, Fields, dict, singleton, lookup, equals_str}
use sonicwall_sdk.Errors.{Error, http, is_not_found}
use sonicwall_sdk.Exec.{Exec, pure, raise, lift, try_except, ◌>>=◌, ◌>>◌}
use sonicwall_sdk.Transport.{Env, Session}
use sonicwall_sdk.Url.{quote}
use sonicwall_sdk.Resources.Normalize.{normalize_get_from_plural, unwrap_ipv4}
use sonicwall_sdk.Resources.Base.{
  Model, get_path, post_path, put_path, delete_path, list_path, except_schema_error, except_any,
}

abbrev pub base : String
base = "/address-objects/ipv4"

-- `f"{self._BASE}/name/{encoded_name}"`
abbrev pub name_path : String → String
name_path name = String.◌++◌ base (String.◌++◌ "/name/" (quote name))

abbrev or_null : Option Value → Value
or_null none = null
or_null (some v) = v

abbrev named : String → Option Fields → Bool
named name none = false
named name (some ipv4) = equals_str (or_null (lookup "name" ipv4)) name

abbrev dict_or_empty : Option Value → Value
dict_or_empty (some (obj fs)) = obj fs
dict_or_empty _ = dict []

-- `_to_collection_payload`, on the single payload
unfoldable pub to_collection_payload : Value → Value
unfolding lookup
to_collection_payload (obj fs) =
    dict (("address_objects", singleton (dict_or_empty (lookup "address_object" fs))) ∷ [])
to_collection_payload _ = dict (("address_objects", singleton (dict [])) ∷ [])

-- The predicate of `_normalize_get_response`
unfoldable pub is_expected : String → Fields → Bool
unfolding unwrap_ipv4 lookup
is_expected name item = named name (unwrap_ipv4 item "address_object")

module _ {T : Type 0} (env : Env) (model : Model T) (name_of : T → String) where
  -- `list`
  unfoldable pub list : Exec Session (List T)
  list = list_path env base "address_objects" "address_object" model.from_api_response true

  -- `get`
  unfoldable pub get : String → Exec Session T
  get name = do
    response ← get_path env (name_path name)
    single ←
        lift
          (normalize_get_from_plural response "address_objects" "address_object" (is_expected name))
    lift (model.from_api_response single)

  abbrev pub collection : T → Value
  collection object = to_collection_payload (model.to_api_dict object)

  -- The first part of `create`: the single payload, or the collection if the device asks for it.
  unfoldable pub post : T → Exec Session Value
  post object =
      try_except (post_path env base (model.to_api_dict object))
        (except_schema_error "address_objects" (post_path env base (collection object)))

  -- `create`
  unfoldable pub create : T → Exec Session T
  create object = do post object; try_except (get (name_of object)) (except_any (pure object))

  unfoldable pub put : String → T → Exec Session Value
  put name object =
      try_except (put_path env (name_path name) (model.to_api_dict object))
        (except_schema_error "address_objects" (put_path env (name_path name) (collection object)))

  -- `update`
  unfoldable pub update : String → T → Exec Session T
  update name object = do
    put name object
    try_except (get (name_of object)) (except_any (pure object))

  -- `delete`
  unfoldable pub delete : String → Exec Session (Unit {0})
  delete name = delete_path env (name_path name)

  -- The `try` of `ensure`
  unfoldable pub refresh : T → Exec Session (T × Bool)
  refresh object = do
    get (name_of object)
    updated ← update (name_of object) object
    pure (updated, false)

  -- The handler of `ensure`
  unfoldable pub create_missing : T → Error → Exec Session (T × Bool)
  create_missing object e =
      if is_not_found e then (do created ← create object; pure (created, true)) else raise e

  -- `ensure`
  unfoldable pub ensure : T → Exec Session (T × Bool)
  ensure object = try_except (refresh object) (create_missing object)
