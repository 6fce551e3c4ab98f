-- ===== src/Resources/NatPolicies.antt =====
-- resources/nat_policies.py, over pydantic's `model_validate` of models/nat_policy.py.
use Prim.Native.String
use mathlib.Core.List.{[], ◌∷◌}
use sonicwall_sdk.Prelude.{
  String, Bool, true, false, Option, none, some, List, str_eq, if◌then◌else◌,
}
use sonicwall_sdk.Json.Value.{
  Value, null, bool, str, Fields, dict, singleton, lookup, equals_str, nonempty, opt_str,
}
use sonicwall_sdk.Errors.{Error, Result, is_not_found, http_error, not_found}
use sonicwall_sdk.Exec.{Exec, pure, raise, lift, try_except, ◌>>=◌, ◌>>◌}
use sonicwall_sdk.Transport.{Env, Session}
use sonicwall_sdk.Url.{quote}
use sonicwall_sdk.Models.NatPolicy.{NatPolicy, ref_obj, to_api_dict, from_api_response}
use sonicwall_sdk.Resources.Normalize.{normalize_get_from_plural, unwrap_ipv4}
use sonicwall_sdk.Resources.Base.{
  get_path, post_path, put_path, delete_path, list_path, collection_payload, except_schema_error,
  except_any,
}

abbrev base : String
base = "/nat-policies/ipv4"

abbrev name_path : String → String
name_path name = String.◌++◌ base (String.◌++◌ "/name/" (quote name))

abbrev text_or_empty : Option String → String
text_or_empty none = ""
text_or_empty (some s) = s

-- `_to_firmware_collection_payload`
unfoldable pub to_firmware_collection_payload : NatPolicy → Value
unfolding ref_obj
to_firmware_collection_payload p =
    let inner =
      ("name", opt_str p.name)
      ∷ ("inbound", str p.inbound_interface)
      ∷ ("outbound", str p.outbound_interface)
      ∷ ("source", ref_obj p.original_source false)
      ∷ ("translated_source", ref_obj p.translated_source true)
      ∷ ("destination", ref_obj p.original_destination false)
      ∷ ("translated_destination", ref_obj p.translated_destination true)
      ∷ ("service", ref_obj p.original_service false)
      ∷ ("translated_service", ref_obj p.translated_service true)
      ∷ ("enable", bool p.enabled)
      ∷ ("comment", str (text_or_empty p.comment))
      ∷ [] in
    dict (("nat_policies", singleton (dict (("ipv4", dict inner) ∷ []))) ∷ [])

abbrev or_null : Option Value → Value
or_null none = null
or_null (some v) = v

abbrev named : String → Option Fields → Bool
named name none = false
named name (some ipv4) = equals_str (or_null (lookup "name" ipv4)) name

-- The predicate of `_normalize_get_response`
unfoldable pub is_expected : String → Fields → Bool
unfolding unwrap_ipv4 lookup
is_expected name item = named name (unwrap_ipv4 item "nat_policy")

abbrev is_name : Option String → String → Bool
is_name none name = false
is_name (some s) name = str_eq s name

-- The loop of `get`
unfoldable pub find_policy : String → List NatPolicy → Option NatPolicy
find_policy name [] = none
find_policy name (policy ∷ policies) =
    let rest = find_policy name policies in if is_name policy.name name then some policy else rest

-- The `NotFoundError` that `get` raises
abbrev pub no_policy : String → Error
no_policy name = http_error not_found 404 (String.◌++◌ "NAT policy not found: " name) null

abbrev found_or : Error → Option NatPolicy → Exec Session NatPolicy
found_or e none = raise e
found_or e (some policy) = pure policy

abbrev name_or : Option String → String → String
name_or none name = name
name_or (some s) name = if nonempty (some s) then s else name

module _ (env : Env) (validate : Value → Result NatPolicy) where
  -- `list`
  unfoldable pub list : Exec Session (List NatPolicy)
  list = list_path env base "nat_policies" "nat_policy" (from_api_response validate) false

  -- The `try` of `get`
  unfoldable pub get_single : String → Exec Session NatPolicy
  get_single name = do
    response ← get_path env (name_path name)
    single ←
        lift (normalize_get_from_plural response "nat_policies" "nat_policy" (is_expected name))
    lift (from_api_response validate single)

  -- What `get` does once the policy is not found by its path
  unfoldable pub get_listed : String → Exec Session NatPolicy
  unfolding find_policy
  get_listed name = do policies ← list; found_or (no_policy name) (find_policy name policies)

  abbrev on_missing : String → Error → Exec Session NatPolicy
  on_missing name e = if is_not_found e then get_listed name else raise e

  -- `get`
  unfoldable pub get : String → Exec Session NatPolicy
  get name = try_except (get_single name) (on_missing name)

  -- The payloads that `create` and `update` try in turn. An exception without a status code is no
  -- schema error.
  unfoldable pub write_any : (Value → Exec Session Value) → NatPolicy → Exec Session Value
  write_any write policy = try_except (write (to_api_dict policy)) (
      except_schema_error "nat_policies" (
        try_except (write (collection_payload "nat_policy" "nat_policies" (to_api_dict policy)))
          (except_any (write (to_firmware_collection_payload policy)))))

  abbrev read_back : NatPolicy → Option String → Exec Session NatPolicy
  read_back policy none = pure policy
  read_back policy (some name) =
      if nonempty (some name) then try_except (get name) (except_any (pure policy)) else pure policy

  -- `create`
  unfoldable pub create : NatPolicy → Exec Session NatPolicy
  create policy = do write_any (post_path env base) policy; read_back policy policy.name

  -- `update`
  unfoldable pub update : String → NatPolicy → Exec Session NatPolicy
  update name policy = do
    write_any (put_path env (name_path name)) policy
    try_except (get (name_or policy.name name)) (except_any (pure policy))

  -- `delete`
  unfoldable pub delete : String → Exec Session (Unit {0})
  delete name = delete_path env (name_path name)

  abbrev create_new : NatPolicy → Exec Session (NatPolicy × Bool)
  create_new policy = do created ← create policy; pure (created, true)

  -- The `try` of `ensure`
  unfoldable pub refresh : String → NatPolicy → Exec Session (NatPolicy × Bool)
  refresh name policy = do get name; updated ← update name policy; pure (updated, false)

  abbrev create_missing : NatPolicy → Error → Exec Session (NatPolicy × Bool)
  create_missing policy e = if is_not_found e then create_new policy else raise e

  abbrev ensure_named : NatPolicy → Option String → Exec Session (NatPolicy × Bool)
  ensure_named policy none = create_new policy
  ensure_named policy (some name) =
      if nonempty (some name)
      then try_except (refresh name policy) (create_missing policy)
      else create_new policy

  -- `ensure`
  unfoldable pub ensure : NatPolicy → Exec Session (NatPolicy × Bool)
  ensure policy = ensure_named policy policy.name
