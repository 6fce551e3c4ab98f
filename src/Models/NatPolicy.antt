-- ===== src/Models/NatPolicy.antt =====
-- models/nat_policy.py. What pydantic makes of the keyword arguments is a parameter of the parser.
pub mod Reference
use mathlib.Core.List.{[], ◌∷◌, ◌++◌}
use sonicwall_sdk.Prelude.{
  String, Bool, true, false, not, ◌&&◌, Option, none, some, List, str_eq, if◌then◌else◌,
}
use sonicwall_sdk.Json.Value.{Value, null, bool, str, obj, Fields, dict, lookup, truthy, nonempty}
use sonicwall_sdk.Json.Access.{get, subscript}
use sonicwall_sdk.Errors.{Result, ok, ◌>>=◌}
use sonicwall_sdk.Resources.Base.{unwrap}

pub record NatPolicy : Type 0 where
  pub name : Option String
  pub enabled : Bool
  pub inbound_interface : String
  pub outbound_interface : String
  pub original_source : String
  pub translated_source : String
  pub original_destination : String
  pub translated_destination : String
  pub original_service : String
  pub translated_service : String
  pub comment : Option String

abbrev text_entry : String → Option String → List (String × Value)
text_entry key none = []
text_entry key (some s) = if nonempty (some s) then (key, str s) ∷ [] else []

-- `to_api_dict`
unfoldable pub to_api_dict : NatPolicy → Value
to_api_dict p =
    let inner =
      ("inbound_interface", str p.inbound_interface)
      ∷ ("outbound_interface", str p.outbound_interface)
      ∷ ("original_source", str p.original_source)
      ∷ ("translated_source", str p.translated_source)
      ∷ ("original_destination", str p.original_destination)
      ∷ ("translated_destination", str p.translated_destination)
      ∷ ("original_service", str p.original_service)
      ∷ ("translated_service", str p.translated_service)
      ∷ ("enabled", bool p.enabled)
      ∷ (text_entry "name" p.name ++ text_entry "comment" p.comment) in
    dict (("nat_policy", dict (("ipv4", dict inner) ∷ [])) ∷ [])

abbrev is_true : Option Value → Bool
is_true none = false
is_true (some v) = truthy v

abbrev text_or : Option Value → String → String
text_or (some (str s)) rest = if not (str_eq s "") then s else rest
text_or _ rest = rest

-- `norm_ref`
unfoldable pub norm_ref : Value → String → String
unfolding lookup truthy
norm_ref (str s) default = s
norm_ref (obj fs) default =
    if is_true (lookup "any" fs)
    then "any"
    else if is_true (lookup "original" fs)
    then "original"
    else text_or (lookup "name" fs) (text_or (lookup "group" fs) default)
norm_ref _ default = default

-- `data.get(key, data.get(other, default))`
either_key : Value → String → String → Value → Result Value
unfolding get
either_key data' key other default = do v ← get data' other default; get data' key v

-- The keyword arguments of `from_api_response`
unfoldable pub keyword_arguments : Value → Result Value
unfolding either_key get norm_ref
keyword_arguments data' = do
  name ← get data' "name" null
  enabled ← either_key data' "enabled" "enable" (bool true)
  inbound ← either_key data' "inbound_interface" "inbound" (str "any")
  outbound ← either_key data' "outbound_interface" "outbound" (str "any")
  original_source ← either_key data' "original_source" "source" null
  translated_source ← get data' "translated_source" null
  original_destination ← either_key data' "original_destination" "destination" null
  translated_destination ← get data' "translated_destination" null
  original_service ← either_key data' "original_service" "service" null
  translated_service ← get data' "translated_service" null
  comment ← get data' "comment" null
  ok (
      dict (
        ("name", name)
        ∷ ("enabled", enabled)
        ∷ ("inbound_interface", inbound)
        ∷ ("outbound_interface", outbound)
        ∷ ("original_source", str (norm_ref original_source "any"))
        ∷ ("translated_source", str (norm_ref translated_source "original"))
        ∷ ("original_destination", str (norm_ref original_destination "any"))
        ∷ ("translated_destination", str (norm_ref translated_destination "original"))
        ∷ ("original_service", str (norm_ref original_service "any"))
        ∷ ("translated_service", str (norm_ref translated_service "original"))
        ∷ ("comment", comment)
        ∷ []))

-- `from_api_response`, with `model_validate` as an argument
unfoldable pub from_api_response : (Value → Result NatPolicy) → Value → Result NatPolicy
unfolding unwrap keyword_arguments
from_api_response validate data' = do
  inner ← unwrap "nat_policy" data'
  ipv4 ← unwrap "ipv4" inner
  arguments ← keyword_arguments ipv4
  validate arguments

-- `_ref_obj` of resources/nat_policies.py
unfoldable pub ref_obj : String → Bool → Value
ref_obj value allow_original =
    if str_eq value "any"
    then dict (("any", bool true) ∷ [])
    else if allow_original && str_eq value "original"
    then dict (("original", bool true) ∷ [])
    else dict (("name", str value) ∷ [])
