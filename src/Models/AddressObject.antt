-- ===== src/Models/AddressObject.antt =====
-- models/address_object.py. What pydantic makes of a field's value is a parameter of the parser.
pub mod Roundtrip
use Prim.Native.String.{◌++◌, ◌∷◌ as cons_char}
use mathlib.Core.List.{[], ◌∷◌, ◌++◌ as append}
use sonicwall_sdk.Prelude.{
  ℕ, String, Bool, true, false, not, ◌&&◌, Option, none, some, List, str_eq, if◌then◌else◌,
}
use sonicwall_sdk.Json.Value.{Value, null, str, obj, Fields, dict, lookup, nonempty, opt_str}
use sonicwall_sdk.Json.Access.{get, subscript}
use sonicwall_sdk.Errors.{Result, ok, err, builtin, value_error, ◌>>=◌}
use sonicwall_sdk.Ip.{Network, netmask, show_address, parse_network}
use sonicwall_sdk.Resources.Base.{Model, has_key, unwrap}

pub data AddressObjectType : Type 0 where
  host range network fqdn mac : AddressObjectType

pub record AddressObject : Type 0 where
  pub name : String
  pub type : AddressObjectType
  pub zone : String
  pub host : Option ℕ
  pub network : Option Network
  pub range_start : Option ℕ
  pub range_end : Option ℕ
  pub fqdn : Option String
  pub mac : Option String

-- What pydantic makes of a value for a field, or raises: `name` has a maximal length, `text` is any
-- text, and `address` an `IPv4Address`. `show` is `str()` on values that are no texts, and
-- `network_error` the message that `ipaddress` has for a text that is no network.
pub record AddressFields : Type 0 where
  pub name : Value → Result String
  pub text : Value → Result String
  pub address : Value → Result ℕ
  pub show : Value → String
  pub network_error : String → String

abbrev value_error_of : {A : Type 0} → String → Result A
value_error_of message = err (builtin value_error message)

abbrev is_none : {A : Type 0} → Option A → Bool
is_none none = true
is_none (some _) = false

abbrev either_none : Option ℕ → Option ℕ → Bool
either_none (some _) (some _) = false
either_none _ _ = true

abbrev missing_field : AddressObjectType → AddressObject → Option String
missing_field AddressObjectType.host o =
    if is_none o.host then some "'host' IP address is required when type is 'host'" else none
missing_field AddressObjectType.network o =
    if is_none o.network then some "'network' is required when type is 'network'" else none
missing_field AddressObjectType.range o =
    if either_none o.range_start o.range_end
    then some "'range_start' and 'range_end' are required when type is 'range'"
    else none
missing_field AddressObjectType.fqdn o =
    if not (nonempty o.fqdn) then some "'fqdn' is required when type is 'fqdn'" else none
missing_field AddressObjectType.mac o =
    if not (nonempty o.mac) then some "'mac' is required when type is 'mac'" else none

abbrev raise_missing : AddressObject → Option String → Result AddressObject
raise_missing o none = ok o
raise_missing o (some message) = value_error_of message

-- `validate_type_fields`
unfoldable pub validate_type_fields : AddressObject → Result AddressObject
validate_type_fields o = raise_missing o (missing_field o.type o)

abbrev or_network_error : AddressFields → String → Option Network → Result Network
or_network_error fields s none = value_error_of (fields.network_error s)
or_network_error fields s (some n) = ok n

-- `IPv4Network(s, strict=False)`, in `parse_network` and in `from_api_response`
unfoldable pub network_of_text : AddressFields → String → Result Network
network_of_text fields s = or_network_error fields s (parse_network s)

abbrev Entries : Type 0
Entries = List (String × Value)

abbrev host_entry : Option ℕ → Entries
host_entry none = []
host_entry (some n) = ("host", dict (("ip", str (show_address n)) ∷ [])) ∷ []

abbrev network_entry : Option Network → Entries
network_entry none = []
network_entry (some n) =
    (
      "network",
      dict (
          ("subnet", str (show_address n.network_address))
          ∷ ("mask", str (show_address (netmask n.prefix)))
          ∷ []),
    )
    ∷ []

-- `str(address)` of an address or `None`
abbrev show_opt : Option ℕ → String
show_opt none = "None"
show_opt (some n) = show_address n

abbrev type_entry : AddressObjectType → AddressObject → Entries
type_entry AddressObjectType.host o = host_entry o.host
type_entry AddressObjectType.network o = network_entry o.network
type_entry AddressObjectType.range o =
    (
      "range",
      dict (("begin", str (show_opt o.range_start)) ∷ ("end", str (show_opt o.range_end)) ∷ []),
    )
    ∷ []
type_entry AddressObjectType.fqdn o = ("fqdn", dict (("domain", opt_str o.fqdn) ∷ [])) ∷ []
type_entry AddressObjectType.mac o = ("mac", dict (("address", opt_str o.mac) ∷ [])) ∷ []

-- `to_api_dict`
unfoldable pub to_api_dict : AddressObject → Value
to_api_dict o =
    let inner = ("name", str o.name) ∷ ("zone", str o.zone) ∷ type_entry o.type o in
    dict (("address_object", dict (("ipv4", dict inner) ∷ [])) ∷ [])

abbrev text_or : Option Value → Option String → Option String
text_or (some (str s)) rest = if not (str_eq s "") then some s else rest
text_or _ rest = rest

-- `_extract_host_ip`
unfoldable pub extract_host_ip : Value → Option String
unfolding lookup
extract_host_ip (str s) = some s
extract_host_ip (obj fs) =
    text_or (lookup "ip" fs)
      (text_or (lookup "ipv4" fs) (text_or (lookup "address" fs) (text_or (lookup "host" fs) none)))
extract_host_ip _ = none

-- The type-specific keyword arguments that `from_api_response` collects.
pub data Content : Type 0 where
  host : String → Content
  network : Network → Content
  range : Value → Value → Content
  fqdn : Value → Content
  mac : Value → Content

-- `str(v)`
abbrev to_text : AddressFields → Value → String
to_text fields (str s) = s
to_text fields v = fields.show v

abbrev host_content : AddressFields → Value → Option String → Result Content
host_content fields v none = value_error_of ("Host object missing IP field: " ++ to_text fields v)
host_content fields v (some ip) = ok (Content.host ip)

network_content : AddressFields → Value → Result Content
unfolding subscript network_of_text
network_content fields v = do
  subnet ← subscript v "subnet"
  mask ← subscript v "mask"
  net ← network_of_text fields (to_text fields subnet ++ cons_char "/" (to_text fields mask))
  ok (Content.network net)

range_content : Value → Result Content
unfolding subscript
range_content v = do
  begin ← subscript v "begin"
  last ← subscript v "end"
  ok (Content.range begin last)

-- The chain of `elif`s in `from_api_response`.
unfoldable pub content_of : AddressFields → Value → Result Content
unfolding has_key subscript extract_host_ip network_content range_content
content_of fields data' = do
  has_host ← has_key data' "host"
  has_network ← has_key data' "network"
  has_range ← has_key data' "range"
  has_fqdn ← has_key data' "fqdn"
  has_mac ← has_key data' "mac"
  if has_host
      then (do v ← subscript data' "host"; host_content fields v (extract_host_ip v))
      else if has_network
      then (do v ← subscript data' "network"; network_content fields v)
      else if has_range
      then (do v ← subscript data' "range"; range_content v)
      else if has_fqdn
      then (do v ← subscript data' "fqdn"; domain ← subscript v "domain"; ok (Content.fqdn domain))
      else if has_mac
      then (do v ← subscript data' "mac"; address ← subscript v "address"; ok (Content.mac address))
      else value_error_of
          ("Cannot determine address object type from data: " ++ to_text fields data')

-- A field `T | None`.
unfoldable pub optional : {T : Type 0} → (Value → Result T) → Value → Result (Option T)
optional f null = ok none
optional f v = do t ← f v; ok (some t)

-- An object with no type-specific field.
abbrev pub blank : String → String → AddressObjectType → AddressObject
blank name zone type = record {
  name = name;
  type = type;
  zone = zone;
  host = none;
  network = none;
  range_start = none;
  range_end = none;
  fqdn = none;
  mac = none;
}

-- The fields of the object that `model_validate` makes, before `validate_type_fields`.
unfoldable pub fill : AddressFields → String → String → Content → Result AddressObject
unfolding optional
fill fields name zone (Content.host ip) = do
  address ← fields.address (str ip)
  ok (record (blank name zone AddressObjectType.host) { host = some address })
fill fields name zone (Content.network net) =
    ok (record (blank name zone AddressObjectType.network) { network = some net })
fill fields name zone (Content.range begin last) = do
  start ← optional fields.address begin
  end' ← optional fields.address last
  ok (record (blank name zone AddressObjectType.range) { range_start = start; range_end = end' })
fill fields name zone (Content.fqdn domain) = do
  text ← optional fields.text domain
  ok (record (blank name zone AddressObjectType.fqdn) { fqdn = text })
fill fields name zone (Content.mac address) = do
  text ← optional fields.text address
  ok (record (blank name zone AddressObjectType.mac) { mac = text })

-- `from_api_response`
unfoldable pub from_api_response : AddressFields → Value → Result AddressObject
unfolding unwrap get subscript content_of fill validate_type_fields
from_api_response fields data' = do
  outer ← unwrap "address_object" data'
  inner ← unwrap "ipv4" outer
  name ← subscript inner "name"
  zone ← get inner "zone" (str "LAN")
  content ← content_of fields inner
  name_text ← fields.name name
  zone_text ← fields.text zone
  object ← fill fields name_text zone_text content
  validate_type_fields object

-- The model as the resource takes it.
abbrev pub model : AddressFields → Model AddressObject
unfolding to_api_dict from_api_response
model fields = record { to_api_dict = to_api_dict; from_api_response = from_api_response fields }
