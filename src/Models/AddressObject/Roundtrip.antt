-- ===== src/Models/AddressObject/Roundtrip.antt =====
-- What is printed for an address object is parsed back to it.
use Prim.Native.Nat.{ℕ, ◌-◌, ◌%◌, ◌^◌, ◌<◌, ◌≤◌}
use Prim.Native.String.{◌++◌, ◌∷◌ as cons_char}
use sonicwall_sdk.Prelude.{String, false, some, ◌≡◌, arith, str_eq}
use sonicwall_sdk.Json.Value.{str, lookup}
use sonicwall_sdk.Errors.{ok}
use sonicwall_sdk.Ip.{netmask, show_address, parse_address}
use sonicwall_sdk.Ip.Roundtrip.{
  parse_address-show_address, show_address-not_empty, parse_network-show_address,
}
use sonicwall_sdk.Models.AddressObject.{
  AddressObject, AddressObjectType, AddressFields, blank, network_of_text, to_api_dict,
  from_api_response,
}

-- What a type asks for, and nothing else.
pub data Shape : Type 0 where
  host : ℕ → Shape
  network : ℕ → ℕ → Shape
  range : ℕ → ℕ → Shape
  fqdn mac : String → Shape

-- The object of a shape.
abbrev pub object_of : String → String → Shape → AddressObject
object_of name zone (Shape.host n) = record (blank name zone AddressObjectType.host) {
  host = some n;
}
object_of name zone (Shape.network n p) = record (blank name zone AddressObjectType.network) {
  network = some (record { network_address = n; prefix = p });
}
object_of name zone (Shape.range a b) = record (blank name zone AddressObjectType.range) {
  range_start = some a;
  range_end = some b;
}
object_of name zone (Shape.fqdn s) = record (blank name zone AddressObjectType.fqdn) {
  fqdn = some s;
}
object_of name zone (Shape.mac s) = record (blank name zone AddressObjectType.mac) { mac = some s }

-- Addresses are below 2 ^ 32, no bit behind a prefix is set, and texts are not empty.
abbrev pub IsValid : Shape → Type 0
IsValid (Shape.host n) = n < 2 ^ 32
IsValid (Shape.network n p) = (n < 2 ^ 32) × (p ≤ 32) × (n % 2 ^ (32 - p) ≡ 0)
IsValid (Shape.range a b) = (a < 2 ^ 32) × (b < 2 ^ 32)
IsValid (Shape.fqdn s) = str_eq s "" ≡ false
IsValid (Shape.mac s) = str_eq s "" ≡ false

-- Pydantic takes each text for a text, and for an address each text that `ipaddress` parses.
pub record Accepts (fields : AddressFields) : Type 0 where
  pub texts : (s : String) → fields.text (str s) ≡ ok s
  pub addresses : (s : String) (n : ℕ) → parse_address s ≡ some n → fields.address (str s) ≡ ok n

module _ {fields : AddressFields} (accepts : Accepts fields) where
  address-show_address : (n : ℕ) → n < 2 ^ 32 → fields.address (str (show_address n)) ≡ ok n
  address-show_address n h = accepts.addresses (show_address n) n (parse_address-show_address n h)

  network_of_text-show_address :
      (n p : ℕ)
      → n < 2 ^ 32
      → p ≤ 32
      → n % 2 ^ (32 - p) ≡ 0
      → network_of_text fields (show_address n ++ cons_char "/" (show_address (netmask p)))
        ≡ ok (record { network_address = n; prefix = p })
  unfolding network_of_text
  network_of_text-show_address n p h k z = rw (parse_network-show_address n p h k) (ground arith)

  -- An object with exactly the fields of its type is parsed back from its wire format: a host, a
  -- network and a range through the text of their addresses, a domain and a MAC as they are. Its
  -- name is one that pydantic accepts, addresses are below 2 ^ 32, a network has no bit set behind
  -- its prefix, and texts are not empty.
  pub from_api_response-object_of :
      (name zone : String) (shape : Shape)
      → fields.name (str name) ≡ ok name
      → IsValid shape
      → from_api_response fields (to_api_dict (object_of name zone shape))
        ≡ ok (object_of name zone shape)
  unfolding from_api_response to_api_dict lookup
  from_api_response-object_of name zone (Shape.host n) e v =
      rw (show_address-not_empty n) (rw e (rw (accepts.texts zone) (rw (address-show_address n v))))
  from_api_response-object_of name zone (Shape.network n p) e (v, k, z) =
      rw (network_of_text-show_address n p v k z) (rw e (rw (accepts.texts zone)))
  from_api_response-object_of name zone (Shape.range a b) e (v, w) =
      rw e (rw (accepts.texts zone) (rw (address-show_address a v) (rw (address-show_address b w))))
  from_api_response-object_of name zone (Shape.fqdn s) e v =
      rw e (rw (accepts.texts zone) (rw (accepts.texts s) (rw v)))
  from_api_response-object_of name zone (Shape.mac s) e v =
      rw e (rw (accepts.texts zone) (rw (accepts.texts s) (rw v)))
