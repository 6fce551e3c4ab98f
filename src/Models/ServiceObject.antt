-- ===== src/Models/ServiceObject.antt =====
-- models/service_object.py. Pydantic's checks of ports and types are a parameter of the parser.
pub mod Roundtrip
use mathlib.Core.List.{[], ◌∷◌, ◌++◌}
use sonicwall_sdk.Prelude.{ℕ, String, Bool, true, false, Option, none, some, List, if◌then◌else◌}
use sonicwall_sdk.Json.Value.{Value, str, nat, dict, lookup}
use sonicwall_sdk.Json.Access.{get, subscript}
use sonicwall_sdk.Errors.{Result, ok, err, ◌>>=◌}
use sonicwall_sdk.Resources.Base.{has_key, unwrap}

pub record PortRange : Type 0 where
  pub begin : ℕ
  pub last : ℕ  -- `end`

pub record IcmpSpec : Type 0 where
  pub kind : ℕ  -- `type`
  pub code : ℕ

pub record ServiceProtocol : Type 0 where
  pub tcp : Option PortRange
  pub udp : Option PortRange
  pub icmp : Option IcmpSpec

pub record ServiceObject : Type 0 where
  pub name : String
  pub protocol : ServiceProtocol

abbrev Entries : Type 0
Entries = List (String × Value)

-- `PortRange.single`
unfoldable pub single : ℕ → PortRange
single port = record { begin = port; last = port }

abbrev pub port_dict : PortRange → Value
port_dict p = dict (("begin", nat p.begin) ∷ ("end", nat p.last) ∷ [])

abbrev pub icmp_dict : IcmpSpec → Value
icmp_dict i = dict (("type", nat i.kind) ∷ ("code", nat i.code) ∷ [])

abbrev port_entry : String → Option PortRange → Entries
port_entry key none = []
port_entry key (some p) = (key, port_dict p) ∷ []

abbrev icmp_entry : Option IcmpSpec → Entries
icmp_entry none = []
icmp_entry (some i) = ("icmp", icmp_dict i) ∷ []

-- The three `if`s of `to_api_dict` and of `_to_firmware_collection_payload`; a model instance
-- counts as true.
pub protocol_entries : ServiceProtocol → Entries
protocol_entries p = port_entry "tcp" p.tcp ++ (port_entry "udp" p.udp ++ icmp_entry p.icmp)

-- `to_api_dict`
unfoldable pub to_api_dict : ServiceObject → Value
unfolding protocol_entries
to_api_dict o = dict (
    (
      "service_object",
      dict (("name", str o.name) ∷ ("protocol", dict (protocol_entries o.protocol)) ∷ []),
    )
    ∷ [])

-- What pydantic makes of the keyword arguments of a model's constructor, or raises.
pub record Pydantic : Type 0 where
  pub port_range : Value → Result PortRange
  pub icmp_spec : Value → Result IcmpSpec
  pub text : Value → Result String

abbrev parse_with : {T : Type 0} → (Value → Result T) → Value → Result (Option T)
parse_with f v = do t ← f v; ok (some t)

-- `F(**raw[key]) if key in raw else None`
pub optional : {T : Type 0} → (Value → Result T) → String → Value → Result (Option T)
unfolding has_key subscript
optional f key raw = do
  present ← has_key raw key
  if present then (do v ← subscript raw key; parse_with f v) else ok none

-- `from_api_response`
unfoldable pub from_api_response : Pydantic → Value → Result ServiceObject
unfolding optional unwrap get subscript
from_api_response py data' = do
  inner ← unwrap "service_object" data'
  raw ← get inner "protocol" (dict [])
  tcp ← optional py.port_range "tcp" raw
  udp ← optional py.port_range "udp" raw
  icmp ← optional py.icmp_spec "icmp" raw
  name ← subscript inner "name"
  text ← py.text name
  ok (record { name = text; protocol = record { tcp = tcp; udp = udp; icmp = icmp } })
