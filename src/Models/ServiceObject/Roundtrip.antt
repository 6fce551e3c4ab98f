-- ===== src/Models/ServiceObject/Roundtrip.antt =====
-- What is printed for a service object is parsed back to it.
use sonicwall_sdk.Prelude.{ℕ, ◌≤◌, String, Option, none, some, ◌≡◌, refl}
use sonicwall_sdk.Json.Value.{Fields, obj, nat, str, lookup}
use sonicwall_sdk.Errors.{ok}
use sonicwall_sdk.Models.ServiceObject.{
  PortRange, IcmpSpec, ServiceProtocol, ServiceObject, Pydantic, port_dict, icmp_dict, to_api_dict,
  from_api_response,
}

-- Pydantic fills the fields of a port range from the keys "begin" and "end", wherever they stand
-- among the keyword arguments, and those of an ICMP specification from "type" and "code", where they
-- are integers in the ranges that the fields declare; a text it takes as it is.
pub record Accepts (py : Pydantic) : Type 0 where
  pub ports :
      (fs : Fields) (b e : ℕ)
      → lookup "begin" fs ≡ some (nat b)
      → lookup "end" fs ≡ some (nat e)
      → b ≤ 65535
      → e ≤ 65535
      → py.port_range (obj fs) ≡ ok (record { begin = b; last = e })
  pub icmps :
      (fs : Fields) (k c : ℕ)
      → lookup "type" fs ≡ some (nat k)
      → lookup "code" fs ≡ some (nat c)
      → k ≤ 255
      → c ≤ 255
      → py.icmp_spec (obj fs) ≡ ok (record { kind = k; code = c })
  pub texts : (s : String) → py.text (str s) ≡ ok s

abbrev pub PortInRange : Option PortRange → Type 0
PortInRange none = Unit
PortInRange (some p) = (p.begin ≤ 65535) × (p.last ≤ 65535)

abbrev pub IcmpInRange : Option IcmpSpec → Type 0
IcmpInRange none = Unit
IcmpInRange (some i) = (i.kind ≤ 255) × (i.code ≤ 255)

-- The bounds that the fields of a service object declare.
pub record InRange (p : ServiceProtocol) : Type 0 where
  pub tcp : PortInRange p.tcp
  pub udp : PortInRange p.udp
  pub icmp : IcmpInRange p.icmp

module _ {py : Pydantic} (accepts : Accepts py) where
  port_range-port_dict :
      (p : PortRange) → p.begin ≤ 65535 → p.last ≤ 65535 → py.port_range (port_dict p) ≡ ok p
  unfolding lookup
  port_range-port_dict p b e = accepts.ports _ p.begin p.last refl refl b e

  icmp_spec-icmp_dict :
      (i : IcmpSpec) → i.kind ≤ 255 → i.code ≤ 255 → py.icmp_spec (icmp_dict i) ≡ ok i
  unfolding lookup
  icmp_spec-icmp_dict i k c = accepts.icmps _ i.kind i.code refl refl k c

  roundtrip_parts :
      (name : String) (tcp udp : Option PortRange) (icmp : Option IcmpSpec)
      → PortInRange tcp
      → PortInRange udp
      → IcmpInRange icmp
      → let o : ServiceObject = record {
        name = name;
        protocol = record { tcp = tcp; udp = udp; icmp = icmp };
      } in
        from_api_response py (to_api_dict o) ≡ ok o
  unfolding from_api_response to_api_dict lookup
  roundtrip_parts name none none none t u i = rw (accepts.texts name)
  roundtrip_parts name none none (some i') t u i =
      rw (icmp_spec-icmp_dict i' i.0 i.1) (rw (accepts.texts name))
  roundtrip_parts name none (some q) none t u i =
      rw (port_range-port_dict q u.0 u.1) (rw (accepts.texts name))
  roundtrip_parts name none (some q) (some i') t u i =
      rw (port_range-port_dict q u.0 u.1)
        (rw (icmp_spec-icmp_dict i' i.0 i.1) (rw (accepts.texts name)))
  roundtrip_parts name (some p) none none t u i =
      rw (port_range-port_dict p t.0 t.1) (rw (accepts.texts name))
  roundtrip_parts name (some p) none (some i') t u i =
      rw (port_range-port_dict p t.0 t.1)
        (rw (icmp_spec-icmp_dict i' i.0 i.1) (rw (accepts.texts name)))
  roundtrip_parts name (some p) (some q) none t u i =
      rw (port_range-port_dict p t.0 t.1)
        (rw (port_range-port_dict q u.0 u.1) (rw (accepts.texts name)))
  roundtrip_parts name (some p) (some q) (some i') t u i = rw (port_range-port_dict p t.0 t.1) (
      rw (port_range-port_dict q u.0 u.1)
        (rw (icmp_spec-icmp_dict i' i.0 i.1) (rw (accepts.texts name))))

  -- A service object whose ports and ICMP type and code are in the ranges of their fields is
  -- parsed back from its wire format, when pydantic fills the fields from the keys "begin" and "end",
  -- "type" and "code" with the integers in range that stand there.
  pub from_api_response-to_api_dict :
      (o : ServiceObject) → InRange o.protocol → from_api_response py (to_api_dict o) ≡ ok o
  from_api_response-to_api_dict o r =
      roundtrip_parts o.name o.protocol.tcp o.protocol.udp o.protocol.icmp r.tcp r.udp r.icmp
