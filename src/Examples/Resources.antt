-- ===== src/Examples/Resources.antt =====
-- The round trip of service objects with checks that stand for pydantic's.
use sonicwall_sdk.Prelude.{ℕ, String, Option, none, some, ◌≡◌, refl, leb, arith, if◌then◌else◌}
use sonicwall_sdk.Json.Value.{Value, str, int, obj, lookup, pos}
use sonicwall_sdk.Errors.{Result, ok, err, builtin, value_error, ◌>>=◌}
use sonicwall_sdk.Models.ServiceObject
use sonicwall_sdk.Models.ServiceObject.{
  PortRange, IcmpSpec, ServiceObject, Pydantic, from_api_response,
}
use sonicwall_sdk.Models.ServiceObject.Roundtrip.{Accepts, from_api_response-to_api_dict}

-- An integer of at most `bound`.
abbrev bounded : ℕ → Option Value → Result ℕ
bounded bound (some (int (pos n))) =
    if leb n bound then ok n else err (builtin value_error "out of range")
bounded bound _ = err (builtin value_error "no integer")

-- The checks of the declared ranges, on the keys of the fields.
abbrev port_range : Value → Result PortRange
port_range (obj fs) = do
  b ← bounded 65535 (lookup "begin" fs)
  e ← bounded 65535 (lookup "end" fs)
  ok (record { begin = b; last = e })
port_range _ = err (builtin value_error "no range")

abbrev icmp_spec : Value → Result IcmpSpec
icmp_spec (obj fs) = do
  k ← bounded 255 (lookup "type" fs)
  c ← bounded 255 (lookup "code" fs)
  ok (record { kind = k; code = c })
icmp_spec _ = err (builtin value_error "no type and code")

abbrev text : Value → Result String
text (str s) = ok s
text _ = err (builtin value_error "no text")

abbrev checks : Pydantic
checks = record { port_range = port_range; icmp_spec = icmp_spec; text = text }

checks-Accepts : Accepts checks
checks-Accepts = record {
  ports = λ fs b e p q l m. ground (arith, p, q);
  icmps = λ fs k c p q l m. ground (arith, p, q);
  texts = λ s. refl;
}

abbrev https : ServiceObject
https = record {
  name = "https";
  protocol = record {
    tcp = some (record { begin = 443; last = 443 });
    udp = none;
    icmp = some (record { kind = 8; code = 0 });
  };
}

from_api_response-to_api_dict_example :
    from_api_response checks (ServiceObject.to_api_dict https) ≡ ok https
from_api_response-to_api_dict_example =
    from_api_response-to_api_dict checks-Accepts https
      (record { tcp = (omega arith, omega arith); udp = tt; icmp = (omega arith, omega arith) })
