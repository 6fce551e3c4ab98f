-- ===== src/Models/Interface.antt =====
-- models/interface.py. `model_validate` is a parameter of the parser.
use Prim.Native.String.{◌++◌, ◌∷◌ as cons_char}
use mathlib.Core.List.{[], ◌∷◌}
use sonicwall_sdk.Prelude.{ℕ, String, Bool, true, Option, none, some}
use sonicwall_sdk.Json.Value.{Value, null, bool, str, dict}
use sonicwall_sdk.Json.Access.{get}
use sonicwall_sdk.Errors.{Result, ok, ◌>>=◌}
use sonicwall_sdk.Ip.{Network, show_address, parse_network}
use sonicwall_sdk.Resources.Base.{unwrap}

pub data IpAssignment : Type 0 where
  static dhcp pppoe l2tp : IpAssignment

pub record Interface : Type 0 where
  pub name : String
  pub ip_assignment : Option IpAssignment
  pub ip : Option ℕ
  pub subnet : Option ℕ
  pub zone : Option String
  pub enabled : Bool
  pub comment : Option String

abbrev network_of : Option ℕ → Option ℕ → Option (Option Network)
network_of (some ip) (some subnet) =
    some (parse_network (show_address ip ++ cons_char "/" (show_address subnet)))
network_of _ _ = none

-- `network`: `none` is `None`, and `some none` a `ValueError` of `ipaddress`. An address is true,
-- also `0.0.0.0`.
unfoldable pub network : Interface → Option (Option Network)
network i = network_of i.ip i.subnet

-- The keyword arguments of `from_api_response`
unfoldable pub keyword_arguments : Value → Result Value
unfolding get
keyword_arguments data' = do
  name ← get data' "name" (str "")
  ip_assignment ← get data' "ip_assignment" null
  ip ← get data' "ip" null
  subnet ← get data' "subnet" null
  zone ← get data' "zone" null
  enabled ← get data' "enabled" (bool true)
  comment ← get data' "comment" null
  ok (
      dict (
        ("name", name)
        ∷ ("ip_assignment", ip_assignment)
        ∷ ("ip", ip)
        ∷ ("subnet", subnet)
        ∷ ("zone", zone)
        ∷ ("enabled", enabled)
        ∷ ("comment", comment)
        ∷ []))

-- `from_api_response`
unfoldable pub from_api_response : (Value → Result Interface) → Value → Result Interface
unfolding unwrap keyword_arguments
from_api_response validate data' = do
  inner ← unwrap "interface" data'
  arguments ← keyword_arguments inner
  validate arguments
