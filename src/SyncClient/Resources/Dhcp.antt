-- ===== src/SyncClient/Resources/Dhcp.antt =====
-- `_SyncDhcpResource` of _client.py
use mathlib.Core.List.{List}
use sonicwall_sdk.Json.Value.{Value}
use sonicwall_sdk.Errors.{Result}
use sonicwall_sdk.Transport.{Env}
use sonicwall_sdk.Models.Dhcp.{DhcpLease}
use sonicwall_sdk.Resources.Dhcp
use sonicwall_sdk.SyncClient.{Blocking, run}

module _ (env : Env) (validate : Value → Result DhcpLease) where
  unfoldable pub list_leases : Blocking (List DhcpLease)
  unfolding run Dhcp.list_leases
  list_leases = run (Dhcp.list_leases env validate)
