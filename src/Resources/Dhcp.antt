-- ===== src/Resources/Dhcp.antt =====
-- resources/dhcp.py
pub mod Leases
use mathlib.Core.List.{[], ◌∷◌}
use sonicwall_sdk.Prelude.{String, Bool, true, false, Option, none, some, List, if◌then◌else◌}
use sonicwall_sdk.Json.Value.{Value, null, bool, arr, Items, dict, to_list}
use sonicwall_sdk.Json.Access.{get}
use sonicwall_sdk.Errors.{Error, Result, ok, err, is_not_found}
use sonicwall_sdk.Errors
use sonicwall_sdk.Exec.{Exec, pure, raise, lift, try_else, ◌>>=◌}
use sonicwall_sdk.Transport.{Env, Session}
use sonicwall_sdk.Models.Dhcp.{DhcpLease, from_api_response}
use sonicwall_sdk.Resources.Base.{get_path}

abbrev pub candidate_paths : List String
candidate_paths =
    "/dhcp/server/lease" ∷ "/dhcp/server/leases" ∷ "/dhcp/leases" ∷ "/dhcp-server/lease" ∷ []

abbrev pub candidate_keys : List String
candidate_keys = "dhcp_leases" ∷ "dhcp_server_leases" ∷ "leases" ∷ []

abbrev items_or : Value → Result (Option Items) → Result (Option Items)
items_or (arr items) rest = ok (some items)
items_or _ rest = rest

-- The loop over the keys: the first that holds a list.
unfoldable pub find_items : Value → List String → Result (Option Items)
unfolding get
find_items body [] = ok none
find_items body (key ∷ keys) =
    Errors.◌>>=◌ (get body key null) (λ raw. items_or raw (find_items body keys))

-- The loop over the items: what cannot be parsed is passed over.
abbrev or_skip : Result DhcpLease → List DhcpLease → List DhcpLease
or_skip (ok lease) rest = lease ∷ rest
or_skip (err e) rest = rest

unfoldable pub parse_leases : (Value → Result DhcpLease) → List Value → List DhcpLease
unfolding from_api_response
parse_leases validate [] = []
parse_leases validate (item ∷ items) =
    or_skip (from_api_response validate item) (parse_leases validate items)

abbrev leases_or_none : (Value → Result DhcpLease) → Option Items → Result (List DhcpLease)
leases_or_none validate (some items) = ok (parse_leases validate (to_list items))
leases_or_none validate none = ok []

-- The test of `status.success`, which decides nothing but whether a warning is logged; it raises
-- if the status is no `dict`.
unfoldable pub success_of : Value → Result Value
unfolding get
success_of body = Errors.◌>>=◌ (get body "status" (dict [])) (λ status. get status "success" null)

abbrev without_items : Value → Option Items → Result (Option Items)
without_items body (some items) = ok (some items)
without_items body none = Errors.◌>>=◌ (success_of body) (λ _. ok none)

-- What `list_leases` returns for the body of a response
unfoldable pub leases_of : (Value → Result DhcpLease) → Value → Result (List DhcpLease)
unfolding find_items parse_leases success_of
leases_of validate body =
    Errors.◌>>=◌ (find_items body candidate_keys)
      (λ found. Errors.◌>>=◌ (without_items body found) (leases_or_none validate))

module _ (env : Env) (validate : Value → Result DhcpLease) where
  abbrev raise_last : Option Error → Exec Session (List DhcpLease)
  raise_last none = pure []
  raise_last (some e) = raise e

  -- The loop over the paths, with the last `NotFoundError`
  unfoldable pub try_paths : Option Error → List String → Exec Session (List DhcpLease)
  try_paths last_not_found [] = raise_last last_not_found
  try_paths last_not_found (path ∷ paths) =
      try_else (get_path env path)
        (λ e. if is_not_found e then try_paths (some e) paths else raise e)
        (λ body. lift (leases_of validate body))

  -- `list_leases`
  unfoldable pub list_leases : Exec Session (List DhcpLease)
  unfolding try_paths
  list_leases = try_paths none candidate_paths
