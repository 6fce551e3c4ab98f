-- ===== src/Contract.antt =====
-- collect_contract.py: raw requests to a device, recorded with their answers. The text of a response
-- is a parameter; the report is what `run` returns, and writing it to a file is left out.
pub mod ReadOnly
use Prim.Native.String
use mathlib.Core.List.{[], ◌∷◌, ◌++◌}
use sonicwall_sdk.Prelude.{
  ℕ, String, Bool, true, false, not, Option, none, some, List, str_eq, if◌then◌else◌,
}
use sonicwall_sdk.Prelude.Text.{is_slash, lstrip}
use sonicwall_sdk.Json.Value.{Value, null, str, arr, obj, Fields, lookup, nonempty, nil, cons}
use sonicwall_sdk.Errors.{Error, Result, error_text}
use sonicwall_sdk.Exec.{Exec, pure, gets, try_else, try_finally, except_exception, ◌>>=◌, ◌>>◌}
use sonicwall_sdk.Transport.{Env, Request, Response, Session, Body, send}
use sonicwall_sdk.Auth.Manager.{auth_headers}
use sonicwall_sdk.Client.{new_client, connect, disconnect}

-- `response_json` is `null` for `None`.
pub record ProbeResult : Type 0 where
  pub name : String
  pub method : String
  pub path : String
  pub request_body : Option Value
  pub status_code : ℕ
  pub response_json : Value
  pub response_text : Option String
  pub error : Option String

-- `_safe_json`
abbrev parsed : Response → Value
parsed r = elim r.payload [ none ↦ null | some v ↦ v ]

abbrev text_unless : Value → String → Option String
text_unless null text = some text
text_unless _ text = none

abbrev body_of : Option Value → Body
body_of none = Body.empty
body_of (some v) = Body.json v

abbrev content_type : Option Value → List (String × String)
content_type none = []
content_type (some _) = ("Content-Type", "application/json") ∷ []

-- The request of `_raw_request`
unfoldable pub raw_probe : String → String → Option Value → Session → Request
unfolding auth_headers lstrip
raw_probe method path json_body s = record {
  method = method;
  url = String.◌++◌ s.base_url (String.◌++◌ "/" (lstrip is_slash path));
  headers =
      ("Accept", "application/json") ∷ (auth_headers s.auth.bearer_token ++ content_type json_body);
  body = body_of json_body;
}

-- `isinstance(d.get("ipv4"), dict)`, with what the code takes otherwise
abbrev inner_or : Fields → Option Value → Fields
inner_or fs (some (obj gs)) = gs
inner_or fs _ = fs

narrowed : Option Value → Fields → Option Fields
unfolding lookup
narrowed (some (obj gs)) first = some (inner_or gs (lookup "ipv4" gs))
narrowed (some _) first = none
narrowed none first = some (inner_or first (lookup "ipv4" first))

first_fields : String → Option Value → Option Fields
unfolding lookup narrowed
first_fields item_key (some (arr (cons (obj first) _))) = narrowed (lookup item_key first) first
first_fields item_key _ = none

-- The first item of a list, out of its envelopes: what both functions below begin with.
unfoldable pub first_item : Value → String → String → Option Fields
unfolding lookup first_fields
first_item (obj fs) list_key item_key = first_fields item_key (lookup list_key fs)
first_item _ list_key item_key = none

abbrev text_field : Option Value → Option String
text_field (some (str s)) = if not (str_eq s "") then some s else none
text_field _ = none

abbrev name_of : Option Fields → Option String
name_of none = none
name_of (some fs) = text_field (lookup "name" fs)

-- `_extract_first_name`
unfoldable pub extract_first_name : Value → String → String → Option String
unfolding first_item
extract_first_name payload list_key item_key = name_of (first_item payload list_key item_key)

abbrev all_three : Option String → Option String → Option String → Option (String × String × String)
all_three (some a) (some b) (some c) = some (a, b, c)
all_three _ _ _ = none

abbrev key_of : Option Fields → Option (String × String × String)
key_of none = none
key_of (some fs) =
    all_three (text_field (lookup "from" fs)) (text_field (lookup "to" fs))
      (text_field (lookup "name" fs))

-- `_extract_first_access_rule`
unfoldable pub extract_first_access_rule : Value → Option (String × String × String)
unfolding first_item
extract_first_access_rule payload = key_of (first_item payload "access_rules" "access_rule")

-- `next((r for r in results if r.name == name), None)`
unfoldable pub find_result : String → List ProbeResult → Option ProbeResult
find_result name [] = none
find_result name (r ∷ results) =
    let rest = find_result name results in if str_eq r.name name then some r else rest

abbrev json_of : Option ProbeResult → Value
json_of none = null
json_of (some r) = r.response_json

-- `[r for r in results if r.error]` is empty: a message that is no text, or an empty one, counts
-- as no error.
unfoldable pub no_errors : List ProbeResult → Bool
no_errors [] = true
no_errors (r ∷ results) = let rest = no_errors results in if nonempty r.error then false else rest

abbrev report : List ProbeResult → List ProbeResult × ℕ
report results = (results, if no_errors results then 0 else 1)

module _ (env : Env) (text : Response → String) where
  abbrev answered : String → String → String → Option Value → Response → ProbeResult
  answered method path name json_body r = record {
    name = name;
    method = method;
    path = path;
    request_body = json_body;
    status_code = r.status_code;
    response_json = parsed r;
    response_text = text_unless (parsed r) (text r);
    error = none;
  }

  abbrev pub failed : String → String → String → Option Value → Error → ProbeResult
  failed method path name json_body e = record {
    name = name;
    method = method;
    path = path;
    request_body = json_body;
    status_code = 0;
    response_json = null;
    response_text = none;
    error = some (error_text e);
  }

  -- `_raw_request`
  unfoldable pub raw_request : String → String → Option Value → String → Exec Session ProbeResult
  unfolding raw_probe error_text
  raw_request method path json_body name = do
    s ← gets (λ s. s)
    try_else (send env (raw_probe method path json_body s))
        (except_exception (λ e. pure (failed method path name json_body e)))
        (λ r. pure (answered method path name json_body r))

  -- A GET whose result is appended to those so far
  unfoldable pub append_get : String → String → List ProbeResult → Exec Session (List ProbeResult)
  unfolding raw_request
  append_get path name results = do r ← raw_request "GET" path none name; pure (results ++ (r ∷ []))

  abbrev pub get_named :
      String → String → List ProbeResult → Option String → Exec Session (List ProbeResult)
  get_named prefix name results none = pure results
  get_named prefix name results (some item) = append_get (String.◌++◌ prefix item) name results

  -- A GET of the first item of a list, if there is one with a name
  unfoldable pub follow :
      String
      → String
      → String
      → String
      → String
      → List ProbeResult
      → Exec Session (List ProbeResult)
  unfolding find_result extract_first_name append_get
  follow listed list_key item_key prefix name results =
      get_named prefix name results
        (extract_first_name (json_of (find_result listed results)) list_key item_key)

  abbrev pub get_rule :
      List ProbeResult → Option (String × String × String) → Exec Session (List ProbeResult)
  get_rule results none = pure results
  get_rule results (some (from_zone, to_zone, name)) =
      append_get
        (String.◌++◌ "/access-rules/ipv4/from/" (
          String.◌++◌ from_zone
            (String.◌++◌ "/to/" (String.◌++◌ to_zone (String.◌++◌ "/name/" name)))))
        "access_rules.get(first)" results

  -- The lists
  unfoldable pub list_probes : Exec Session (List ProbeResult)
  unfolding append_get
  list_probes = do
    a ← append_get "/address-objects/ipv4" "address_objects.list" []
    b ← append_get "/access-rules/ipv4" "access_rules.list" a
    c ← append_get "/interfaces" "interfaces.list" b
    d ← append_get "/nat-policies/ipv4" "nat_policies.list" c
    e ← append_get "/service-objects" "service_objects.list" d
    append_get "/dhcp/server/lease" "dhcp.list_leases" e

  -- The body of the `try`
  unfoldable pub probes : Exec Session (List ProbeResult)
  unfolding list_probes follow extract_first_access_rule
  probes = do
    a ← list_probes
    b ←
        follow "address_objects.list" "address_objects" "address_object"
          "/address-objects/ipv4/name/" "address_objects.get(first)" a
    c ←
        follow "service_objects.list" "service_objects" "service_object" "/service-objects/name/"
          "service_objects.get(first)" b
    d ←
        follow "nat_policies.list" "nat_policies" "nat_policy" "/nat-policies/ipv4/name/"
          "nat_policies.get(first)" c
    e ←
        follow "interfaces.list" "interfaces" "interface" "/interfaces/name/"
          "interfaces.get(first)" d
    get_rule e (extract_first_access_rule (json_of (find_result "access_rules.list" e)))

  -- `run` with a client that is made: the results, and the exit code
  unfoldable pub collect : Exec Session (List ProbeResult × ℕ)
  unfolding probes no_errors
  collect = do connect env; results ← try_finally probes (disconnect env); pure (report results)

  -- `run`
  unfoldable pub run : String → String → String → Result (List ProbeResult × ℕ) × Session
  unfolding collect new_client
  run host username password = collect (new_client host username password)
