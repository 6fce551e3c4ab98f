-- ===== src/Auth/Token.antt =====
-- What _auth.py reads in the body of a response.
use mathlib.Core.List.{[], ◌∷◌}
use sonicwall_sdk.Prelude.{String, Bool, true, false, Option, none, some, List, if◌then◌else◌}
use sonicwall_sdk.Json.Value.{Value, null, str, arr, nil, dict, truthy, equals_nat}
use sonicwall_sdk.Json.Access.{get, iterate}
use sonicwall_sdk.Errors.{Result, ok, err, transport, ◌>>=◌}
use sonicwall_sdk.Transport.{Env, Response}

-- `response.json()`, where what it raises plays no part.
abbrev pub parsed : Response → Result Value
parsed r = elim r.payload [ none ↦ err (transport "") | some v ↦ ok v ]

-- `body.get("status", {}).get("info", [])`, as an iteration
unfoldable pub info_items : Value → Result (List Value)
unfolding get iterate
info_items body = do
  status ← get body "status" (dict [])
  info ← get status "info" (arr nil)
  iterate info

-- Python's `str(v)`
abbrev pub to_str : Env → Value → String
to_str env (str s) = s
to_str env v = env.show v

find_token : Env → List Value → Result (Option String)
unfolding get truthy
find_token env [] = ok none
find_token env (item ∷ items) =
    let rest = find_token env items in
    do
      token ← get item "bearer_token" null
      if truthy token then ok (some (to_str env token)) else rest

-- `except Exception: pass` and the `return` behind it
abbrev or_none : Result (Option String) → Option String
or_none (ok t) = t
or_none (err _) = none

abbrev or_false : Result Bool → Bool
or_false (ok b) = b
or_false (err _) = false

-- `_extract_bearer_token`
unfoldable pub extract_bearer_token : Env → Response → Option String
unfolding find_token info_items
extract_bearer_token env r =
    or_none (do body ← parsed r; items ← info_items body; find_token env items)

find_code : List Value → Result Bool
unfolding get equals_nat
find_code [] = ok false
find_code (item ∷ items) =
    let rest = find_code items in
    do code ← get item "code" null; if equals_nat code 1085 then ok true else rest

-- `_is_session_expired`
unfoldable pub is_session_expired : Response → Bool
unfolding find_code info_items
is_session_expired r = or_false (do body ← parsed r; items ← info_items body; find_code items)
