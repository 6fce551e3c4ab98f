-- ===== src/Resources/Normalize.antt =====
-- resources/_normalize.py
pub mod Selection
use mathlib.Core.List.{[], ◌∷◌}
use sonicwall_sdk.Prelude.{String, Bool, true, false, Option, none, some, ◌&&◌, if◌then◌else◌}
use sonicwall_sdk.Json.Value.{Value, null, arr, obj, Items, nil, cons, Fields, dict, lookup}
use sonicwall_sdk.Json.Access.{get}
use sonicwall_sdk.Errors.{Result, ok, err, ◌>>=◌}

-- The loop over the items: the first `dict` that satisfies the predicate.
unfoldable pub first_match : (Fields → Bool) → Items → Option Fields
first_match p nil = none
first_match p (cons (obj fs) items) =
    let rest = first_match p items in if p fs then some fs else rest
first_match p (cons _ items) = first_match p items

abbrev first_dict : Items → Option Fields
first_dict (cons (obj fs) _) = some fs
first_dict _ = none

-- `{singular_key: …}` for a selected item
unfoldable pub envelope : String → Fields → Value
unfolding lookup
envelope singular_key selected = elim (lookup singular_key selected) [
  | some (obj inner) ↦ dict ((singular_key, obj inner) ∷ [])
  | _ ↦ dict ((singular_key, obj selected) ∷ [])
]

abbrev or_response : Value → String → Option Fields → Value
or_response response singular_key none = response
or_response response singular_key (some selected) = envelope singular_key selected

abbrev or_first : Option Fields → Option Fields → Option Fields
or_first none first = first
or_first (some fs) _ = some fs

-- The function behind `items = response.get(plural_key)`.
unfoldable pub select : Value → String → (Fields → Bool) → Value → Value
unfolding first_match envelope
select response singular_key p (arr (cons item items)) =
    or_response response singular_key
      (or_first (first_match p (cons item items)) (first_dict (cons item items)))
select response singular_key p _ = response

-- `normalize_get_from_plural`; every caller gives a predicate
unfoldable pub normalize_get_from_plural : Value → String → String → (Fields → Bool) → Result Value
normalize_get_from_plural response plural_key singular_key p = do
  items ← get response plural_key null
  ok (select response singular_key p items)

abbrev as_dict : Option Value → Option Fields
as_dict (some (obj fs)) = some fs
as_dict _ = none

-- `inner`, or its `ipv4` if that is a `dict`
abbrev ipv4_or : Fields → Option Fields → Option Fields
ipv4_or inner none = some inner
ipv4_or inner (some ipv4) = some ipv4

-- `unwrap_ipv4`
unfoldable pub unwrap_ipv4 : Fields → String → Option Fields
unfolding lookup
unwrap_ipv4 item wrapped_key = elim (as_dict (lookup wrapped_key item)) [
  | some inner ↦ ipv4_or inner (as_dict (lookup "ipv4" inner))
  | none ↦ as_dict (lookup "ipv4" item)
]
