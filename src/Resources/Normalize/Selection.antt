-- ===== src/Resources/Normalize/Selection.antt =====
-- Which item of a list envelope `normalize_get_from_plural` selects.
use sonicwall_sdk.Prelude.{String, Bool, true, false, some, ◌≡◌, refl, ap}
use sonicwall_sdk.Json.Value.{Value, obj, arr, Items, cons, Fields, lookup, is_dict}
use sonicwall_sdk.Json.Access.{get}
use sonicwall_sdk.Errors.{ok}
use sonicwall_sdk.Resources.Normalize.{first_match, envelope, select, normalize_get_from_plural}

-- A `dict` of the list satisfies the predicate, and no `dict` before it does.
pub data FirstMatch (p : Fields → Bool) : Items → Fields → Type 0 where
  here : {fs : Fields} {items : Items} → p fs ≡ true → FirstMatch p (cons (obj fs) items) fs
  later :
      {fs gs : Fields} {items : Items}
      → p gs ≡ false
      → FirstMatch p items fs
      → FirstMatch p (cons (obj gs) items) fs
  skip :
      {fs : Fields} {v : Value} {items : Items}
      → is_dict v ≡ false
      → FirstMatch p items fs
      → FirstMatch p (cons v items) fs

first_match_skip :
    (p : Fields → Bool) (v : Value) (items : Items)
    → is_dict v ≡ false
    → first_match p (cons v items) ≡ first_match p items
unfolding first_match
first_match_skip p (obj gs) items h = cc
first_match_skip p _ items h = refl

first_match-FirstMatch :
    {p : Fields → Bool} {items : Items} {fs : Fields}
    → FirstMatch p items fs
    → first_match p items ≡ some fs
unfolding first_match
first_match-FirstMatch (here e) = rw e
first_match-FirstMatch (later e m) = rw e (first_match-FirstMatch m)
first_match-FirstMatch {p} (skip {v = v} {items = items} e m) =
    rw (first_match_skip p v items e) (first_match-FirstMatch m)

select-FirstMatch :
    (response : Value) (singular_key : String) (p : Fields → Bool) {items : Items} {fs : Fields}
    → FirstMatch p items fs
    → select response singular_key p (arr items) ≡ envelope singular_key fs
unfolding select
select-FirstMatch response singular_key p (here e) = rw (first_match-FirstMatch (FirstMatch.here e))
select-FirstMatch response singular_key p (later e m) =
    rw (first_match-FirstMatch (FirstMatch.later e m))
select-FirstMatch response singular_key p (skip e m) =
    rw (first_match-FirstMatch (FirstMatch.skip e m))

-- If the list under the plural key holds a `dict` that satisfies the predicate, the first such one
-- is put under the singular key.
pub normalize-FirstMatch :
    (response : Fields) (plural_key singular_key : String) (p : Fields → Bool) {items : Items}
    {fs : Fields}
    → lookup plural_key response ≡ some (arr items)
    → FirstMatch p items fs
    → normalize_get_from_plural (obj response) plural_key singular_key p
      ≡ ok (envelope singular_key fs)
unfolding normalize_get_from_plural get select
normalize-FirstMatch response plural_key singular_key p h m =
    rw h (ap ok (select-FirstMatch (obj response) singular_key p m))
