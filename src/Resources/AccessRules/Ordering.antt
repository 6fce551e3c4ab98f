-- ===== src/Resources/AccessRules/Ordering.antt =====
-- What the lookup and the insertion of access rules promise.
use mathlib.Core.List.{[], ◌∷◌}
use sonicwall_sdk.Prelude.{
  String, true, false, Option, none, some, List, ◌≡◌, ◌⊎◌, inl, inr, ap, arith, Bool-cases,
  if◌then◌else◌,
}
use sonicwall_sdk.Json.Value.{Value}
use sonicwall_sdk.Errors.{Error, Result, ok, err, is_not_found}
use sonicwall_sdk.Exec.{pure, raise, try_except, ◌>>=◌}
use sonicwall_sdk.Exec.Laws.{>>=-of_ok}
use sonicwall_sdk.Transport.{Env, Session}
use sonicwall_sdk.Models.AccessRule.{AccessRule}
use sonicwall_sdk.Resources.AccessRules.{
  is_wanted, find_rule, no_rule, found_or, is_missing, get_single, get_listed, get, list, create,
  insert_before, insert_after,
}

-- `rule` stands in the list, it is wanted, and no rule before it is.
pub data FirstWanted (from_zone to_zone name : String) (rule : AccessRule)
    : List AccessRule → Type 0 where
  here :
      {rules : List AccessRule}
      → is_wanted from_zone to_zone name rule ≡ true
      → FirstWanted from_zone to_zone name rule (rule ∷ rules)
  there :
      {other : AccessRule} {rules : List AccessRule}
      → is_wanted from_zone to_zone name other ≡ false
      → FirstWanted from_zone to_zone name rule rules
      → FirstWanted from_zone to_zone name rule (other ∷ rules)

-- No rule of the list is wanted.
pub data NoneWanted (from_zone to_zone name : String) : List AccessRule → Type 0 where
  nothing : NoneWanted from_zone to_zone name []
  skipped :
      {other : AccessRule} {rules : List AccessRule}
      → is_wanted from_zone to_zone name other ≡ false
      → NoneWanted from_zone to_zone name rules
      → NoneWanted from_zone to_zone name (other ∷ rules)

-- The two things that a search can end with.
data Found (from_zone to_zone name : String) (rules : List AccessRule)
    : Option AccessRule → Type 0 where
  first :
      (rule : AccessRule)
      → FirstWanted from_zone to_zone name rule rules
      → Found from_zone to_zone name rules (some rule)
  absent : NoneWanted from_zone to_zone name rules → Found from_zone to_zone name rules none

module _ {from_zone to_zone name : String} where
  Found-later :
      (other : AccessRule) (rules : List AccessRule) (r : Option AccessRule)
      → is_wanted from_zone to_zone name other ≡ false
      → Found from_zone to_zone name rules r
      → Found from_zone to_zone name (other ∷ rules) r
  Found-later other rules _ n (first rule f) = first rule (there n f)
  Found-later other rules _ n (absent a) = absent (skipped n a)

  find_rule-Found :
      (rules : List AccessRule)
      → Found from_zone to_zone name rules (find_rule from_zone to_zone name rules)
  unfolding find_rule
  find_rule-Found [] = absent nothing
  find_rule-Found (rule ∷ rules) = elim (Bool-cases (is_wanted from_zone to_zone name rule)) [
    | inl y ↦ rw y (first rule (here y))
    | inr n ↦ rw n (Found-later rule rules _ n (find_rule-Found rules))
  ]

module _ (env : Env) (parse : Value → Result AccessRule) (from_zone to_zone name : String)
    (s : Session) where
  fallback :
      (e : Error)
      → (get_single env parse from_zone to_zone name s).0 ≡ err e
      → is_missing e ≡ true
      → get env parse from_zone to_zone name s
        ≡ get_listed env parse from_zone to_zone name
            (get_single env parse from_zone to_zone name s).1
  unfolding get try_except
  fallback e h m = rw h (rw m)

  abbrev Answer : List AccessRule → Type 0
  Answer rules =
      ((rule : AccessRule) × ((get env parse from_zone to_zone name s).0 ≡ ok rule)
        × FirstWanted from_zone to_zone name rule rules)
      ⊎ ((get env parse from_zone to_zone name s).0 ≡ err (no_rule from_zone to_zone name))
        × NoneWanted from_zone to_zone name rules

  Answer-Found :
      (rules : List AccessRule) (r : Option AccessRule) (s' : Session)
      → (get env parse from_zone to_zone name s).0
        ≡ (found_or (no_rule from_zone to_zone name) r s').0
      → Found from_zone to_zone name rules r
      → Answer rules
  unfolding pure raise
  Answer-Found rules _ s' e (first rule f) = inl (rule, e, f)
  Answer-Found rules _ s' e (absent a) = inr (e, a)

  -- Where the lookup of a rule by its path is answered with "not found" and the rules can be
  -- listed, `get` returns the first rule of the list with these zones and this name, and raises a
  -- `NotFoundError` only if no rule of the list has them.
  pub get_missing :
      (e : Error) (rules : List AccessRule)
      → (get_single env parse from_zone to_zone name s).0 ≡ err e
      → is_missing e ≡ true
      → (list env parse (get_single env parse from_zone to_zone name s).1).0 ≡ ok rules
      → Answer rules
  unfolding get_listed
  get_missing e rules h m l =
      Answer-Found rules (find_rule from_zone to_zone name rules)
        (list env parse (get_single env parse from_zone to_zone name s).1).1
        (rw (fallback e h m) (ap (λ x. x.0) (>>=-of_ok (list env parse) _ _ l)))
        (find_rule-Found rules)

module _ (env : Env) (parse : Value → Result AccessRule) (rule : AccessRule) (target_name : String)
    (s : Session) where
  abbrev after_get : Session
  after_get = (get env parse rule.from_zone rule.to_zone target_name s).1

  -- Where the target does not exist, both insertions create the rule as it is; where reading the
  -- target fails in another way, both raise that error and create nothing.
  insert_without_target :
      (e : Error)
      → (get env parse rule.from_zone rule.to_zone target_name s).0 ≡ err e
      → (insert_before env parse rule target_name s
          ≡ (if is_not_found e then create env parse rule after_get else (err e, after_get)))
        × (insert_after env parse rule target_name s
            ≡ (if is_not_found e then create env parse rule after_get else (err e, after_get)))
  unfolding insert_before insert_after ◌>>=◌
  insert_without_target e h = (ground arith, ground arith)
