-- ===== src/Resources/Dhcp/Leases.antt =====
-- What `list_leases` promises.
use mathlib.Core.List.{[], ◌∷◌}
use sonicwall_sdk.Prelude.{
  String, Bool, true, false, ◌&&◌, Option, none, some, List, ◌≡◌, inl, inr, refl, arith, Bool-cases,
}
use sonicwall_sdk.Json.Value.{Value, Items}
use sonicwall_sdk.Json.Access.{get}
use sonicwall_sdk.Errors.{Error, Result, ok, err, is_not_found, ◌>>=◌}
use sonicwall_sdk.Errors.Classes.{Result-cases}
use sonicwall_sdk.Exec.{raise, lift, try_else}
use sonicwall_sdk.Transport.{Env, Session}
use sonicwall_sdk.Models.Dhcp.{DhcpLease}
use sonicwall_sdk.Resources.Base.{get_path}
use sonicwall_sdk.Resources.Dhcp.{
  candidate_paths, candidate_keys, find_items, success_of, leases_of, without_items, leases_or_none,
  try_paths, list_leases,
}

abbrev pub missing : {A : Type 0} → Result A → Bool
missing (ok _) = false
missing (err e) = is_not_found e

-- Each path in turn is answered with a `NotFoundError`.
pub all_missing : Env → List String → Session → Bool
all_missing env [] s = true
all_missing env (path ∷ paths) s =
    let (r, t) = get_path env path s in missing r && all_missing env paths t

-- The paths before the first that is answered otherwise, and what that one is answered.
data FirstAnswer (env : Env) (body : Value) : List String → Session → Type 0 where
  here :
      {path : String} {paths : List String} {s : Session}
      → (get_path env path s).0 ≡ ok body
      → FirstAnswer env body (path ∷ paths) s
  later :
      {path : String} {paths : List String} {s : Session}
      → missing (get_path env path s).0 ≡ true
      → FirstAnswer env body paths (get_path env path s).1
      → FirstAnswer env body (path ∷ paths) s

get-missing : (v : Value) (k : String) (d : Value) → missing (get v k d) ≡ false
unfolding get
get-missing v k d = ground arith

find_items-missing : (body : Value) (keys : List String) → missing (find_items body keys) ≡ false
unfolding find_items get
find_items-missing body [] = refl
find_items-missing body (key ∷ keys) = ground (arith, find_items-missing body keys)

bind-missing :
    {A B : Type 0} (m : Result A) (f : A → Result B)
    → missing m ≡ false
    → ((a : A) → missing (f a) ≡ false)
    → missing (m >>= f) ≡ false
bind-missing (ok a) f h k = k a
bind-missing (err e) f h k = h

without_items-missing : (body : Value) (o : Option Items) → missing (without_items body o) ≡ false
unfolding success_of
without_items-missing body (some items) = refl
without_items-missing body none =
    bind-missing (success_of body) (λ _. ok none)
      (bind-missing (get body "status" _) _ (get-missing body "status" _)
        (λ v. get-missing v "success" _))
      (λ _. refl)

leases_or_none-missing :
    (validate : Value → Result DhcpLease) (o : Option Items)
    → missing (leases_or_none validate o) ≡ false
leases_or_none-missing validate none = refl
leases_or_none-missing validate (some items) = refl

leases_of-missing :
    (validate : Value → Result DhcpLease) (body : Value) → missing (leases_of validate body) ≡ false
unfolding leases_of
leases_of-missing validate body =
    bind-missing (find_items body candidate_keys) _ (find_items-missing body candidate_keys) (λ o.
      bind-missing (without_items body o) _ (without_items-missing body o)
        (λ found. leases_or_none-missing validate found))

-- A loop with nothing left raises a `NotFoundError` if that was the last exception.
abbrev ends_missing : Option Error → List String → Bool
ends_missing last (path ∷ paths) = true
ends_missing none [] = false
ends_missing (some e) [] = is_not_found e

ends_missing_lem :
    (e : Error) (paths : List String) → is_not_found e ≡ true → ends_missing (some e) paths ≡ true
ends_missing_lem e [] h = h
ends_missing_lem e (path ∷ paths) h = refl

module _ (env : Env) (validate : Value → Result DhcpLease) where
  try_paths-missing :
      (last : Option Error) (paths : List String) (s : Session)
      → ends_missing last paths ≡ true
      → missing (try_paths env validate last paths s).0 ≡ all_missing env paths s
  unfolding try_paths all_missing try_else lift raise
  try_paths-missing none [] s h = cc
  try_paths-missing (some e) [] s h = h
  try_paths-missing last (path ∷ paths) s h = elim (Result-cases (get_path env path s).0) [
    | inl (body, p) ↦ rw p (leases_of-missing validate body)
    | inr (x, p) ↦ elim (Bool-cases (is_not_found x)) [
      | inl y ↦ rw p (
          rw y
            (try_paths-missing (some x) paths (get_path env path s).1 (ends_missing_lem x paths y)))
      | inr n ↦ ground arith
    ]
  ]

  -- `list_leases` raises a `NotFoundError` exactly if each of its four paths, asked in turn, is
  -- answered with one.
  pub list_leases-missing :
      (s : Session) → missing (list_leases env validate s).0 ≡ all_missing env candidate_paths s
  unfolding list_leases
  list_leases-missing s = try_paths-missing none candidate_paths s refl

  answer_later :
      (last : Option Error) (paths : List String) (s : Session) {body : Value}
      → FirstAnswer env body paths s
      → (try_paths env validate last paths s).0 ≡ leases_of validate body
  unfolding try_paths try_else lift
  answer_later last [] s f = elim f [ ]
  answer_later last (path ∷ paths) s (here p) = rw p
  answer_later last (path ∷ paths) s {body} (later m f) =
      elim (Result-cases (get_path env path s).0) [
        | inl (_, p) ↦ cc (rw p at m)
        | inr (x, p) ↦ rw p (rw (rw p at m) (answer_later (some x) paths (get_path env path s).1 f))
      ]

  -- Where the paths before one are answered with "not found", and that one with a body, the result
  -- is what the body says: the leases under the first key that holds a list, without the items
  -- that cannot be parsed, and no leases where no key does.
  list_leases_first :
      (s : Session) (body : Value)
      → FirstAnswer env body candidate_paths s
      → (list_leases env validate s).0 ≡ leases_of validate body
  unfolding list_leases
  list_leases_first s body f = answer_later none candidate_paths s f
