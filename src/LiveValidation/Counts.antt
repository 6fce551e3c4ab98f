-- ===== src/LiveValidation/Counts.antt =====
-- What the checks of _live_validation.py count, by what each of them returned or raised.
use sonicwall_sdk.Prelude.{
  ℕ, ◌+◌, Bool, true, false, ◌≡◌, refl, arith, Bool-cases, inl, inr, if◌then◌else◌,
}
use sonicwall_sdk.Errors.{Error, Result, ok, err, is_not_found, is_sonicwall_error}
use sonicwall_sdk.Errors.Classes.{Result-cases}
use sonicwall_sdk.Errors
use sonicwall_sdk.Exec.{Exec, raise, lift, try_else, pure, ◌>>=◌}
use sonicwall_sdk.Exec.Laws.{>>=-eq-ok}
use sonicwall_sdk.Transport.{Env, Session}
use sonicwall_sdk.Firmware.{is_firmware_unsupported_error}
use sonicwall_sdk.Models.AddressObject.{model}
use sonicwall_sdk.Resources.AddressObjects
use sonicwall_sdk.Resources.AccessRules
use sonicwall_sdk.Resources.Interfaces
use sonicwall_sdk.Resources.NatPolicies
use sonicwall_sdk.Resources.ServiceObjects
use sonicwall_sdk.Resources.Dhcp
use sonicwall_sdk.LiveValidation.{Validation}
use sonicwall_sdk.LiveValidation.Smoke.{
  check, fails, fails_if_supported, fails_if_found, checks, one_unless, object_name, write_test,
}

abbrev pub one_if_not : Bool → ℕ
one_if_not b = if b then 0 else 1

-- A check fails if it raises what is not excused.
abbrev pub failures_of : {A : Type 0} → (Error → Bool) → Result A → ℕ
failures_of excused (ok a) = 0
failures_of excused (err e) = one_if_not (excused e)

abbrev pub never : Error → Bool
never e = false

abbrev is_yes : Result Bool → Bool
is_yes (ok b) = b
is_yes (err e) = false

-- The firmware does not support what was asked for.
abbrev pub unsupported : Env → Error → Bool
unsupported env e = is_yes (is_firmware_unsupported_error env e)

abbrev pub absent_or_unsupported : Env → Error → Bool
absent_or_unsupported env e = if is_not_found e then true else unsupported env e

-- The failures of an action, and of what follows in the session that it left.
abbrev pub Counted : Type 0
Counted = Session → ℕ

abbrev pub behind : {A : Type 0} → Exec Session A → (Error → Bool) → Counted → Counted
behind m excused rest s = failures_of excused (m s).0 + rest (m s).1

-- An error adds to the count exactly if it is not excused.
abbrev Weighs : (Error → Result ℕ) → (Error → Bool) → Type 0
Weighs weigh excused = (e : Error) (n : ℕ) → weigh e ≡ ok n → n ≡ one_if_not (excused e)

fails-Weighs : Weighs fails never
fails-Weighs e n h = grind arith

one_unless-Weighs :
    (r : Result Bool) {n : ℕ} → Errors.◌>>=◌ r one_unless ≡ ok n → n ≡ one_if_not (is_yes r)
one_unless-Weighs (ok true) h = grind arith
one_unless-Weighs (ok false) h = grind arith
one_unless-Weighs (err e) h = cc

fails_if_supported-Weighs : (env : Env) → Weighs (fails_if_supported env) (unsupported env)
unfolding fails_if_supported
fails_if_supported-Weighs env e n h = one_unless-Weighs (is_firmware_unsupported_error env e) h

fails_if_found-Weighs : (env : Env) → Weighs (fails_if_found env) (absent_or_unsupported env)
unfolding fails_if_found
fails_if_found-Weighs env e n h = elim (Bool-cases (is_not_found e)) [
  | inl y ↦ rw y (grind (arith, rw y at h))
  | inr y ↦ rw y (fails_if_supported-Weighs env e n (rw y at h))
]

weighed :
    (r : Result ℕ) (n k a : ℕ)
    → ((i : ℕ) → r ≡ ok i → i ≡ k)
    → Errors.◌>>=◌ r (λ i. ok (n + i)) ≡ ok a
    → a ≡ n + k
weighed (ok i) n k a h e = grind (arith, h i refl)
weighed (err x) n k a h e = cc

module _ {A : Type 0} (m : Exec Session A) (weigh : Error → Result ℕ) (excused : Error → Bool)
    (weighs : Weighs weigh excused) where
  check_counts :
      (n : ℕ) (s : Session) (a : ℕ)
      → (check m weigh n s).0 ≡ ok a
      → (a ≡ n + failures_of excused (m s).0) × ((check m weigh n s).1 ≡ (m s).1)
  unfolding check try_else lift raise pure
  check_counts n s a e = elim (Result-cases (m s).0) [
    | inl (x, p) ↦ rw p (grind (arith, rw p at e), refl)
    | inr (x, p) ↦ elim (Bool-cases (is_sonicwall_error x)) [
      | inl y ↦ rw (p, y) (weighed (weigh x) n _ a (weighs x) (rw y at (rw p at e)), refl)
      | inr y ↦ cc (rw y at (rw p at e))
    ]
  ]

  last_counts :
      (n : ℕ) (s : Session) (a : ℕ)
      → (check m weigh n s).0 ≡ ok a
      → a ≡ n + behind m excused (λ t. 0) s
  last_counts n s a e = omega (arith, (check_counts n s a e).0)

  chain_counts :
      (f : ℕ → Exec Session ℕ) (rest : Counted)
      → ((k : ℕ) (t : Session) (a : ℕ) → (f k t).0 ≡ ok a → a ≡ k + rest t)
      → (n : ℕ) (s : Session) (a : ℕ) → ((check m weigh n >>= f) s).0 ≡ ok a
      → a ≡ n + behind m excused rest s
  chain_counts f rest h n s a e =
      let (k, p, q) = >>=-eq-ok (check m weigh n) f s e in
      let (one, same) = check_counts n s k p in omega (arith, one, rw same at (h k _ a q))

module _ (env : Env) (validation : Validation) where
  -- The failures of the seven checks, each in the session that the one before left.
  abbrev written : Counted
  written = behind (write_test env validation) (unsupported env) (λ t. 0)

  abbrev leases : Counted
  leases = behind (Dhcp.list_leases env validation.lease) (absent_or_unsupported env) written

  abbrev services : Counted
  services = behind (ServiceObjects.list env validation.service) never leases

  abbrev policies : Counted
  policies = behind (NatPolicies.list env validation.policy) never services

  abbrev listed : Counted
  listed = behind (Interfaces.list env validation.interface) (unsupported env) policies

  abbrev rules : Counted
  rules = behind (AccessRules.list env validation.rule) never listed

  abbrev pub failed_checks : Counted
  failed_checks = behind (AddressObjects.list env (model validation.fields) object_name) never rules

  pub checks_count :
      (s : Session) (n : ℕ) → (checks env validation s).0 ≡ ok n → n ≡ failed_checks s
  unfolding checks
  checks_count s n e = omega (
    arith,
    chain_counts _ fails never fails-Weighs _ rules
        (chain_counts _ fails never fails-Weighs _ listed (
          chain_counts _ (fails_if_supported env) (unsupported env) (fails_if_supported-Weighs env)
            _ policies
            (chain_counts _ fails never fails-Weighs _ services (
              chain_counts _ fails never fails-Weighs _ leases (
                chain_counts _ (fails_if_found env) (absent_or_unsupported env)
                  (fails_if_found-Weighs env) _ written
                  (last_counts _ (fails_if_supported env) (unsupported env)
                    (fails_if_supported-Weighs env)))))))
        0 s n e,
  )
