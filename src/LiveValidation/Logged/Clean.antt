-- ===== src/LiveValidation/Logged/Clean.antt =====
-- What the exit code 0 of scripts/run_live_validation_logged.py says about the steps.
use mathlib.Core.List.{[]}
use sonicwall_sdk.Prelude.{String, Bool, false, List, ◌≡◌, refl, sym, ◌∙◌, arith}
use sonicwall_sdk.Errors.{Result, ok, err}
use sonicwall_sdk.Exec.{Exec, pure, raise, try_else, ◌>>=◌, ◌>>◌}
use sonicwall_sdk.Exec.Laws.{>>=-eq-ok, >>=-of_ok}
use sonicwall_sdk.Transport.{Env, Session, Request}
use sonicwall_sdk.Client.{connect, disconnect}
use sonicwall_sdk.Auth.Manager.{is_authenticated}
use sonicwall_sdk.Auth.Manager.Lifecycle.{logout_lem}
use sonicwall_sdk.LiveValidation.{Validation}
use sonicwall_sdk.LiveValidation.Smoke.{object_name, write_test}
use sonicwall_sdk.Models.AddressObject.{model}
use sonicwall_sdk.Resources.AddressObjects
use sonicwall_sdk.Resources.AccessRules
use sonicwall_sdk.Resources.Interfaces
use sonicwall_sdk.Resources.NatPolicies
use sonicwall_sdk.Resources.ServiceObjects
use sonicwall_sdk.Resources.Dhcp
use sonicwall_sdk.LiveValidation.Clean.{Passed}
use sonicwall_sdk.LiveValidation.Logged.{Run, on_session, step, steps, leave, connected_steps}
use sonicwall_sdk.LiveValidation.Logged.Step.{step_clean}

-- The action passed, and what follows holds of the session that it left.
abbrev pub Then : {A : Type 0} → Env → Exec Session A → (Session → Type 0) → Session → Type 0
Then env m Q s = Passed env (m s).0 × Q (m s).1

-- A part of a run that adds no failure to those before, which are none.
abbrev IsClean : Exec Run (Unit {0}) → (Session → Type 0) → Type 0
IsClean k Q = (r : Run) → (k r).0 ≡ ok tt → (k r).1.failures ≡ [] → (r.failures ≡ []) × Q r.session

module _ (env : Env) (expired : List Request → Bool) {A : Type 0} (name : String)
    (m : Exec Session A) where
  last-IsClean : IsClean (step env expired name m) (λ s. Passed env (m s).0)
  last-IsClean r p q = let (z, passed, _) = step_clean env expired name m r p q in (z, passed)

  chain-IsClean :
      (k : Exec Run (Unit {0})) (Q : Session → Type 0)
      → IsClean k Q
      → IsClean (step env expired name m >> k) (Then env m Q)
  chain-IsClean k Q h r p q =
      let first = step env expired name m in
      let (_, p1, p2) = >>=-eq-ok first (λ _. k) r p in
      let (z, later) = h (first r).1 p2 (rw (>>=-of_ok first (λ _. k) r p1) at q) in
      let (none, passed, same) = step_clean env expired name m r p1 z in
      (none, (passed, rw same at later))

module _ (env : Env) (validation : Validation) (expired : List Request → Bool) where
  -- What is left of a run in which each action passes, from each action on.
  abbrev Written : Session → Type 0
  Written s = Passed env (write_test env validation s).0

  abbrev Leases : Session → Type 0
  Leases = Then env (Dhcp.list_leases env validation.lease) Written

  abbrev Services : Session → Type 0
  Services = Then env (ServiceObjects.list env validation.service) Leases

  abbrev Policies : Session → Type 0
  Policies = Then env (NatPolicies.list env validation.policy) Services

  abbrev Listed : Session → Type 0
  Listed = Then env (Interfaces.list env validation.interface) Policies

  abbrev Rules : Session → Type 0
  Rules = Then env (AccessRules.list env validation.rule) Listed

  -- The six reads and the write test, one after the other, each passed.
  abbrev pub AllPassed : Session → Type 0
  AllPassed = Then env (AddressObjects.list env (model validation.fields) object_name) Rules

  steps-IsClean : IsClean (steps env validation expired) AllPassed
  unfolding steps
  steps-IsClean = chain-IsClean env expired _ _ _ Rules (
      chain-IsClean env expired _ _ _ Listed (
        chain-IsClean env expired _ _ _ Policies (
          chain-IsClean env expired _ _ _ Services (
            chain-IsClean env expired _ _ _ Leases
              (chain-IsClean env expired _ _ _ Written (last-IsClean env expired _ _))))))

  leave_clean :
      (x : Result (Unit {0})) (t : Run)
      → (leave env x t).0 ≡ ok tt
      → (x ≡ ok tt)
        × ((leave env x t).1.failures ≡ t.failures)
        × (is_authenticated (leave env x t).1.session.auth ≡ false)
  unfolding leave on_session disconnect ◌>>=◌ pure raise
  leave_clean (ok a) t p = ground (arith, (logout_lem env t.session).0)
  leave_clean (err e) t p = ground arith

  left :
      (x : Result (Unit {0})) (t : Run)
      → try_else (λ _. (x, t)) (λ e. leave env (err e)) (λ a. leave env (ok a)) t ≡ leave env x t
  unfolding try_else
  left (ok a) t = refl
  left (err e) t = refl

  -- What `async with client` has done if it returned and no step failed.
  pub connected_clean :
      (r : Run)
      → (connected_steps env validation expired r).0 ≡ ok tt
      → (connected_steps env validation expired r).1.failures ≡ []
      → (r.failures ≡ [])
        × ((connect env r.session).0 ≡ ok tt)
        × AllPassed (connect env r.session).1
        × (is_authenticated (connected_steps env validation expired r).1.session.auth ≡ false)
  unfolding connected_steps on_session try_else
  connected_clean r p q =
      let (_, a, b) = >>=-eq-ok (on_session (connect env)) _ r p in
      let body = steps env validation expired in
      let inside = record r { session = (connect env r.session).1 } in
      let whole : connected_steps env validation expired r
          ≡ leave env (body inside).0 (body inside).1 =
        >>=-of_ok (on_session (connect env)) _ r a ∙ left (body inside).0 (body inside).1 in
      let (given, kept, out) = leave_clean (body inside).0 (body inside).1 (rw whole at p) in
      let (none, all) = steps-IsClean inside given (sym kept ∙ rw whole at q) in
      (none, a, all, rw whole out)
