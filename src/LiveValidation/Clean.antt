-- ===== src/LiveValidation/Clean.antt =====
-- What a result 0 of `run_write_crud` says about its areas.
use Prim.Native.String.{◌++◌}
use sonicwall_sdk.Prelude.{
  ◌==◌, ==_iff, String, Bool, true, false, ◌≡◌, ◌⊎◌, refl, arith, Bool-cases, inl, inr,
}
use sonicwall_sdk.Errors.{Error, Result, ok, err, is_sonicwall_error}
use sonicwall_sdk.Errors.Classes.{Result-cases}
use sonicwall_sdk.Errors
use sonicwall_sdk.Exec.{Exec, raise, lift, try_else, pure}
use sonicwall_sdk.Exec.Laws.{>>=-eq-ok, >>=-of_ok}
use sonicwall_sdk.Transport.{Env, Session}
use sonicwall_sdk.Auth.Manager.{is_authenticated}
use sonicwall_sdk.Client.{new_client, connect, with_client}
use sonicwall_sdk.Client.Lifecycle.{with_client_returned}
use sonicwall_sdk.Firmware.{is_firmware_unsupported_error}
use sonicwall_sdk.LiveValidation.{Validation}
use sonicwall_sdk.LiveValidation.WriteCrud.{
  Tally, count_error, area, areas, service_area, policy_area, rule_area, exit_code, write_crud,
  run_write_crud,
}

-- The action returned, or raised an error that reflects a limitation of the firmware.
abbrev pub Passed : {A : Type 0} → Env → Result A → Type 0
Passed {A} env r =
    ((a : A) × (r ≡ ok a))
    ⊎ ((e : Error) × (r ≡ err e) × (is_firmware_unsupported_error env e ≡ ok true))

counted_failures :
    (t t' : Tally) (r : Result Bool)
    → Errors.◌>>=◌ r (count_error t) ≡ ok t'
    → t'.failures ≡ 0
    → (t.failures ≡ 0) × (r ≡ ok true)
counted_failures t t' (ok true) e z = (grind (arith, e), refl)
counted_failures t t' (ok false) e z = absurd (grind (arith, e))
counted_failures t t' (err x) e z = cc

area_failures :
    {A : Type 0} (env : Env) (m : Exec Session A) (t t' : Tally) (s : Session)
    → (area env m t s).0 ≡ ok t'
    → t'.failures ≡ 0
    → (t.failures ≡ 0) × Passed env (m s).0 × ((area env m t s).1 ≡ (m s).1)
unfolding area try_else lift raise pure
area_failures env m t t' s e z = elim (Result-cases (m s).0) [
  | inl (a, p) ↦ (grind (arith, rw p at e), inl (a, p), rw p refl)
  | inr (x, p) ↦ elim (Bool-cases (is_sonicwall_error x)) [
    | inl y ↦
        let (none, unsupported) =
          counted_failures t t' (is_firmware_unsupported_error env x) (rw y at (rw p at e)) z in
        (none, inr (x, p, unsupported), rw p (rw y refl))
    | inr y ↦ cc (rw y at (rw p at e))
  ]
]

module _ (env : Env) (validation : Validation) (suffix : String) where
  abbrev pub service_run : Session → Result (Unit {0}) × Session
  service_run s = service_area env validation ("sdk-svc-" ++ suffix) s

  abbrev pub policy_run : Session → Result (Unit {0}) × Session
  policy_run s = policy_area env validation ("sdk-nat-" ++ suffix) s

  abbrev pub rule_run : Session → Result (Unit {0}) × Session
  rule_run s = rule_area env validation ("sdk-rule-" ++ suffix) s

  -- The three areas, one after the other.
  abbrev pub AllPassed : Session → Type 0
  AllPassed s =
      Passed env (service_run s).0
      × Passed env (policy_run (service_run s).1).0
      × Passed env (rule_run (policy_run (service_run s).1).1).0

  areas_clean :
      (s : Session) (t : Tally)
      → (areas env validation suffix s).0 ≡ ok t
      → t.failures ≡ 0
      → AllPassed s
  unfolding areas
  areas_clean s t e z =
      let (t1, p1, q1) = >>=-eq-ok _ _ s e in
      let (t2, p2, q2) = >>=-eq-ok _ _ _ q1 in
      let (z2, c, _) = area_failures env _ t2 t _ q2 z in
      let (z1, b, same_b) = area_failures env _ t1 t2 _ p2 z2 in
      let (_, a, same_a) = area_failures env service_run _ t1 s p1 z1 in
      (a, rw same_a at b, rw same_a at (rw same_b at c))

  exit_code_zero : (t : Tally) → exit_code env validation t ≡ 0 → t.failures ≡ 0
  exit_code_zero t h = elim (Bool-cases (t.failures == 0)) [
    | inl y ↦ (==_iff t.failures 0).0 y
    | inr y ↦ absurd (grind (arith, rw y at h))
  ]

  write_crud_clean :
      (s : Session)
      → (write_crud env validation suffix s).0 ≡ ok 0
      → AllPassed (connect env s).1
        × (is_authenticated (write_crud env validation suffix s).1.auth ≡ false)
  unfolding write_crud pure
  write_crud_clean s e =
      let body = areas env validation suffix in
      let (t, p, q) = >>=-eq-ok (with_client env body) _ s e in
      let (given, out) = with_client_returned env body s p in
      (
        areas_clean (connect env s).1 t given (exit_code_zero t (grind (arith, q))),
        rw (>>=-of_ok (with_client env body) (λ t. pure (exit_code env validation t)) s p) out,
      )

  -- A run of `run_write_crud` that returns 0 has run the areas of service objects, NAT policies and
  -- access rules one after the other, and in each the objects were created, updated and deleted in
  -- one context, or the firmware does not support that; it leaves a session that is not
  -- authenticated.
  pub run_write_crud_clean :
      (host username password : String)
      → (run_write_crud env validation suffix host username password).0 ≡ ok 0
      → AllPassed (connect env (new_client host username password)).1
        × (is_authenticated (run_write_crud env validation suffix host username password).1.auth
            ≡ false)
  unfolding run_write_crud
  run_write_crud_clean host username password e =
      write_crud_clean (new_client host username password) e
