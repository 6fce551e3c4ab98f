-- ===== src/LiveValidation/Logged/Step.antt =====
-- A step of scripts/run_live_validation_logged.py that records no failure.
use Prim.Native.String.{◌++◌}
use mathlib.Core.List.{[], ◌∷◌, ◌++◌ as append}
use sonicwall_sdk.Prelude.{
  String, Bool, true, false, List, if◌then◌else◌, ◌≡◌, refl, arith, Bool-cases, inl, inr,
}
use sonicwall_sdk.Errors.{Error, Result, ok, err, cancelled, is_sonicwall_error, is_exception}
use sonicwall_sdk.Errors.Classes.{Result-cases}
use sonicwall_sdk.Exec.{Exec, pure, raise, lift, try_else, ◌>>=◌}
use sonicwall_sdk.Transport.{Env, Session, Request}
use sonicwall_sdk.Firmware.{is_firmware_unsupported_error}
use sonicwall_sdk.LiveValidation.Clean.{Passed}
use sonicwall_sdk.LiveValidation.Logged.{
  Run, on_session, fail, skip, timed, wait_for, is_timeout, record_error, step,
}

-- A list with an entry at its end is not empty.
append-ne-nil : (l : List String) (x : String) → append l (x ∷ []) ≡ [] → ⊥
append-ne-nil [] x h = cc
append-ne-nil (y ∷ l) x h = cc

module _ (env : Env) where
  sonicwall_clean :
      (name : String) (r : Run) (unsupported : Result Bool)
      → let m = lift unsupported >>= (λ b. if b then skip name else fail name) in
        (m r).0 ≡ ok tt
        → (m r).1.failures ≡ []
        → (r.failures ≡ []) × (unsupported ≡ ok true) × ((m r).1.session ≡ r.session)
  unfolding ◌>>=◌ lift skip fail
  sonicwall_clean name r (ok true) p q = (q, refl, refl)
  sonicwall_clean name r (ok false) p q = absurd (append-ne-nil r.failures name q)
  sonicwall_clean name r (err e) p q = cc

  -- An error after which a run has no failure.
  record_error_clean :
      (name : String) (e : Error) (r : Run)
      → (record_error env name e r).0 ≡ ok tt
      → (record_error env name e r).1.failures ≡ []
      → (r.failures ≡ [])
        × (is_timeout e ≡ false)
        × (is_firmware_unsupported_error env e ≡ ok true)
        × ((record_error env name e r).1.session ≡ r.session)
  unfolding record_error fail raise
  record_error_clean name e r p q = elim (Bool-cases (is_timeout e)) [
    | inl y ↦ absurd (append-ne-nil r.failures (name ++ ":timeout") (rw y at q))
    | inr n ↦ elim (Bool-cases (is_sonicwall_error e)) [
      | inl y ↦
          let unsupported = is_firmware_unsupported_error env e in
          let (z, u, same) =
            sonicwall_clean name r unsupported (rw y at (rw n at p)) (rw y at (rw n at q)) in
          (z, n, u, rw n (rw y same))
      | inr o ↦ elim (Bool-cases (is_exception e)) [
        | inl y ↦ absurd (append-ne-nil r.failures name (rw y at (rw o at (rw n at q))))
        | inr z ↦ cc (rw z at (rw o at (rw n at p)))
      ]
    ]
  ]

module _ {A : Type 0} where
  timed_err :
      (late : Bool) (r : Result A) (e : Error)
      → timed late r ≡ err e
      → is_timeout e ≡ false
      → r ≡ err e
  timed_err true (ok a) e h n = h
  timed_err false (ok a) e h n = h
  timed_err false (err x) e h n = h
  timed_err true (err cancelled) e h n = ground arith
  timed_err true (err _) e h n = h

  pub timed_ok : (late : Bool) (r : Result A) (a : A) → timed late r ≡ ok a → r ≡ ok a
  timed_ok true (ok b) a h = h
  timed_ok false (ok b) a h = h
  timed_ok false (err x) a h = h
  timed_ok true (err cancelled) a h = cc
  timed_ok true (err _) a h = h

module _ (env : Env) (expired : List Request → Bool) {A : Type 0} (name : String)
    (m : Exec Session A) where
  -- A step that adds no failure: its action passed.
  pub step_clean :
      (r : Run)
      → (step env expired name m r).0 ≡ ok tt
      → (step env expired name m r).1.failures ≡ []
      → (r.failures ≡ [])
        × Passed env (m r.session).0
        × ((step env expired name m r).1.session ≡ (m r.session).1)
  unfolding step try_else on_session wait_for pure
  step_clean r p q =
      let (x, s) = m r.session in
      elim (Result-cases (timed (expired s.log) x)) [
        | inl (a, h) ↦ (rw h at q, inl (a, timed_ok (expired s.log) x a h), rw h refl)
        | inr (e, h) ↦
            let (z, n, u, same) =
              record_error_clean env name e (record r { session = s }) (rw h at p) (rw h at q) in
            (z, inr (e, timed_err (expired s.log) x e h n, u), rw h same)
      ]
