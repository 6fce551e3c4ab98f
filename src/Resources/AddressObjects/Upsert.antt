-- ===== src/Resources/AddressObjects/Upsert.antt =====
-- What `create`, `update` and `ensure` promise.
use sonicwall_sdk.Prelude.{String, Bool, true, false, ◌≡◌, ◌⊎◌, inl, inr, refl, arith, Bool-cases}
use sonicwall_sdk.Json.Value.{Value}
use sonicwall_sdk.Errors.{Error, Result, ok, err, cancelled, is_not_found, is_exception}
use sonicwall_sdk.Errors.Classes.{Result-cases}
use sonicwall_sdk.Exec.{Exec, pure, raise, try_except, ◌>>=◌}
use sonicwall_sdk.Exec.Laws.{>>=-of_ok}
use sonicwall_sdk.Transport.{Env, Session}
use sonicwall_sdk.Resources.Base.{Model, except_any}
use sonicwall_sdk.Resources.AddressObjects.{get, post, create, refresh, create_missing, ensure}

-- `except Exception: return obj` leaves no exception but a cancellation.
fallback_cases :
    {T : Type 0} (m : Exec Session T) (object : T) (s : Session)
    → ((t : T) × ((try_except m (except_any (pure object)) s).0 ≡ ok t))
      ⊎ ((try_except m (except_any (pure object)) s).0 ≡ err cancelled)
unfolding try_except pure raise
fallback_cases m object s = elim (Result-cases (m s).0) [
  | inl (t, e) ↦ inl (t, rw e)
  | inr (x, e) ↦ elim (Bool-cases (is_exception x)) [
    | inl y ↦ inl (object, ground arith)
    | inr n ↦ inr (ground arith)
  ]
]

module _ {T : Type 0} (env : Env) (model : Model T) (name_of : T → String) (object : T)
    (s : Session) where
  refresh-false :
      (t : T) (b : Bool) → (refresh env model name_of object s).0 ≡ ok (t, b) → b ≡ false
  unfolding refresh ◌>>=◌
  refresh-false t b h = ground arith

  ensure_cases :
      (t : T) (b : Bool) (r : Result (T × Bool))
      → (refresh env model name_of object s).0 ≡ r
      → (ensure env model name_of object s).0 ≡ ok (t, b)
      → (b ≡ false) × ((refresh env model name_of object s).0 ≡ ok (t, false))
        ⊎ (b ≡ true)
          × ((create env model name_of object (refresh env model name_of object s).1).0 ≡ ok t)
  unfolding ensure create_missing ◌>>=◌
  ensure_cases t b (ok (u, c)) e h = ground (arith, refresh-false u c e)
  ensure_cases t b (err x) e h = ground arith

  -- Once the POST of `create` has succeeded, `create` does not fail: it returns an object, unless it
  -- is cancelled while it reads the object back.
  create_posted :
      (v : Value)
      → (post env model name_of object s).0 ≡ ok v
      → ((t : T) × ((create env model name_of object s).0 ≡ ok t))
        ⊎ ((create env model name_of object s).0 ≡ err cancelled)
  unfolding create
  create_posted v h =
      rw
        (>>=-of_ok (post env model name_of object)
          (λ _. try_except (get env model name_of (name_of object)) (except_any (pure object))) s h)
        (fallback_cases (get env model name_of (name_of object)) object
          (post env model name_of object s).1)

  -- `ensure` raises an error of its lookup that is not "not found", and does nothing after it.
  ensure_error :
      (e : Error)
      → (get env model name_of (name_of object) s).0 ≡ err e
      → is_not_found e ≡ false
      → ensure env model name_of object s ≡ (err e, (get env model name_of (name_of object) s).1)
  unfolding ensure create_missing refresh ◌>>=◌
  ensure_error e h n = ground arith

  -- Where `ensure` returns an object and a flag, the flag tells what was done: `false` after a
  -- lookup and an update that returned the object, `true` after a `create` that returned it.
  pub ensure_ok :
      (t : T) (b : Bool)
      → (ensure env model name_of object s).0 ≡ ok (t, b)
      → (b ≡ false) × ((refresh env model name_of object s).0 ≡ ok (t, false))
        ⊎ (b ≡ true)
          × ((create env model name_of object (refresh env model name_of object s).1).0 ≡ ok t)
  ensure_ok t b h = ensure_cases t b (refresh env model name_of object s).0 refl h
