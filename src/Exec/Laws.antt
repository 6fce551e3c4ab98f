-- ===== src/Exec/Laws.antt =====
-- Inversion of actions that return.
use sonicwall_sdk.Prelude.{◌≡◌, refl}
use sonicwall_sdk.Errors.{Error, Result, ok, err}
use sonicwall_sdk.Exec.{Exec, ◌>>=◌, continue, try_else}

module _ {ℓ} {S A B : Type ℓ} where
  continue-eq-ok :
      (r : Result A) (f : A → Exec S B) (t : S) {b : B}
      → (continue r f t).0 ≡ ok b
      → (a : A) × (r ≡ ok a) × ((f a t).0 ≡ ok b)
  continue-eq-ok (ok a) f t h = (a, refl, h)
  continue-eq-ok (err e) f t h = cc

  -- A sequence that returns has returned at each step.
  pub >>=-eq-ok :
      (m : Exec S A) (f : A → Exec S B) (s : S) {b : B}
      → ((m >>= f) s).0 ≡ ok b
      → (a : A) × ((m s).0 ≡ ok a) × ((f a (m s).1).0 ≡ ok b)
  unfolding ◌>>=◌
  >>=-eq-ok m f s h = let (r, t) = m s in continue-eq-ok r f t h

  -- The state that a sequence leaves, if its first step returns.
  pub >>=-of_ok :
      (m : Exec S A) (f : A → Exec S B) (s : S) {a : A} → (m s).0 ≡ ok a → (m >>= f) s ≡ f a (m s).1
  unfolding ◌>>=◌
  >>=-of_ok m f s h = rw h

  -- A first step that raises is all.
  pub >>=-of_err :
      (m : Exec S A) (f : A → Exec S B) (s : S) {e : Error}
      → (m s).0 ≡ err e
      → (m >>= f) s ≡ (err e, (m s).1)
  unfolding ◌>>=◌
  >>=-of_err m f s h = rw h

  -- A guarded action that returns goes on outside the handler, and one that raises in it.
  pub try_else-of_ok :
      (m : Exec S A) (h : Error → Exec S B) (f : A → Exec S B) (s : S) {a : A}
      → (m s).0 ≡ ok a
      → try_else m h f s ≡ f a (m s).1
  unfolding try_else
  try_else-of_ok m h f s p = rw p

  pub try_else-of_err :
      (m : Exec S A) (h : Error → Exec S B) (f : A → Exec S B) (s : S) {e : Error}
      → (m s).0 ≡ err e
      → try_else m h f s ≡ h e (m s).1
  unfolding try_else
  try_else-of_err m h f s p = rw p
