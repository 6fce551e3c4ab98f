-- ===== src/Exec.antt =====
-- Methods that send requests, mutate objects and may raise: state passing with a result beside the
-- state, so that what was done before a raise stays done.
pub mod Laws
use sonicwall_sdk.Prelude.{Bool, if◌then◌else◌}
use sonicwall_sdk.Errors.{Error, Result, ok, err, is_exception}

abbrev pub Exec {ℓ} : Type ℓ → Type ℓ → Type ℓ
Exec State A = State → Result A × State

module _ {ℓ} {State A : Type ℓ} where
  unfoldable pub pure : A → Exec State A
  pure a s = (ok a, s)

  unfoldable pub raise : Error → Exec State A
  raise e s = (err e, s)

  unfoldable pub lift : Result A → Exec State A
  lift r s = (r, s)

  unfoldable pub gets : (State → A) → Exec State A
  gets read s = (ok (read s), s)

  abbrev handle_by : (Error → Exec State A) → Result A → Exec State A
  handle_by h (ok a) s = (ok a, s)
  handle_by h (err e) s = h e s

  -- `try: m` with a handler that sees every exception and raises again those that it lets pass
  unfoldable pub try_except : Exec State A → (Error → Exec State A) → Exec State A
  try_except m h s = let (r, s') = m s in handle_by h r s'

  -- `try: m` / `finally: cleanup`
  unfoldable pub try_finally : Exec State A → Exec State (Unit {ℓ}) → Exec State A
  try_finally m cleanup s = let (r, s') = m s in let (c, s'') = cleanup s' in keep r c s''
    where
      keep : Result A → Result (Unit {ℓ}) → Exec State A
      keep r (ok _) t = (r, t)
      keep r (err e) t = (err e, t)

-- `except Exception as exc: h exc`
abbrev pub except_exception {ℓ} : {State A : Type ℓ} → (Error → Exec State A) → Error → Exec State A
except_exception h e = if is_exception e then h e else raise e

module _ {ℓ} {State A B : Type ℓ} where
  abbrev continue : Result A → (A → Exec State B) → Exec State B
  continue (err e) next s = (err e, s)
  continue (ok a) next s = next a s

  infixl 5 ◌>>=◌ ◌>>◌
  -- Opening this opens the other actions too.
  unfoldable pub ◌>>=◌ : Exec State A → (A → Exec State B) → Exec State B
  unfolding try_except try_finally gets lift raise pure
  ◌>>=◌ m next s = let (r, after) = m s in continue r next after

  abbrev pub ◌>>◌ : Exec State A → Exec State B → Exec State B
  first >> second = first >>= λ _. second

  abbrev settle : Result A → (Error → Exec State B) → (A → Exec State B) → Exec State B
  settle (ok a) h next s = next a s
  settle (err e) h next s = h e s

  -- `try: m` / `except: h` / `else: f`, where `f` runs outside the handler
  unfoldable pub try_else :
      Exec State A → (Error → Exec State B) → (A → Exec State B) → Exec State B
  try_else m h next s = let (r, s') = m s in settle r h next s'
