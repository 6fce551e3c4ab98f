-- ===== src/Transport/Blind.antt =====
-- Actions that have nothing to do with the depth counter of `CommitContext`.
use sonicwall_sdk.Prelude.{ℕ, Bool, true, false, ◌≡◌, refl, ap, if◌then◌else◌}
use sonicwall_sdk.Errors.{Result, ok, err}
use sonicwall_sdk.Exec.{Exec, pure, lift, gets, ◌>>=◌}
use sonicwall_sdk.Transport.{Session}

-- The session at another depth.
abbrev pub at_depth : ℕ → Session → Session
at_depth d s = record s { depth = d }

-- The action neither reads nor changes the depth counter.
abbrev pub IsBlind : {A : Type 0} → Exec Session A → Type 0
IsBlind {A} m = (s : Session) (d : ℕ) → m (at_depth d s) ≡ ((m s).0, at_depth d (m s).1)

module _ {A : Type 0} where
  pub IsBlind-pure : (a : A) → IsBlind (pure a)
  unfolding pure
  IsBlind-pure a s d = refl

  pub IsBlind-lift : (r : Result A) → IsBlind (lift r)
  unfolding lift
  IsBlind-lift r s d = refl

  pub IsBlind-if :
      (b : Bool) (m n : Exec Session A) → IsBlind m → IsBlind n → IsBlind (if b then m else n)
  IsBlind-if true m n p q = p
  IsBlind-if false m n p q = q

  pub IsBlind-bind :
      {B : Type 0} (m : Exec Session A) (f : A → Exec Session B)
      → IsBlind m
      → ((a : A) → IsBlind (f a))
      → IsBlind (m >>= f)
  unfolding ◌>>=◌
  IsBlind-bind {B} m f p q s d = rw (p s d) (go (m s).0 (m s).1)
    where
      go :
          (r : Result A) (t : Session)
          → ◌>>=◌ {State = Session} (λ _. (r, at_depth d t)) f s ≡ (
            (◌>>=◌ {State = Session} (λ _. (r, t)) f s).0,
            at_depth d (◌>>=◌ {State = Session} (λ _. (r, t)) f s).1,
          )
      go (ok a) t = q a t d
      go (err e) t = refl

  pub IsBlind-bind_gets :
      {B : Type 0} (g : Session → B) (f : B → Exec Session A)
      → ((s : Session) (d : ℕ) → g (at_depth d s) ≡ g s)
      → ((b : B) → IsBlind (f b))
      → IsBlind (gets g >>= f)
  unfolding ◌>>=◌
  IsBlind-bind_gets g f p q s d = rw (p s d) (q (g s) s d)

  -- An action that is blind leaves the counter where it was.
  pub IsBlind-depth : (m : Exec Session A) → IsBlind m → (s : Session) → (m s).1.depth ≡ s.depth
  IsBlind-depth m p s = ap (λ (q : Result A × Session). q.1.depth) (p s s.depth)
