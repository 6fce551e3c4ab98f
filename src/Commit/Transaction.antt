-- ===== src/Commit/Transaction.antt =====
-- What a transaction promises.
use sonicwall_sdk.Prelude.{◌+◌, ◌-◌, ◌<◌, Bool, true, false, ◌≡◌, refl, ap, ◌∙◌, arith}
use sonicwall_sdk.Errors.{Error, Result, ok, err}
use sonicwall_sdk.Exec.{Exec, try_else, ◌>>=◌}
use sonicwall_sdk.Exec.Laws.{>>=-of_ok, >>=-of_err}
use sonicwall_sdk.Transport.{Env, Session}
use sonicwall_sdk.Commit.{aenter, aexit, leave, pending}

-- The session behind `__aenter__`'s first statement.
abbrev pub deeper : Session → Session
deeper s = record s { depth = s.depth + 1 }

-- The session that `__aexit__` works on.
abbrev pub shallower : Session → Session
shallower s = record s { depth = s.depth - 1 }

aenter_nested : (env : Env) (s : Session) → 0 < s.depth → aenter env s ≡ (ok false, deeper s)
unfolding aenter ◌>>=◌
aenter_nested env s h = ground arith

aexit_nested :
    (env : Env) (entered failed : Bool) (t : Session)
    → 1 < t.depth
    → aexit env entered failed t ≡ (ok tt, shallower t)
unfolding aexit ◌>>=◌
aexit_nested env entered failed t h = ground arith

module _ {A : Type 0} (env : Env) where
  leave_nested :
      (entered : Bool) (r : Result A) (t : Session)
      → 1 < t.depth
      → leave env entered r t ≡ (r, shallower t)
  unfolding leave ◌>>=◌
  leave_nested entered (ok a) t h = ground (arith, aexit_nested env entered false t h)
  leave_nested entered (err e) t h = ground (arith, aexit_nested env entered true t h)

  after_body :
      (entered : Bool) (r : Result A) (t : Session)
      → try_else (λ _. (r, t)) (λ e. leave env entered (err e)) (λ a. leave env entered (ok a)) t
        ≡ leave env entered r t
  unfolding try_else
  after_body entered (ok a) t = refl
  after_body entered (err e) t = refl

  -- A context that is entered is left whatever its body does.
  pub pending_of_enter :
      (body : Exec Session A) (s : Session) {entered : Bool}
      → (aenter env s).0 ≡ ok entered
      → pending env body s ≡ (let (r, t) = body (aenter env s).1 in leave env entered r t)
  unfolding pending try_else
  pending_of_enter body s {entered} h =
      >>=-of_ok (aenter env) _ s h
      ∙ after_body entered (body (aenter env s).1).0 (body (aenter env s).1).1

module _ {A : Type 0} (env : Env) (body : Exec Session A) (s : Session) where
  -- Inside another context, a context whose body restores the depth counter is the body alone: it
  -- sends nothing, changes no result, and restores the counter.
  pub pending_nested :
      0 < s.depth
      → (body (deeper s)).1.depth ≡ s.depth + 1
      → pending env body s ≡ ((body (deeper s)).0, record (body (deeper s)).1 { depth = s.depth })
  pending_nested h k =
      let enter = aenter_nested env s h in
      let (r, t) = body (deeper s) in
      pending_of_enter env body s (ap (λ (p : Result Bool × Session). p.0) enter)
      ∙ ap (λ (p : Result Bool × Session). (let (q, u) = body p.1 in leave env false q u)) enter
      ∙ leave_nested env false r t (omega arith)
      ∙ ground arith

  -- A context that cannot be entered never runs its body, and leaves the counter raised.
  pub pending_not_entered :
      {e : Error} → (aenter env s).0 ≡ err e → pending env body s ≡ (err e, (aenter env s).1)
  unfolding pending
  pending_not_entered h = >>=-of_err (aenter env) _ s h
