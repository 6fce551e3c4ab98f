-- ===== src/Commit/Outermost.antt =====
-- The outermost context of a transaction: who commits, who rolls back, and the depth counter.
use Prim.Native.String
use mathlib.Core.List.{[], ◌∷◌}
use sonicwall_sdk.Prelude.{
  ◌+◌, String, Bool, true, false, List, ◌≡◌, ◌⊎◌, inl, inr, refl, ap, ◌∙◌, arith, if◌then◌else◌,
}
use sonicwall_sdk.Errors.{Error, Result, ok, err, cancelled, commit_error, error_text, is_exception}
use sonicwall_sdk.Errors.Classes.{Result-cases}
use sonicwall_sdk.Exec.{Exec, raise, try_except, try_else, except_exception, ◌>>=◌}
use sonicwall_sdk.Exec.Laws.{>>=-eq-ok}
use sonicwall_sdk.Transport.{Env, Session}
use sonicwall_sdk.Transport.Frame.{site, Sent}
use sonicwall_sdk.Commit.{
  try_request, try_paths, enter_config_mode, aenter, aexit, on_clean, on_exception, leave, pending,
  commit_pending, discard_pending, exit_config_mode_if_needed, config_mode_paths,
}
use sonicwall_sdk.Commit.Requests.{HasMethod, Does-on_exception, Does-on_clean, Does-enter}
use sonicwall_sdk.Commit.Transaction.{deeper, shallower, pending_of_enter, pending_not_entered}

-- The action raises nothing but a cancellation.
abbrev OnlyCancelled : {A : Type 0} → Exec Session A → Type 0
OnlyCancelled m = (s : Session) (e : Error) → (m s).0 ≡ err e → e ≡ cancelled

module _ (env : Env) where
  try_request-OnlyCancelled : (method path : String) → OnlyCancelled (try_request env method path)
  unfolding try_request ◌>>=◌
  try_request-OnlyCancelled method path s e h = ground arith

  try_paths-OnlyCancelled :
      (method : String) (paths : List String) → OnlyCancelled (try_paths env method paths)
  unfolding try_paths ◌>>=◌
  try_paths-OnlyCancelled method [] s e h = ground arith
  try_paths-OnlyCancelled method (path ∷ paths) s e h = ground (
    arith,
    try_request-OnlyCancelled method path s e,
    try_paths-OnlyCancelled method paths (try_request env method path s).1 e,
  )

  exit-OnlyCancelled : (entered : Bool) → OnlyCancelled (exit_config_mode_if_needed env entered)
  unfolding exit_config_mode_if_needed ◌>>=◌
  exit-OnlyCancelled entered s e h =
      ground (arith, try_paths-OnlyCancelled "DELETE" config_mode_paths s e)

  on_exception-OnlyCancelled : (entered : Bool) → OnlyCancelled (on_exception env entered)
  unfolding on_exception try_else ◌>>=◌
  on_exception-OnlyCancelled entered s e h =
      let t = (discard_pending env s).1 in ground (arith, exit-OnlyCancelled entered t e)

  -- Entering a context raises nothing but a cancellation.
  pub aenter-OnlyCancelled : OnlyCancelled (aenter env)
  unfolding aenter enter_config_mode ◌>>=◌
  aenter-OnlyCancelled s e h =
      ground (arith, try_paths-OnlyCancelled "POST" config_mode_paths (deeper s) e)

  -- Entering a context raises the counter by one, also where it raises.
  pub depth-aenter : (s : Session) → (aenter env s).1.depth ≡ s.depth + 1
  unfolding aenter ◌>>=◌
  depth-aenter s = ground (arith, (Does-enter {x = site s} env).at (deeper s) refl)

  on_outermost : (entered failed : Bool) → Exec Session (Unit {0})
  on_outermost entered failed = if failed then on_exception env entered else on_clean env entered

  aexit_outermost :
      (entered failed : Bool) (t : Session)
      → t.depth ≡ 1
      → aexit env entered failed t ≡ on_outermost entered failed (shallower t)
  unfolding aexit on_outermost ◌>>=◌
  aexit_outermost entered failed t h = ground arith

  committed :
      (t : Session)
      → (try_except
          (commit_pending env)
          (except_exception λ e.
            raise (
              commit_error (String.◌++◌ "Failed to commit pending configuration: " (error_text e))))
          t).0
        ≡ ok tt
      → (commit_pending env t).0 ≡ ok tt
  unfolding try_except raise
  committed t h = elim (Result-cases (commit_pending env t).0) [
    | inl (_, p) ↦ p
    | inr (c, p) ↦ ground arith
  ]

  on_clean_ok :
      (entered : Bool) (t : Session)
      → (on_clean env entered t).0 ≡ ok tt
      → (commit_pending env t).0 ≡ ok tt
  unfolding on_clean
  on_clean_ok entered t h =
      let (u, p, _) =
        >>=-eq-ok
          (try_except (commit_pending env) (
            except_exception λ e. raise (
              commit_error
                (String.◌++◌ "Failed to commit pending configuration: " (error_text e)))))
          _ t h in
      committed t p

  -- `__aexit__` of the outermost context brings the counter back to 0.
  on_outermost-depth :
      (entered failed : Bool) (t : Session)
      → t.depth ≡ 0
      → (on_outermost entered failed t).1.depth ≡ 0
  unfolding on_outermost
  on_outermost-depth entered true t h =
      ((Does-on_exception {x = site t} env entered).at t refl).same_depth ∙ h
  on_outermost-depth entered false t h =
      ((Does-on_clean {x = site t} env entered).at t refl).same_depth ∙ h

  leave_failed_state :
      (A : Type 0) (entered : Bool) (t : Session) (e : Error)
      → t.depth ≡ 1
      → (leave {A = A} env entered (err e) t).1 ≡ (on_exception env entered (shallower t)).1
  unfolding leave on_outermost ◌>>=◌
  leave_failed_state A entered t e outer = ground (arith, aexit_outermost entered true t outer)

  module _ {A : Type 0} (entered : Bool) (t : Session) (outer : t.depth ≡ 1) where
    leave-depth : (r : Result A) → (leave env entered r t).1.depth ≡ 0
    unfolding leave ◌>>=◌
    leave-depth (ok a) = ground (
      arith,
      aexit_outermost entered false t outer,
      on_outermost-depth entered false (shallower t),
    )
    leave-depth (err e) =
        ground (
          arith,
          aexit_outermost entered true t outer,
          on_outermost-depth entered true (shallower t),
        )

    leave_failed_result :
        (e : Error)
        → ((leave {A = A} env entered (err e) t).0 ≡ err e)
          ⊎ ((leave {A = A} env entered (err e) t).0 ≡ err cancelled)
    unfolding leave on_outermost ◌>>=◌
    leave_failed_result e = elim (Result-cases (on_exception env entered (shallower t)).0) [
      | inl (_, p) ↦ ground (arith, aexit_outermost entered true t outer)
      | inr (c, p) ↦ ground (
        arith,
        aexit_outermost entered true t outer,
        on_exception-OnlyCancelled entered (shallower t) c p,
      )
    ]

    -- A body that raised is rolled back, never committed: from there on the context sends only
    -- requests to log in and DELETE requests, and raises the body's exception or a cancellation.
    pub leave_failed :
        (e : Error)
        → Sent (HasMethod (site t) "DELETE") t.log (leave {A = A} env entered (err e) t).1.log
          × (((leave {A = A} env entered (err e) t).0 ≡ err e)
              ⊎ ((leave {A = A} env entered (err e) t).0 ≡ err cancelled))
    leave_failed e = (
      rw (leave_failed_state A entered t e outer)
          ((Does-on_exception {x = site t} env entered).at (shallower t) refl).sent,
      leave_failed_result e,
    )

    -- A body that returned is committed: the context returns only if the commit request did.
    pub leave_returned :
        (a : A) {b : A}
        → (leave env entered (ok a) t).0 ≡ ok b
        → ((commit_pending env (shallower t)).0 ≡ ok tt) × (b ≡ a)
    unfolding leave on_outermost ◌>>=◌
    leave_returned a h =
        ground (arith, aexit_outermost entered false t outer, on_clean_ok entered (shallower t))

    -- A commit that fails is reported as `CommitError`, with nothing sent after it: no rollback,
    -- and no request to leave the config mode.
    pub leave_uncommitted :
        (a : A) {e : Error}
        → (commit_pending env (shallower t)).0 ≡ err e
        → is_exception e ≡ true
        → leave env entered (ok a) t ≡ (
          err (
              commit_error (String.◌++◌ "Failed to commit pending configuration: " (error_text e))),
          (commit_pending env (shallower t)).1,
        )
    unfolding leave on_outermost on_clean ◌>>=◌
    leave_uncommitted a c x = ground (arith, aexit_outermost entered false t outer)

module _ {A : Type 0} (env : Env) (body : Exec Session A) (s : Session) where
  -- Where the outermost context is entered and its body raises, leaving the counter where it was,
  -- the context sends from there on nothing but requests to log in and DELETE requests, so no
  -- commit, and it raises the body's exception or a cancellation.
  pub pending_failed :
      {entered : Bool} {e : Error}
      → (aenter env s).0 ≡ ok entered
      → (body (aenter env s).1).0 ≡ err e
      → (body (aenter env s).1).1.depth ≡ 1
      → let t = (body (aenter env s).1).1 in
        Sent (HasMethod (site t) "DELETE") t.log (pending env body s).1.log
        × (((pending env body s).0 ≡ err e) ⊎ ((pending env body s).0 ≡ err cancelled))
  pending_failed {entered} {e} enters fails outer =
      rw (pending_of_enter env body s enters, fails)
        (leave_failed env entered (body (aenter env s).1).1 outer e)

  -- The outermost context returns only a value that its body returned, and only if the request to
  -- commit succeeded after the body.
  pub pending_returned :
      {entered : Bool} {a b : A}
      → (aenter env s).0 ≡ ok entered
      → (body (aenter env s).1).0 ≡ ok a
      → (body (aenter env s).1).1.depth ≡ 1
      → (pending env body s).0 ≡ ok b
      → ((commit_pending env (shallower (body (aenter env s).1).1)).0 ≡ ok tt) × (b ≡ a)
  pending_returned {entered} {a} enters returns outer h =
      leave_returned env entered (body (aenter env s).1).1 outer a
        (rw (pending_of_enter env body s enters, returns) at h)

  -- A commit that fails with an `Exception` is reported as `CommitError`, and nothing is sent after
  -- it: no rollback, and no request to leave the config mode that was entered.
  pub pending_uncommitted :
      {entered : Bool} {a : A} {e : Error}
      → (aenter env s).0 ≡ ok entered
      → (body (aenter env s).1).0 ≡ ok a
      → (body (aenter env s).1).1.depth ≡ 1
      → (commit_pending env (shallower (body (aenter env s).1).1)).0 ≡ err e
      → is_exception e ≡ true
      → pending env body s ≡ (
        err (commit_error (String.◌++◌ "Failed to commit pending configuration: " (error_text e))),
        (commit_pending env (shallower (body (aenter env s).1).1)).1,
      )
  pending_uncommitted {entered} {a} enters returns outer c x =
      rw (pending_of_enter env body s enters, returns)
        (leave_uncommitted env entered (body (aenter env s).1).1 outer a c x)

  -- An outermost context that is entered, and whose body leaves the counter where it was, brings
  -- the counter back to 0, however the body and the context end.
  pub depth-pending :
      {entered : Bool}
      → (aenter env s).0 ≡ ok entered
      → (body (aenter env s).1).1.depth ≡ 1
      → (pending env body s).1.depth ≡ 0
  depth-pending {entered} enters outer =
      rw (pending_of_enter env body s enters)
        (leave-depth env entered (body (aenter env s).1).1 outer (body (aenter env s).1).0)

  -- Where entering raises, it is a cancellation: the body never runs, and the counter stays raised
  -- by one.
  pub pending_cancelled :
      {e : Error}
      → (aenter env s).0 ≡ err e
      → (e ≡ cancelled)
        × (pending env body s ≡ (err cancelled, (aenter env s).1))
        × ((pending env body s).1.depth ≡ s.depth + 1)
  pending_cancelled {e} h =
      let c = aenter-OnlyCancelled env s e h in
      let p = pending_not_entered env body s h in
      (c, rw c at p, ap (λ (q : Result A × Session). q.1.depth) p ∙ depth-aenter env s)
