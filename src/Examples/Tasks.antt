-- ===== src/Examples/Tasks.antt =====
-- Two tasks that share an `AuthManager`, at concrete schedules.
use native.Mathlib.Decide.{ℕ_discrete}
use sonicwall_sdk.Prelude.{ℕ, ◌+◌, ◌≤◌, ◌⊎◌, true, false, none, some, ◌≡◌, refl}
use sonicwall_sdk.Auth.Manager.{
  is_authenticated, reauthenticate as reauthenticate_session, logout as logout_session,
}
use sonicwall_sdk.Auth.Tasks.{
  Phase, start, next, initial, move, advance, ensure, reauthenticate, logout, acquire,
  acquire_again, challenge, token, deleted, Reach, System,
}
use sonicwall_sdk.Auth.Tasks.Invariant.{posting}
use sonicwall_sdk.Auth.Tasks.Safety.{waiting, one_handshake, logins_bounded, no_deadlock}
use sonicwall_sdk.Examples.Device.{auth}

-- Both tasks find no login; one takes the lock, and sends its first POST.
one_handshake_example : ◌≡◌ {A = ℕ} 0 0
unfolding advance is_authenticated ℕ_discrete
one_handshake_example =
    one_handshake {a = auth none false} (next (next (next start 0 ensure) 1 ensure) 0 acquire) 0 0
      refl refl

-- The first logs in, and the second takes the lock behind it.
logins_bounded_example : (1 ≤ 0 + 1) × (true ≡ false → 1 ≤ 0)
unfolding advance is_authenticated ℕ_discrete
logins_bounded_example = logins_bounded {a = auth none false} (
    next
      (next (next (next (next (next start 0 ensure) 1 ensure) 0 acquire) 0 challenge) 0
        (token "t1"))
      1 acquire)

-- A task waits for the lock, which is free.
abbrev one_waits : System
one_waits = move 0 Phase.ensuring (initial (auth none false))

no_deadlock_example :
    ((j : ℕ) × (posting (one_waits.phase j) ≡ true))
    ⊎ ((waiting ((advance acquire 0 one_waits).phase 0) ≡ false)
        × (waiting ((advance acquire_again 0 one_waits).phase 0) ≡ false))
unfolding advance is_authenticated ℕ_discrete
no_deadlock_example = no_deadlock {a = auth none false} (next start 0 ensure) 0

-- A `logout` that waits for its answer drops the token that another task has got meanwhile, and
-- no request gives that token back.
lost_token :
    (s : System) × Reach (auth (some "t0") true) s
    × (s.auth.bearer_token ≡ none)
    × (◌≡◌ {A = ℕ} s.logins 1)
unfolding advance is_authenticated ℕ_discrete
lost_token = (
  _,
  next
      (next (next (next (next (next start 0 logout) 1 reauthenticate) 1 acquire_again) 1 challenge)
        1 (token "t1"))
      0 deleted,
  refl,
  refl,
)
