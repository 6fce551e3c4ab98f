-- ===== src/Auth/Tasks/Safety.antt =====
-- What the lock of `AuthManager` is for.
use sonicwall_sdk.Prelude.{ℕ, ◌+◌, ◌≤◌, Bool, true, false, ◌≡◌, arith, ◌⊎◌, inl, inr, Option-cases}
use sonicwall_sdk.Transport.{AuthManager}
use sonicwall_sdk.Auth.Manager.{is_authenticated}
use sonicwall_sdk.Auth.Tasks.{Phase, System, acquire, acquire_again, advance, Reach}
use sonicwall_sdk.Auth.Tasks.Invariant.{posting, flag-le, Reach-Inv}

-- However the calls of `ensure_authenticated`, `reauthenticate` and `logout` by any number of tasks
-- are interleaved, two tasks are never both in the middle of a handshake.
pub one_handshake :
    {a : AuthManager} {s : System}
    → Reach a s
    → (i j : ℕ) → posting (s.phase i) ≡ true
    → posting (s.phase j) ≡ true
    → i ≡ j
one_handshake r i j p q = grind (arith, (Reach-Inv r).held i p, (Reach-Inv r).held j q)

-- However the calls of `ensure_authenticated`, `reauthenticate` and `logout` by any number of tasks
-- are interleaved, the tokens stored are at most one more than the tokens that `reauthenticate` and
-- `logout` have dropped, and no more than those while there is no login. To drop where no token is
-- held does not count. So tasks that find no login and wait for the lock do not log in one after
-- the other.
pub logins_bounded :
    {a : AuthManager} {s : System}
    → Reach a s
    → (s.logins ≤ s.drops + 1) × (is_authenticated s.auth ≡ false → s.logins ≤ s.drops)
logins_bounded {s} r =
    let h = (Reach-Inv r).counted in
    (omega (arith, h, flag-le (is_authenticated s.auth)), λ n. ground (arith, h))

-- The task waits for the lock.
abbrev pub waiting : Phase → Bool
waiting Phase.ensuring = true
waiting Phase.reauthenticating = true
waiting _ = false

-- However the calls of `ensure_authenticated`, `reauthenticate` and `logout` by any number of tasks
-- are interleaved, a task that is offered the lock stops to wait for it, unless some task is in the
-- middle of a handshake.
pub no_deadlock :
    {a : AuthManager} {s : System}
    → Reach a s
    → (i : ℕ)
    → ((j : ℕ) × (posting (s.phase j) ≡ true))
      ⊎ ((waiting ((advance acquire i s).phase i) ≡ false)
          × (waiting ((advance acquire_again i s).phase i) ≡ false))
unfolding advance
no_deadlock {s} r i = elim (Option-cases s.lock) [
  | inl free ↦ inr (grind (arith, free), grind (arith, free))
  | inr (j, h) ↦ inl (j, (Reach-Inv r).used j h)
]
