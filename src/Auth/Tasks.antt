-- ===== src/Auth/Tasks.antt =====
-- `AuthManager` as several tasks run it: `ensure_authenticated`, `reauthenticate` and `logout` of
-- _auth.py, cut where they await the lock or a response. Between two awaits a task is alone.
-- `SonicWallClient.connect`, which calls `authenticate` without the lock, is not one of the calls.
pub mod Invariant
pub mod Safety
pub mod Alone
use mathlib.Core.Logic.{ite}
use native.Mathlib.Decide.{ℕ_discrete}
use sonicwall_sdk.Prelude.{
  ℕ, zero, suc, String, Bool, true, false, Option, none, some, if◌then◌else◌, is_some,
}
use sonicwall_sdk.Json.Value.{nonempty}
use sonicwall_sdk.Transport.{AuthManager}
use sonicwall_sdk.Auth.Manager.{is_authenticated}

-- Where a task is: outside, before the lock of one of the two methods, before the answer to the
-- first or second POST of `authenticate` with the lock held, or before that to the DELETE.
pub data Phase : Type 0 where
  idle ensuring reauthenticating challenged answered leaving : Phase

-- The fields of `AuthManager`, its lock with the task that holds it, and where each task is. The
-- code has no `logins` and `drops`: they count the tokens that were stored and that were dropped.
pub record System : Type 0 where
  pub auth : AuthManager
  pub lock : Option ℕ
  pub phase : ℕ → Phase
  pub logins : ℕ
  pub drops : ℕ

-- What can happen to a task: it calls a method; it is the next to take the lock; it is answered; or
-- its await raises, because of the answer, the network or a cancellation.
pub data Event : Phase → Type 0 where
  ensure : Event Phase.idle
  reauthenticate : Event Phase.idle
  logout : Event Phase.idle
  acquire : Event Phase.ensuring
  give_up : Event Phase.ensuring
  acquire_again : Event Phase.reauthenticating
  give_up_again : Event Phase.reauthenticating
  challenge : Event Phase.challenged
  no_challenge : Event Phase.challenged
  token : String → Event Phase.answered
  no_token : Event Phase.answered
  deleted : Event Phase.leaving

abbrev pub put : (ℕ → Phase) → ℕ → Phase → ℕ → Phase
put phases i p j = ite (ℕ_discrete i j) p (phases j)

abbrev pub move : ℕ → Phase → System → System
move i p s = record s { phase = put s.phase i p }

-- The lock is taken, and the first POST is sent.
abbrev pub begin : ℕ → System → System
begin i s = record s { lock = some i; phase = put s.phase i Phase.challenged }

-- The lock is released, by a return or an exception.
abbrev pub release : ℕ → System → System
release i s = record s { lock = none; phase = put s.phase i Phase.idle }

-- `self._authenticated = False; self._bearer_token = None`: a token is dropped if there is one.
abbrev pub clear : System → System
clear s = record s {
  auth = record s.auth { bearer_token = none; authenticated = false };
  drops = if is_some s.auth.bearer_token then suc s.drops else s.drops;
}

-- `self._bearer_token = token; self._authenticated = True`
abbrev pub accept : String → System → System
accept t s = record s {
  auth = record s.auth { bearer_token = some t; authenticated = true };
  logins = suc s.logins;
}

-- What a task does from an await to the next. While another task holds the lock, nothing.
unfoldable pub advance : {p : Phase} → Event p → ℕ → System → System
advance ensure i s = if is_authenticated s.auth then s else move i Phase.ensuring s
advance reauthenticate i s = move i Phase.reauthenticating s
advance logout i s = if is_authenticated s.auth then move i Phase.leaving s else s
advance acquire i s =
    if is_some s.lock then s else if is_authenticated s.auth then move i Phase.idle s else begin i s
advance give_up i s = move i Phase.idle s
advance acquire_again i s = if is_some s.lock then s else begin i (clear s)
advance give_up_again i s = move i Phase.idle s
advance challenge i s = move i Phase.answered s
advance no_challenge i s = release i s
advance (token t) i s = if nonempty (some t) then release i (accept t s) else release i s
advance no_token i s = release i s
advance deleted i s = move i Phase.idle (clear s)

-- Before any call.
abbrev pub initial : AuthManager → System
initial a = record { auth = a; lock = none; phase = λ _. Phase.idle; logins = 0; drops = 0 }

-- The systems that the calls of any tasks lead to, in any order.
pub data Reach (a : AuthManager) : System → Type 0 where
  start : Reach a (initial a)
  next : {s : System} → Reach a s → (i : ℕ) (e : Event (s.phase i)) → Reach a (advance e i s)
