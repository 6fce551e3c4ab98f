-- ===== src/Auth/Tasks/Alone.antt =====
-- A task that is alone does what the methods of `AuthManager` do as actions on a session.
use sonicwall_sdk.Prelude.{String, Bool, true, false, Option, none, ◌≡◌}
use sonicwall_sdk.Transport.{AuthManager}
use sonicwall_sdk.Auth.Tasks.{Phase, System, advance, initial, Event}
use sonicwall_sdk.Auth.Tasks

-- The task is in the middle of a call.
abbrev busy : Phase → Bool
busy Phase.idle = false
busy _ = true

-- The systems that one call by task 0 goes through: the call, from no task inside a method, and then
-- what happens to task 0 as long as it is in the middle of that call.
pub data Run (a : AuthManager) (call : Event Phase.idle) : System → Type 0 where
  called : Run a call (advance call 0 (initial a))
  goes_on :
      {s : System}
      → Run a call s
      → (e : Event (s.phase 0)) → busy (s.phase 0) ≡ true
      → Run a call (advance e 0 s)

-- One call leads from a login state to another, and is over then.
pub record Leads (call : Event Phase.idle) (a b : AuthManager) : Type 0 where
  pub last : System
  pub run : Run a call last
  pub auth : last.auth ≡ b
  pub free : last.lock ≡ none
  pub outside : last.phase 0 ≡ Phase.idle

-- `self._bearer_token = token; self._authenticated = True`, on the manager alone.
abbrev stored : AuthManager → Option String → AuthManager
stored a t = record a { bearer_token = t; authenticated = true }
