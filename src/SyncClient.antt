-- ===== src/SyncClient.antt =====
-- `SonicWallClientSync` of _client.py. Its background thread is seen through the event loop: no
-- loop is made, it runs, or it is stopped.
pub mod Resources
pub mod Refinement
use sonicwall_sdk.Prelude.{Bool, Option, none, some, String}
use sonicwall_sdk.Errors.{Result, ok, err, builtin, assertion_error}
use sonicwall_sdk.Exec.{Exec}
use sonicwall_sdk.Transport.{Env, Session}
use sonicwall_sdk.Client.{new_client}
use sonicwall_sdk.Client
use sonicwall_sdk.Commit

pub data Loop : Type 0 where
  absent running stopped : Loop

-- The async client's session, and the loop.
pub record SyncClient : Type 0 where
  pub session : Session
  pub loop : Loop

-- A blocking call: `none` is a call that never returns.
abbrev pub Blocking : Type 0 → Type 0
Blocking A = SyncClient → Option (Result A) × SyncClient

-- `SonicWallClientSync.__init__`
unfoldable pub new_sync_client : String → String → String → SyncClient
unfolding new_client
new_sync_client host username password = record {
  session = new_client host username password;
  loop = absent;
}

module _ {A : Type 0} where
  abbrev run_on : Loop → Exec Session A → Blocking A
  run_on absent m c = (some (err (builtin assertion_error "")), c)
  run_on running m c = let (r, s) = m c.session in (some r, record c { session = s })
  run_on stopped m c = (none, c)

  -- `_run`: a coroutine that is submitted to a stopped loop is never run, and `future.result()`
  -- waits for it.
  unfoldable pub run : Exec Session A → Blocking A
  run m c = run_on c.loop m c

  abbrev continue : {B : Type 0} → Option (Result A) → (A → Blocking B) → Blocking B
  continue none f c = (none, c)
  continue (some (ok a)) f c = f a c
  continue (some (err e)) f c = (some (err e), c)

infixl 5 ◌>>=◌ ◌>>◌
abbrev pub ◌>>=◌ : {A B : Type 0} → Blocking A → (A → Blocking B) → Blocking B
◌>>=◌ m f c = let (r, after) = m c in continue r f after

abbrev pub ◌>>◌ : {A B : Type 0} → Blocking A → Blocking B → Blocking B
first >> second = first >>= λ _. second

abbrev set_loop : Loop → Blocking (Unit {0})
set_loop l c = (some (ok tt), record c { loop = l })

-- `connect`: a new loop is started and is waited for.
unfoldable pub connect : Env → Blocking (Unit {0})
unfolding run Client.connect
connect env = do set_loop running; run (Client.connect env)

-- `disconnect`: the loop is stopped, and is kept as an attribute.
unfoldable pub disconnect : Env → Blocking (Unit {0})
unfolding run Client.disconnect
disconnect env = do run (Client.disconnect env); set_loop stopped

-- `commit`
unfoldable pub commit : Env → Blocking (Unit {0})
unfolding run Commit.commit
commit env = run (Commit.commit env)

-- `rollback`
unfoldable pub rollback : Env → Blocking (Unit {0})
unfolding run Commit.rollback
rollback env = run (Commit.rollback env)

-- `with client: body`
module _ {A : Type 0} (env : Env) where
  abbrev then_raise : Option (Result A) → Option (Result (Unit {0})) → Option (Result A)
  then_raise r none = none
  then_raise r (some (ok _)) = r
  then_raise r (some (err e)) = some (err e)

  abbrev leave : Option (Result A) → Blocking A
  leave none c = (none, c)
  leave (some r) c = let (d, after) = disconnect env c in (then_raise (some r) d, after)

  unfoldable pub with_sync_client : Blocking A → Blocking A
  unfolding connect disconnect
  with_sync_client body = do connect env; λ c. let (r, after) = body c in leave r after
