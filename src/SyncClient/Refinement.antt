-- ===== src/SyncClient/Refinement.antt =====
-- The blocking client does what the async client does, as long as its loop runs.
use sonicwall_sdk.Prelude.{true, none, some, ◌≡◌, refl, arith, is_some}
use sonicwall_sdk.Errors.{ok}
use sonicwall_sdk.Exec.{Exec, ◌>>=◌ as bind}
use sonicwall_sdk.Transport.{Env, Session}
use sonicwall_sdk.Client.{leave as leave_client}
use sonicwall_sdk.Client
use sonicwall_sdk.SyncClient.{SyncClient, Loop, running, run, connect, disconnect, leave}

-- The client behind an action of the async client.
abbrev pub after : {A : Type 0} → Exec Session A → SyncClient → Loop → SyncClient
after m c l = record { session = (m c.session).1; loop = l }

module _ {A : Type 0} (env : Env) where
  pub run_running :
      (m : Exec Session A) (s : Session)
      → run m (record { session = s; loop = running })
        ≡ (some (m s).0, record { session = (m s).1; loop = running })
  unfolding run
  run_running m s = refl

  -- `connect` returns from every state of the client, also from a stopped one, with the result of
  -- the async `connect`. Whatever that is, the loop runs, and so each call that follows returns.
  connect_live :
      (m : Exec Session A) (c : SyncClient)
      → (connect env c
          ≡ (some (Client.connect env c.session).0, after (Client.connect env) c running))
        × (is_some (run m (connect env c).1).0 ≡ true)
  unfolding connect run
  connect_live m c = (refl, refl)

  -- After a `disconnect` that returned without an exception, every call blocks for ever, and changes
  -- nothing.
  disconnect_blocks :
      (m : Exec Session A) (c : SyncClient)
      → (disconnect env c).0 ≡ some (ok tt)
      → run m (disconnect env c).1 ≡ (none, (disconnect env c).1)
  unfolding disconnect run
  disconnect_blocks m c h = ground arith
