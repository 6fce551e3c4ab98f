-- ===== src/Commit.antt =====
-- _commit.py: `CommitContext`, and `commit` and `rollback` of _client.py, which send the same
-- requests outside a context.
pub mod Requests
pub mod Transaction
pub mod Flat
pub mod Outermost
use Prim.Native.String
use mathlib.Core.List.{[], ◌∷◌}
use sonicwall_sdk.Prelude.{
  ℕ, ◌+◌, ◌-◌, String, Bool, true, false, not, Option, none, some, List, ◌==◌, ltb, if◌then◌else◌,
}
use sonicwall_sdk.Errors.{
  Error, Result, ok, err, commit_error, rollback_error, error_text, is_exception,
}
use sonicwall_sdk.Exec.{
  Exec, pure, raise, lift, gets, try_except, try_else, except_exception, ◌>>=◌, ◌>>◌,
}
use sonicwall_sdk.Json.Value.{Value}
use sonicwall_sdk.Transport.{Env, Session, empty}
use sonicwall_sdk.Http.Client.{request}

-- A request whose body is ignored.
abbrev call : Env → String → String → Exec Session (Unit {0})
call env method path = do request env method path empty; pure tt

abbrev pub commit_pending : Env → Exec Session (Unit {0})
commit_pending env = call env "POST" "/config/pending"

abbrev pub discard_pending : Env → Exec Session (Unit {0})
discard_pending env = call env "DELETE" "/config/pending"

-- `_try_request`
unfoldable pub try_request : Env → String → String → Exec Session Bool
try_request env method path =
    try_except (do request env method path empty; pure true) (except_exception (λ e. pure false))

abbrev pub config_mode_paths : List String
config_mode_paths = "/config/mode" ∷ "/config-mode" ∷ "/mode/config" ∷ "/mode" ∷ []

-- The loop over the candidates: the first one that works ends it.
unfoldable pub try_paths : Env → String → List String → Exec Session Bool
try_paths env method [] = pure false
try_paths env method (path ∷ paths) =
    let rest = try_paths env method paths in
    do done ← try_request env method path; if done then pure true else rest

-- `_enter_config_mode`
unfoldable pub enter_config_mode : Env → Exec Session Bool
enter_config_mode env = try_paths env "POST" config_mode_paths

-- `_exit_config_mode_if_needed`
unfoldable pub exit_config_mode_if_needed : Env → Bool → Exec Session (Unit {0})
exit_config_mode_if_needed env entered =
    if not entered then pure tt else (do try_paths env "DELETE" config_mode_paths; pure tt)

abbrev set_depth : (ℕ → ℕ) → Exec Session ℕ
set_depth f s = (ok (f s.depth), record s { depth = f s.depth })

-- `__aenter__`: what it gives is the context's `_entered_config_mode`.
unfoldable pub aenter : Env → Exec Session Bool
aenter env = do
  depth ← set_depth (λ d. d + 1)
  if depth == 1 then enter_config_mode env else pure false

-- The branch of `__aexit__` on a clean exit.
unfoldable pub on_clean : Env → Bool → Exec Session (Unit {0})
on_clean env entered = do
  try_except (commit_pending env) (
      except_exception λ e.
        raise
          (commit_error (String.◌++◌ "Failed to commit pending configuration: " (error_text e))))
  exit_config_mode_if_needed env entered

-- The branch on an exception: a failed rollback is logged, and the config mode is left either way.
unfoldable pub on_exception : Env → Bool → Exec Session (Unit {0})
on_exception env entered =
    try_else (discard_pending env) (except_exception (λ e. exit_config_mode_if_needed env entered))
      (λ _. exit_config_mode_if_needed env entered)

-- `__aexit__`, which never suppresses the exception: `failed` says whether there is one. It is
-- called after `__aenter__`, so the depth is not 0.
unfoldable pub aexit : Env → Bool → Bool → Exec Session (Unit {0})
aexit env entered failed = do
  depth ← set_depth (λ d. d - 1)
  if ltb 0 depth then pure tt else if failed then on_exception env entered else on_clean env entered

-- `async with client.pending(): body`
module _ {A : Type 0} (env : Env) where
  unfoldable pub leave : Bool → Result A → Exec Session A
  leave entered (ok a) = do aexit env entered false; pure a
  leave entered (err e) = do aexit env entered true; raise e

  unfoldable pub pending : Exec Session A → Exec Session A
  unfolding leave
  pending body = do
    entered ← aenter env
    try_else body (λ e. leave entered (err e)) (λ a. leave entered (ok a))

-- `SonicWallClient.commit`
unfoldable pub commit : Env → Exec Session (Unit {0})
commit env =
    try_except (commit_pending env)
      (except_exception λ e. raise (commit_error (String.◌++◌ "Commit failed: " (error_text e))))

-- `SonicWallClient.rollback`
unfoldable pub rollback : Env → Exec Session (Unit {0})
rollback env =
    try_except (discard_pending env) (
      except_exception λ e. raise (rollback_error (String.◌++◌ "Rollback failed: " (error_text e))))
