-- ===== src/Commit/Requests.antt =====
-- Which requests the parts of a transaction send.
use Prim.Native.String
use mathlib.Core.List.{[], ◌∷◌}
use sonicwall_sdk.Prelude.{String, Bool, true, false, List, ◌≡◌, ◌⊎◌, inl, inr}
use sonicwall_sdk.Exec.{pure, raise}
use sonicwall_sdk.Errors.{commit_error, error_text}
use sonicwall_sdk.Transport.{Env, Request, Body, empty}
use sonicwall_sdk.Transport.Frame.{
  Site, Does, Does-bind, Does-if, Does-try, Does-else, Does-except, Does-raise, Does-pure,
  Does-mono,
}
use sonicwall_sdk.Auth.Manager.Requests.{IsAuthRequest}
use sonicwall_sdk.Http.Client.{request}
use sonicwall_sdk.Http.Client.Requests.{IsAllowed, Does-request}
use sonicwall_sdk.Commit.{
  call, try_request, try_paths, enter_config_mode, exit_config_mode_if_needed, on_clean,
  on_exception, config_mode_paths,
}

-- A request to log in, or one with the given method.
abbrev pub HasMethod : Site → String → Request → Type 0
HasMethod x method r = IsAuthRequest x r ⊎ (r.method ≡ method)

IsAllowed-HasMethod :
    {x : Site} {method path : String} {body : Body} (r : Request)
    → IsAllowed x method path body r
    → HasMethod x method r
IsAllowed-HasMethod r (inl auth) = inl auth
IsAllowed-HasMethod r (inr own) = inr own.same_method

module _ {x : Site} (env : Env) (method : String) where
  Does-request_method :
      (path : String) (body : Body) → Does (HasMethod x method) x (request env method path body)
  Does-request_method path body = Does-mono IsAllowed-HasMethod (Does-request env method path body)

  pub Does-call : (path : String) → Does (HasMethod x method) x (call env method path)
  Does-call path = Does-bind _ _ (Does-request_method path empty) (λ _. Does-pure tt)

  Does-try_request : (path : String) → Does (HasMethod x method) x (try_request env method path)
  unfolding try_request
  Does-try_request path =
      Does-try _ _ (Does-bind _ _ (Does-request_method path empty) (λ _. Does-pure true))
        (λ e. Does-except (λ _. pure false) e (Does-pure false))

  pub Does-try_paths :
      (paths : List String) → Does (HasMethod x method) x (try_paths env method paths)
  unfolding try_paths
  Does-try_paths [] = Does-pure false
  Does-try_paths (path ∷ paths) =
      Does-bind _ _ (Does-try_request path)
        λ done. Does-if _ _ _ (Does-pure true) (Does-try_paths paths)

module _ {x : Site} (env : Env) (entered : Bool) where
  pub Does-exit : Does (HasMethod x "DELETE") x (exit_config_mode_if_needed env entered)
  unfolding exit_config_mode_if_needed
  Does-exit =
      Does-if _ _ _ (Does-pure tt)
        (Does-bind _ _ (Does-try_paths env "DELETE" config_mode_paths) (λ _. Does-pure tt))

  pub Does-on_exception : Does (HasMethod x "DELETE") x (on_exception env entered)
  unfolding on_exception
  Does-on_exception =
      Does-else _ _ _ (Does-call env "DELETE" _)
        (λ e. Does-except (λ _. exit_config_mode_if_needed env entered) e Does-exit)
        (λ _. Does-exit)

  pub Does-on_clean : Does (λ r. Unit {0}) x (on_clean env entered)
  unfolding on_clean
  Does-on_clean =
      Does-bind _ _
        (Does-try _ _ (Does-mono (λ r h. tt) (Does-call env "POST" "/config/pending")) (λ e.
          Does-except
            (λ c. raise (
              commit_error (String.◌++◌ "Failed to commit pending configuration: " (error_text c))))
            e (Does-raise _)))
        (λ _. Does-mono (λ r h. tt) Does-exit)

module _ {x : Site} (env : Env) where
  pub Does-enter : Does (HasMethod x "POST") x (enter_config_mode env)
  unfolding enter_config_mode
  Does-enter = Does-try_paths env "POST" config_mode_paths
