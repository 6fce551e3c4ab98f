-- ===== src/Http/Client/Blind.antt =====
-- A request has nothing to do with the depth counter of `CommitContext`.
use sonicwall_sdk.Prelude.{String, refl, arith}
use sonicwall_sdk.Exec.{◌>>=◌}
use sonicwall_sdk.Transport.{Env, Response, Body, send}
use sonicwall_sdk.Transport.Blind.{
  IsBlind, IsBlind-pure, IsBlind-lift, IsBlind-if, IsBlind-bind, IsBlind-bind_gets,
}
use sonicwall_sdk.Auth.Manager.{authenticate, ensure_authenticated, reauthenticate}
use sonicwall_sdk.Http.Client.{request, do_request, conclude, finish, retry, on_first}

module _ (env : Env) where
  authenticate-IsBlind : IsBlind (authenticate env)
  unfolding authenticate send ◌>>=◌
  authenticate-IsBlind s d = ground arith

  ensure_authenticated-IsBlind : IsBlind (ensure_authenticated env)
  unfolding ensure_authenticated ◌>>=◌
  ensure_authenticated-IsBlind s d = ground (arith, authenticate-IsBlind s d)

  reauthenticate-IsBlind : IsBlind (reauthenticate env)
  unfolding reauthenticate authenticate send ◌>>=◌
  reauthenticate-IsBlind s d = ground arith

  conclude-IsBlind : (r : Response) → IsBlind (conclude env r)
  unfolding conclude
  conclude-IsBlind r = IsBlind-bind _ _ (IsBlind-lift _) (λ _. IsBlind-pure _)

  finish-IsBlind : (r : Response) → IsBlind (finish env r)
  unfolding finish
  finish-IsBlind r =
      IsBlind-if _ _ _ (IsBlind-bind _ _ (IsBlind-lift _) (λ _. conclude-IsBlind r))
        (conclude-IsBlind r)

  module _ (method url : String) (body : Body) where
    do_request-IsBlind : IsBlind (do_request env method url body)
    unfolding do_request send ◌>>=◌
    do_request-IsBlind s d = ground arith

    retry-IsBlind : IsBlind (retry env method url body)
    unfolding retry
    retry-IsBlind =
        IsBlind-bind _ _ reauthenticate-IsBlind
          (λ _. IsBlind-bind _ _ do_request-IsBlind finish-IsBlind)

    on_first-IsBlind : (r : Response) → IsBlind (on_first env method url body r)
    unfolding on_first
    on_first-IsBlind r = IsBlind-if _ _ _ retry-IsBlind (conclude-IsBlind r)

  pub request-IsBlind :
      (method path : String) (body : Body) → IsBlind (request env method path body)
  unfolding request
  request-IsBlind method path body =
      IsBlind-bind_gets _ _ (λ s d. refl)
        λ base_url.
          IsBlind-bind _ _ ensure_authenticated-IsBlind λ _.
            IsBlind-bind _ _ (do_request-IsBlind method _ body) (on_first-IsBlind method _ body)
