-- ===== src/Auth/Manager/Requests.antt =====
-- Which requests the methods of `AuthManager` send.
use Prim.Native.String
use sonicwall_sdk.Prelude.{String, Option, none, some, false, ◌≡◌, refl, ap, Bool}
use sonicwall_sdk.Errors.{Error}
use sonicwall_sdk.Transport.{Env, Request, Response}
use sonicwall_sdk.Transport.Frame.{
  Frame-refl, Site, Does, Does-bind-gets, Does-bind, Does-send, Does-if, Does-raise, Does-pure,
  Does-try, Does-finally, does_rules,
}
use sonicwall_sdk.Auth.Digest.{Params}
use sonicwall_sdk.Auth.Manager.{
  set_token, on_reply, on_challenge, authenticate, ensure_authenticated, reauthenticate, logout,
  ignore,
}

-- A request to the `/auth` endpoint of the site.
abbrev pub IsAuthRequest : Site → Request → Type 0
IsAuthRequest x r = r.url ≡ String.◌++◌ x.auth_base_url "/auth"

module _ {x : Site} (env : Env) where
  Does-set_token : (t : Option String) (b : Bool) → Does (IsAuthRequest x) x (set_token t b)
  Does-set_token t b = record {
    at = λ s e. record {
      same_site = refl;
      same_depth = refl;
      sent = (Frame-refl {P = IsAuthRequest x} s).sent;
    };
  }

  Does-on_reply : (r : Response) → Does (IsAuthRequest x) x (on_reply env r)
  unfolding on_reply
  Does-on_reply r = search (does_rules, Does-set_token)

  Does-on_challenge :
      (r : Response) (c : Option Params) → Does (IsAuthRequest x) x (on_challenge env r c)
  unfolding on_challenge
  Does-on_challenge r none = search does_rules
  Does-on_challenge r (some c) = Does-bind-gets _ _ λ s e.
      Does-bind _ _ (search does_rules) λ header.
        Does-bind _ _ (Does-send env _ (ap (λ (y : Site). String.◌++◌ y.auth_base_url "/auth") e))
          Does-on_reply

  pub Does-authenticate : Does (IsAuthRequest x) x (authenticate env)
  unfolding authenticate
  Does-authenticate = Does-bind-gets _ _ λ s e.
      Does-bind _ _ (Does-send env _ (ap (λ (y : Site). String.◌++◌ y.auth_base_url "/auth") e))
        λ r. Does-if _ _ _ (Does-raise _) (Does-on_challenge r _)

  pub Does-ensure_authenticated : Does (IsAuthRequest x) x (ensure_authenticated env)
  unfolding ensure_authenticated
  Does-ensure_authenticated = search (does_rules, Does-authenticate)

  pub Does-reauthenticate : Does (IsAuthRequest x) x (reauthenticate env)
  unfolding reauthenticate
  Does-reauthenticate = search (does_rules, Does-set_token, Does-authenticate)

  Does-ignore : (e : Error) → Does (IsAuthRequest x) x (ignore e)
  Does-ignore e = Does-if _ _ _ (Does-pure tt) (Does-raise e)

  pub Does-logout : Does (IsAuthRequest x) x (logout env)
  unfolding logout
  Does-logout = Does-bind-gets _ _ λ s e. Does-if _ _ _ (Does-pure tt) (
      Does-finally _ _
        (Does-try _ _
          (Does-bind _ _
            (Does-send env _ (ap (λ (y : Site). String.◌++◌ y.auth_base_url "/auth") e))
            (λ r. Does-pure tt))
          Does-ignore)
        (Does-set_token none false))
