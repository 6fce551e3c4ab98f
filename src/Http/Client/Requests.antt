-- ===== src/Http/Client/Requests.antt =====
-- Which requests `HTTPClient.request` sends, and what it leaves alone.
use sonicwall_sdk.Prelude.{◌+◌, ◌≤◌, String, ◌≡◌, ◌⊎◌, inl, inr, refl, ap, arith, length}
use sonicwall_sdk.Exec.{◌>>=◌}
use sonicwall_sdk.Transport.{Env, Request, Response, Session, Body, send}
use sonicwall_sdk.Transport.Frame.{
  Site, site, Frame, Does, Does-send, Does-bind-gets, Does-bind, Does-if, Does-try, Does-raise,
  Does-mono, does_rules,
}
use sonicwall_sdk.Auth.Manager.{ensure_authenticated, reauthenticate}
use sonicwall_sdk.Auth.Manager.Requests.{
  IsAuthRequest, Does-ensure_authenticated, Does-reauthenticate,
}
use sonicwall_sdk.Auth.Manager.Lifecycle.{
  IsConsistent, ensure_authenticated-IsConsistent, reauthenticate-IsConsistent,
  ensure_authenticated-length-le, reauthenticate-length-le,
}
use sonicwall_sdk.Http.Client.{url_of, do_request, conclude, on_first, request}

-- A request to `path` of the site, as the caller gave it.
pub record IsApiRequest (x : Site) (method path : String) (body : Body) (r : Request) : Type 0 where
  pub same_method : r.method ≡ method
  pub same_url : r.url ≡ url_of x.base_url path
  pub same_body : r.body ≡ body

abbrev pub IsAllowed : Site → String → String → Body → Request → Type 0
IsAllowed x method path body r = IsAuthRequest x r ⊎ IsApiRequest x method path body r

module _ {x : Site} (env : Env) (method path : String) (body : Body) where
  Does-do_request :
      (url : String)
      → url ≡ url_of x.base_url path
      → Does (IsAllowed x method path body) x (do_request env method url body)
  unfolding do_request
  Does-do_request url e = Does-bind-gets _ _ λ s _.
      Does-try _ _
        (Does-send env _ (inr (record { same_method = refl; same_url = e; same_body = refl })))
        (λ c. Does-raise _)

  Does-conclude : (r : Response) → Does (IsAllowed x method path body) x (conclude env r)
  unfolding conclude
  Does-conclude r = search does_rules

  Does-on_first :
      (url : String)
      → url ≡ url_of x.base_url path
      → (first : Response)
      → Does (IsAllowed x method path body) x (on_first env method url body first)
  unfolding on_first
  Does-on_first url e first =
      Does-if _ _ _
        (Does-bind _ _ (Does-mono (λ q h. inl h) (Does-reauthenticate env))
          λ _. Does-bind _ _ (Does-do_request url e) λ q. search (does_rules, Does-conclude))
        (Does-conclude first)

  -- Every request of a call goes to `/auth` or is the caller's own; base URLs and depth stay.
  pub Does-request : Does (IsAllowed x method path body) x (request env method path body)
  unfolding request
  Does-request = Does-bind-gets _ _ λ s e.
      let same = ap (λ (y : Site). url_of y.base_url path) e in
      Does-bind _ _ (Does-mono (λ r h. inl h) (Does-ensure_authenticated env))
        λ _. Does-bind _ _ (Does-do_request _ same) (Does-on_first _ same)

-- From any session, each request of a call goes to `/auth`, without the caller's path and body, or
-- is the caller's own: its method, its path below the base URL and its body. The base URLs and the
-- depth counter stay as they are.
pub request-Frame :
    (env : Env) (method path : String) (body : Body) (s : Session)
    → Frame (IsAllowed (site s) method path body) s (request env method path body s).1
request-Frame env method path body s = (Does-request env method path body).at s refl

-- The state-level facts: the token and the number of requests.
do_request-auth :
    (env : Env) (method url : String) (body : Body) (s : Session)
    → (do_request env method url body s).1.auth ≡ s.auth
unfolding do_request send ◌>>=◌
do_request-auth env method url body s = ground arith

do_request-length :
    (env : Env) (method url : String) (body : Body) (s : Session)
    → length (do_request env method url body s).1.log ≡ length s.log + 1
unfolding do_request send ◌>>=◌
do_request-length env method url body s = ground arith

module _ (env : Env) (method url : String) (body : Body) (s : Session) where
  -- One call sends at most six requests: two handshakes of two, and the caller's twice.
  pub request-length-le : length (request env method url body s).1.log ≤ length s.log + 6
  unfolding request ◌>>=◌
  request-length-le =
      let s1 = (ensure_authenticated env s).1 in
      let s2 = (do_request env method (url_of s.base_url url) body s1).1 in
      let s3 = (reauthenticate env s2).1 in
      ground (
        arith,
        ensure_authenticated-length-le env s,
        do_request-length env method (url_of s.base_url url) body s1,
        reauthenticate-length-le env s2,
        do_request-length env method (url_of s.base_url url) body s3,
      )

  -- A call keeps the invariant of the session.
  pub request-IsConsistent :
      IsConsistent s.auth → IsConsistent (request env method url body s).1.auth
  unfolding request ◌>>=◌
  request-IsConsistent h =
      let s1 = (ensure_authenticated env s).1 in
      let s2 = (do_request env method (url_of s.base_url url) body s1).1 in
      let s3 = (reauthenticate env s2).1 in
      ground (
        arith,
        ensure_authenticated-IsConsistent env s h,
        do_request-auth env method (url_of s.base_url url) body s1,
        reauthenticate-IsConsistent env s2,
        do_request-auth env method (url_of s.base_url url) body s3,
      )
