-- ===== src/Contract/ReadOnly.antt =====
-- What `run` of collect_contract.py sends.
use mathlib.Core.List.{[]}
use sonicwall_sdk.Prelude.{String, Option, none, some, List, refl, inl, inr}
use sonicwall_sdk.Exec.{pure}
use sonicwall_sdk.Transport.{Env, Response}
use sonicwall_sdk.Transport.Frame.{
  Sent, Site, site, Does, Does-pure, Does-bind, Does-bind-gets, Does-else, Does-except, Does-send,
  Does-mono, Does-finally, does_rules,
}
use sonicwall_sdk.Auth.Manager.Requests.{Does-authenticate, Does-logout}
use sonicwall_sdk.Commit.Requests.{HasMethod}
use sonicwall_sdk.Client.{new_client, connect, disconnect}
use sonicwall_sdk.Contract.{
  ProbeResult, raw_probe, raw_request, append_get, follow, failed, list_probes, probes, collect,
  run, get_rule, get_named,
}

module _ {x : Site} (env : Env) (text : Response → String) where
  Does-raw_request :
      (path name : String) → Does (HasMethod x "GET") x (raw_request env text "GET" path none name)
  unfolding raw_request raw_probe
  Does-raw_request path name = Does-bind-gets _ _ λ s e.
      Does-else _ _ _ (Does-send env _ (inr refl))
        (λ e'. Does-except (λ y. pure (failed env text "GET" path name none y)) e' (Does-pure _))
        (λ r. Does-pure _)

  Does-append_get :
      (path name : String) (results : List ProbeResult)
      → Does (HasMethod x "GET") x (append_get env text path name results)
  unfolding append_get
  Does-append_get path name results = search (does_rules, Does-raw_request)

  Does-get_named :
      (prefix name : String) (results : List ProbeResult) (o : Option String)
      → Does (HasMethod x "GET") x (get_named env text prefix name results o)
  Does-get_named prefix name results none = Does-pure results
  Does-get_named prefix name results (some item) = Does-append_get _ name results

  Does-follow :
      (listed list_key item_key prefix name : String) (results : List ProbeResult)
      → Does (HasMethod x "GET") x (follow env text listed list_key item_key prefix name results)
  unfolding follow
  Does-follow listed list_key item_key prefix name results = Does-get_named prefix name results _

  Does-get_rule :
      (results : List ProbeResult) (o : Option (String × String × String))
      → Does (HasMethod x "GET") x (get_rule env text results o)
  Does-get_rule results none = Does-pure results
  Does-get_rule results (some (a, b, c)) = Does-append_get _ _ results

  Does-list_probes : Does (HasMethod x "GET") x (list_probes env text)
  unfolding list_probes
  Does-list_probes = search (Does-bind, Does-append_get) depth 20

  Does-probes : Does (HasMethod x "GET") x (probes env text)
  unfolding probes
  Does-probes = search (Does-bind, Does-list_probes, Does-follow, Does-get_rule) depth 20

  Does-collect : Does (HasMethod x "GET") x (collect env text)
  unfolding collect connect disconnect
  Does-collect = Does-bind _ _ (Does-mono (λ r h. inl h) (Does-authenticate env)) (λ _.
      Does-bind _ _ (Does-finally _ _ Does-probes (Does-mono (λ r h. inl h) (Does-logout env)))
        (λ results. Does-pure _))

module _ (env : Env) (text : Response → String) (host username password : String) where
  -- Whatever the device answers, every request of `run` goes to the `/auth` endpoint or is a GET.
  pub run-Sent :
      Sent
        (HasMethod (site (new_client host username password)) "GET")
        []
        (run env text host username password).1.log
  unfolding run new_client
  run-Sent = ((Does-collect env text).at (new_client host username password) refl).sent
