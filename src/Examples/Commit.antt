-- ===== src/Examples/Commit.antt =====
-- The theorems about `CommitContext` at concrete sessions.
use Prim.Native.String
use sonicwall_sdk.Prelude.{String, ℕ, ◌+◌, ◌⊎◌, true, ◌≡◌, refl, arith}
use sonicwall_sdk.Errors.{
  Error, ok, err, timeout, cancelled, commit_error, connection_error, error_text,
}
use sonicwall_sdk.Exec.{Exec, pure, ◌>>◌}
use sonicwall_sdk.Transport.{Session}
use sonicwall_sdk.Transport.Frame.{Sent, site}
use sonicwall_sdk.Commit.{aenter, commit_pending, pending}
use sonicwall_sdk.Transport.{empty}
use sonicwall_sdk.Transport.Blind.{IsBlind, IsBlind-bind, IsBlind-pure}
use sonicwall_sdk.Http.Client.{request}
use sonicwall_sdk.Http.Client.Blind.{request-IsBlind}
use sonicwall_sdk.Commit.Flat.{Script, nested, flat, pending-flat}
use sonicwall_sdk.Commit.Requests.{HasMethod}
use sonicwall_sdk.Commit.Transaction.{deeper, shallower, pending_nested}
use sonicwall_sdk.Commit.Outermost.{
  pending_failed, pending_returned, pending_uncommitted, depth-pending, pending_cancelled,
}
use sonicwall_sdk.Examples.Device.{runs, calm, slow, cancelling, logged_in, session}
use sonicwall_sdk.Prelude.{some}

abbrev counts : Exec Session ℕ
counts s = (ok 3, s)

abbrev fails : Exec Session ℕ
fails s = (err (timeout "slow"), s)

abbrev inside : Session
inside = session (some "t0") true 1

pending_failed_example :
    let t = (aenter calm logged_in).1 in
    Sent (HasMethod (site t) "DELETE") t.log (pending calm fails logged_in).1.log
    × (((pending calm fails logged_in).0 ≡ err (timeout "slow"))
        ⊎ ((pending calm fails logged_in).0 ≡ err cancelled))
unfolding runs
pending_failed_example =
    pending_failed calm fails logged_in {entered = true} {e = timeout "slow"} refl refl refl

pending_returned_example :
    ((commit_pending calm (shallower (aenter calm logged_in).1)).0 ≡ ok tt) × ◌≡◌ {A = ℕ} 3 3
unfolding runs
pending_returned_example =
    pending_returned calm counts logged_in {entered = true} {a = 3} {b = 3} refl refl refl refl

pending_nested_example :
    pending calm counts inside
    ≡ ((counts (deeper inside)).0, record (counts (deeper inside)).1 { depth = inside.depth })
pending_nested_example = pending_nested calm counts inside (omega arith) refl

depth-pending_example : (pending calm fails logged_in).1.depth ≡ 0
unfolding runs
depth-pending_example = depth-pending calm fails logged_in {entered = true} refl refl

pending_cancelled_example :
    (cancelled ≡ cancelled)
    × (pending cancelling counts logged_in ≡ (err cancelled, (aenter cancelling logged_in).1))
    × ((pending cancelling counts logged_in).1.depth ≡ logged_in.depth + 1)
unfolding runs
pending_cancelled_example = pending_cancelled cancelling counts logged_in {e = cancelled} refl

abbrev late : Error
late = connection_error "Request to https://fw/api/sonicos/config/pending timed out: slow"

pending_uncommitted_example : pending slow counts logged_in ≡ (
  err (commit_error (String.◌++◌ "Failed to commit pending configuration: " (error_text late))),
  (commit_pending slow (shallower (aenter slow logged_in).1)).1,
)
unfolding runs
pending_uncommitted_example =
    pending_uncommitted slow counts logged_in {entered = true} {a = 3} {e = late} refl refl refl
      refl refl

-- A request whose result is dropped.
abbrev ask : String → Exec Session (Unit {0})
ask path = do request calm "GET" path empty; pure tt

ask-IsBlind : (path : String) → IsBlind (ask path)
ask-IsBlind path = IsBlind-bind _ _ (request-IsBlind calm "GET" path empty) (λ _. IsBlind-pure tt)

-- A request, and another in a context of its own.
abbrev two_levels : Script
two_levels =
    Script.seq (Script.act (ask "/version") (ask-IsBlind "/version"))
      (Script.nest (Script.act (ask "/zones") (ask-IsBlind "/zones")))

pending-flat_example :
    pending calm (nested calm two_levels) logged_in ≡ pending calm (flat two_levels) logged_in
pending-flat_example = pending-flat calm two_levels logged_in
