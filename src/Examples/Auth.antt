-- ===== src/Examples/Auth.antt =====
-- The theorems about `AuthManager` at concrete sessions.
use mathlib.Core.List.{[], ◌∷◌}
use sonicwall_sdk.Prelude.{String, arith, ◌≡◌, refl}
use sonicwall_sdk.Auth.Digest.{
  build_digest_auth_header, parse_digest_challenge, digest_response, Params,
}
use sonicwall_sdk.Prelude.Text.{upper_text}
use Prim.Native.String.{◌++◌}
use sonicwall_sdk.Url.{urlparse}
use sonicwall_sdk.Errors.{ok}
use sonicwall_sdk.Transport.{Env}
use sonicwall_sdk.Auth.Digest.Header.Challenge.{params_text, parse_digest_challenge-params_text}
use sonicwall_sdk.Auth.Digest.Header.Readback.{fields, build-readback}
use sonicwall_sdk.Examples.Device.{calm, runs}

-- The parameters of the challenge of the device.
abbrev offered : Params
offered = ("realm", "r") ∷ ("nonce", "n") ∷ ("qop", "auth-int") ∷ ("algorithm", "MD5") ∷ []

-- Hashes that give one hexadecimal digit.
abbrev short : Env
short = record calm { sha256 = λ s. "e"; md5 = λ s. "d" }

build-readback_example :
    (header : String) × (build_digest_auth_header short "c1" "POST" "https://fw/api/sonicos/auth" ""
        "admin" "secret" offered
      ≡ ok header)
    × (parse_digest_challenge header ≡ fields "admin" "r" "n" "/api/sonicos/auth" "MD5" "c1" "d" "")
unfolding runs upper_text urlparse digest_response
build-readback_example =
    build-readback short (λ s. ((refl, tt), (refl, tt))) "c1" "POST" "https://fw/api/sonicos/auth"
      "" "admin" "secret" offered "r" "n" refl refl (ground arith) (ground arith)

parse_digest_challenge-params_text_example :
    parse_digest_challenge ("Digest " ++ params_text offered) ≡ offered
parse_digest_challenge-params_text_example =
    parse_digest_challenge-params_text ("realm", "r")
      (("nonce", "n") ∷ ("qop", "auth-int") ∷ ("algorithm", "MD5") ∷ []) (ground arith)
      (ground arith)
