-- ===== src/Auth/Digest/Header/Readback.antt =====
-- What a server reads from the header of `_build_digest_auth_header`, by the scanner of challenges.
use Prim.Native.Char.{code}
use Prim.Native.String.{◌++◌}
use mathlib.Core.List.{[], ◌∷◌, ◌++◌ as append}
use sonicwall_sdk.Prelude.{
  String, Bool, true, false, some, ◌==◌, str_eq, if◌then◌else◌, ◌≡◌, refl, Bool-cases, inl, inr,
}
use sonicwall_sdk.Prelude.Text.{ends_with, contains, codes, upper_text}
use sonicwall_sdk.Prelude.Text.Lines.{ends_with-append, ends_with-cons}
use sonicwall_sdk.Errors.{ok}
use sonicwall_sdk.Url.{urlparse}
use sonicwall_sdk.Transport.{Env}
use sonicwall_sdk.Auth.Digest.{
  Params, lookup, is_quotable, is_bare, nc, header_text, parse_digest_challenge, or_text,
  algorithm_of, uri_of, ha1, ha2, digest_response, build_digest_auth_header,
}
use sonicwall_sdk.Auth.Digest.Header.{IsClean, read_items, Reads-opaque}
use sonicwall_sdk.Auth.Digest.Header.Items.{Reads-end}
use sonicwall_sdk.Prelude.Text.Runs.{AllOf}

-- A value that stands between quotes.
abbrev pub IsQuotable : String → Type 0
IsQuotable = AllOf is_quotable

-- A value that stands without them.
abbrev pub IsBare : String → Type 0
IsBare String.[] = ⊥
IsBare (String.◌∷◌ d w) = ((code d == b'"') ≡ false) × AllOf is_bare (String.◌∷◌ d w)

-- The parameters of a header, with `opaque` if it is there.
abbrev pub fields : String → String → String → String → String → String → String → String → Params
fields username realm nonce uri algorithm cnonce response opaque =
    append
      (("username", username)
        ∷ ("realm", realm)
        ∷ ("nonce", nonce)
        ∷ ("uri", uri)
        ∷ ("algorithm", algorithm)
        ∷ ("qop", "auth-int")
        ∷ ("nc", nc)
        ∷ ("cnonce", cnonce)
        ∷ ("response", response)
        ∷ [])
      (if str_eq opaque "" then [] else ("opaque", opaque) ∷ [])

opaque-ends :
    (opaque : String) → ends_with b'"' (String.◌∷◌ "\"" (", opaque=\"" ++ (opaque ++ "\""))) ≡ true
unfolding ends_with
opaque-ends opaque =
    ends_with-cons b'"' "\"" (", opaque=\"" ++ (opaque ++ "\"")) (
      ends_with-append b'"' ", opaque=\"" (opaque ++ "\"") (ends_with-append b'"' opaque "\"" refl))

module _ (username realm nonce uri cnonce response opaque : String) (u : IsQuotable username)
    (r : IsQuotable realm) (n : IsQuotable nonce) (i : IsQuotable uri) (c : IsQuotable cnonce)
    (x : IsQuotable response) (o : IsQuotable opaque) where
  header_fields :
      (algorithm : String)
      → IsBare algorithm
      → parse_digest_challenge (
          header_text username realm nonce uri algorithm cnonce response
          ++ (if str_eq opaque "" then "" else ", opaque=\"" ++ (opaque ++ "\"")))
        ≡ fields username realm nonce uri algorithm cnonce response opaque
  unfolding ends_with
  header_fields String.[] b = absurd b
  header_fields (String.◌∷◌ d w) b =
      let v : IsClean username realm nonce uri d w cnonce response = record {
        free_username = u;
        free_realm = r;
        free_nonce = n;
        free_uri = i;
        bare = b.1;
        unquoted = b.0;
        free_cnonce = c;
        free_response = x;
      } in
      elim (Bool-cases (str_eq opaque "")) [
        | inl y ↦
            rw y (read_items username realm nonce uri d w cnonce response "" _ v refl (Reads-end _))
        | inr z ↦ rw z (
            read_items username realm nonce uri d w cnonce response _ _ v (opaque-ends opaque)
              (Reads-opaque username realm nonce uri d w cnonce response opaque o))
      ]

-- The algorithm that the header names, the hash that it stands for, and the response.
abbrev pub algorithm_text : Params → String
algorithm_text challenge = upper_text (or_text "MD5" (lookup "algorithm" challenge))

abbrev pub hash_of : Env → Params → String → String
hash_of env challenge =
    if contains (codes "SHA-256") (algorithm_of challenge) then env.sha256 else env.md5

abbrev pub response_of :
    Env → String → String → String → String → String → String → Params → String → String → String
response_of env cnonce method url body username password challenge realm nonce =
    let h = hash_of env challenge in
    digest_response h
      (ha1 h (contains (codes "SESS") (algorithm_of challenge)) username realm password nonce
        cnonce)
      nonce cnonce (ha2 h method (uri_of (urlparse url)) body)

module _ (env : Env) (hex : (s : String) → IsQuotable (env.sha256 s) × IsQuotable (env.md5 s)) where
  hash-IsQuotable : (b : Bool) (s : String) → IsQuotable ((if b then env.sha256 else env.md5) s)
  hash-IsQuotable true s = (hex s).0
  hash-IsQuotable false s = (hex s).1

  -- For a challenge with a realm and a nonce, the header is built, and whoever reads it as the client
  -- reads challenges finds the user, the realm, the nonce, the path and query of the request, the
  -- algorithm in capitals, `auth-int`, the counter, the client's nonce, the response, and `opaque` if
  -- the challenge has one that is not empty. The values between quotes hold no quote, which is what
  -- the digests of hashlib are assumed to do, and the algorithm is a bare word.
  pub build-readback :
      (cnonce method url body username password : String) (challenge : Params)
      (realm nonce : String)
      → lookup "realm" challenge ≡ some realm
      → lookup "nonce" challenge ≡ some nonce
      → let opaque = or_text "" (lookup "opaque" challenge) in
        let uri = uri_of (urlparse url) in
        IsQuotable username
          × IsQuotable realm
          × IsQuotable nonce
          × IsQuotable uri
          × IsQuotable cnonce
          × IsQuotable opaque
        → IsBare (algorithm_text challenge)
        → (header : String) × (build_digest_auth_header env cnonce method url body username password
              challenge
            ≡ ok header)
          × (parse_digest_challenge header
              ≡ fields username realm nonce uri
                  (algorithm_text challenge)
                  cnonce
                  (response_of env cnonce method url body username password challenge realm nonce)
                  opaque)
  unfolding build_digest_auth_header
  build-readback cnonce method url body username password challenge realm nonce p q free b =
      let opaque = or_text "" (lookup "opaque" challenge) in
      let response =
        response_of env cnonce method url body username password challenge realm nonce in
      (
        header_text username realm nonce (uri_of (urlparse url)) (algorithm_text challenge) cnonce
              response
            ++ (if str_eq opaque "" then "" else ", opaque=\"" ++ (opaque ++ "\"")),
        rw (p, q) refl,
        header_fields username realm nonce (uri_of (urlparse url)) cnonce response opaque free.0
            free.1 free.2 free.3 free.4
            (hash-IsQuotable (contains (codes "SHA-256") (algorithm_of challenge)) _) free.5
            (algorithm_text challenge) b,
      )
