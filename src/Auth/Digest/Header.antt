-- ===== src/Auth/Digest/Header.antt =====
-- The Authorization header of `_build_digest_auth_header`, read back by `_parse_digest_challenge`.
pub mod Items
pub mod Challenge
pub mod Readback
use Prim.Native.Nat.{ℕ, suc, ◌≤◌}
use Prim.Native.Char.{Char, code}
use Prim.Native.String.{count, ◌++◌}
use mathlib.Core.List.{List, [], ◌∷◌, ◌++◌ as append}
use text.Mathlib.TextLemmas.{nil-append, append_assoc}
use sonicwall_sdk.Prelude.{
  String, Bool, true, false, Option, none, some, ◌==◌, str_eq, if◌then◌else◌, ◌≡◌, refl, sym, ap,
  ◌∙◌, arith,
}
use sonicwall_sdk.Prelude.Text.{
  span, ends_with, strip, lstrip, rstrip, is_space, contains, begins_with, same_codes,
}
use sonicwall_sdk.Prelude.Text.Lines.{ends_with-cons, str_eq-cons, rstrip-ends}
use sonicwall_sdk.Auth.Digest.{
  Params, is_quotable, is_bare, assign, nc, header_text, drop_scheme, scan, parse_digest_challenge,
}
use sonicwall_sdk.Auth.Digest.Header.Items.{
  Reads, Reads-end, Reads-quoted, Reads-bare, Reads-separator,
}
use sonicwall_sdk.Prelude.Text.Runs.{onto, append-onto, AllOf, onto-ends}

-- The texts, one after the other, and then `t`.
unfoldable pub pile : List String → String → String
unfolding onto
pile [] t = t
pile (a ∷ l) t = onto a (pile l t)

join : List String → String
join [] = ""
join (a ∷ []) = a
join (a ∷ b ∷ l) = a ++ join (b ∷ l)

join-append : (l : List String) (t : String) → join l ++ t ≡ pile l t
unfolding join pile
join-append [] t = nil-append t
join-append (a ∷ []) t = append-onto a t
join-append (a ∷ b ∷ l) t =
    append_assoc a (join (b ∷ l)) t
    ∙ append-onto a (join (b ∷ l) ++ t)
    ∙ ap (onto a) (join-append (b ∷ l) t)

pile-ends :
    (x : ℕ) (l : List String) (t : String) → ends_with x t ≡ true → ends_with x (pile l t) ≡ true
unfolding pile
pile-ends x [] t h = h
pile-ends x (a ∷ l) t h = onto-ends x a (pile l t) (pile-ends x l t h)

-- What the parser scans of a text that begins with the scheme and ends with a quote.
module _ (c : Char) (s : String) (visible : is_space (code c) ≡ false)
    (ends : ends_with b'"' (String.◌∷◌ c s) ≡ true) where
  strip_lem : strip (onto "Digest " (String.◌∷◌ c s)) ≡ onto "Digest " (String.◌∷◌ c s)
  unfolding lstrip
  strip_lem =
      unfold onto in
      rstrip-ends is_space b'"' (onto "Digest " (String.◌∷◌ c s)) refl
        (onto-ends b'"' "Digest " (String.◌∷◌ c s) ends)

  drop_scheme_lem : drop_scheme (onto "Digest " (String.◌∷◌ c s)) ≡ String.◌∷◌ c s
  unfolding drop_scheme onto
  drop_scheme_lem = rw (str_eq-cons " " (String.◌∷◌ c s), visible) refl

  scanned :
      parse_digest_challenge (onto "Digest " (String.◌∷◌ c s))
      ≡ scan (suc (count (String.◌∷◌ c s))) (String.◌∷◌ c s) []
  unfolding parse_digest_challenge
  scanned =
      ap (λ (q : String). let body = drop_scheme q in scan (suc (count body)) body []) strip_lem
      ∙ ap (λ (body : String). scan (suc (count body)) body []) drop_scheme_lem

module _ (username realm nonce uri : String) (d : Char) (w cnonce response : String) where
  -- The algorithm is not empty.
  abbrev algorithm : String
  algorithm = String.◌∷◌ d w

  -- The header after its scheme, and what it says.
  abbrev items : List String
  items =
      "username=\"" ∷ username ∷ "\", realm=\"" ∷ realm ∷ "\", nonce=\"" ∷ nonce ∷ "\", uri=\""
      ∷ uri ∷ "\", algorithm=" ∷ algorithm ∷ ", qop=auth-int, nc=" ∷ nc ∷ ", cnonce=\"" ∷ cnonce
      ∷ "\", response=\"" ∷ response ∷ []

  abbrev pub said : Params
  said =
      ("username", username)
      ∷ ("realm", realm)
      ∷ ("nonce", nonce)
      ∷ ("uri", uri)
      ∷ ("algorithm", algorithm)
      ∷ ("qop", "auth-int")
      ∷ ("nc", nc)
      ∷ ("cnonce", cnonce)
      ∷ ("response", response)
      ∷ []

  header_text-append :
      (t : String)
      → header_text username realm nonce uri algorithm cnonce response ++ t
        ≡ pile ("Digest " ∷ items) (String.◌∷◌ "\"" t)
  unfolding header_text join pile
  header_text-append t =
      join-append
        ("Digest username=\"" ∷ username ∷ "\", realm=\"" ∷ realm ∷ "\", nonce=\"" ∷ nonce
          ∷ "\", uri=\"" ∷ uri ∷ "\", algorithm=" ∷ algorithm ∷ ", qop=auth-int, nc=" ∷ nc
          ∷ ", cnonce=\"" ∷ cnonce ∷ "\", response=\"" ∷ response ∷ "\"" ∷ [])
        t

  -- No value in quotes has a quote in it, and the algorithm is a bare word.
  pub record IsClean : Type 0 where
    pub free_username : AllOf is_quotable username
    pub free_realm : AllOf is_quotable realm
    pub free_nonce : AllOf is_quotable nonce
    pub free_uri : AllOf is_quotable uri
    pub bare : AllOf is_bare algorithm
    pub unquoted : (code d == b'"') ≡ false
    pub free_cnonce : AllOf is_quotable cnonce
    pub free_response : AllOf is_quotable response

  Reads-items :
      (t : String) (result : Params)
      → IsClean
      → Reads t said result
      → Reads (pile items (String.◌∷◌ "\"" t)) [] result
  unfolding pile assign
  Reads-items t result v h =
      let next = λ (rest : String) (params : Params). Reads-separator rest params result in
      Reads-quoted "u" "sername" _ [] (ground arith) username result v.free_username (
        next _ _ (
          Reads-quoted "r" "ealm" _ _ (ground arith) realm result v.free_realm (
            next _ _ (
              Reads-quoted "n" "once" _ _ (ground arith) nonce result v.free_nonce (
                next _ _ (
                  Reads-quoted "u" "ri" _ _ (ground arith) uri result v.free_uri (
                    next _ _ (
                      Reads-bare "a" "lgorithm" _ _ (ground arith) d w result v.unquoted v.bare (
                        next _ _ (
                          Reads-bare "q" "op" _ _ (ground arith) "a" "uth-int" result refl
                            (ground arith)
                            (next _ _ (
                              Reads-bare "n" "c" _ _ (ground arith) "0" "0000001" result refl
                                (ground arith)
                                (next _ _ (
                                  Reads-quoted "c" "nonce" _ _ (ground arith) cnonce result
                                    v.free_cnonce
                                    (next _ _ (
                                      Reads-quoted "r" "esponse" t _ (ground arith) response result
                                        v.free_response h))))))))))))))))

  -- The header and what may stand behind it.
  pub read_items :
      (t : String) (result : Params)
      → IsClean
      → ends_with b'"' (String.◌∷◌ "\"" t) ≡ true
      → Reads t said result
      → parse_digest_challenge (header_text username realm nonce uri algorithm cnonce response ++ t)
        ≡ result
  unfolding pile onto
  read_items t result v ends h =
      let body = pile items (String.◌∷◌ "\"" t) in
      ap parse_digest_challenge (header_text-append t)
      ∙ scanned "u" _ refl (pile-ends b'"' items (String.◌∷◌ "\"" t) ends)
      ∙ Reads-items t result v h (suc (count body)) (omega arith)

  pub Reads-opaque :
      (opaque : String)
      → AllOf is_quotable opaque
      → Reads (", opaque=\"" ++ (opaque ++ "\"")) said (append said (("opaque", opaque) ∷ []))
  unfolding onto assign
  Reads-opaque opaque free =
      rw (append-onto opaque "\"", append-onto ", opaque=\"" (onto opaque "\""))
        (Reads-separator _ _ _
          (Reads-quoted "o" "paque" "" said (ground arith) opaque _ free (Reads-end _)))
