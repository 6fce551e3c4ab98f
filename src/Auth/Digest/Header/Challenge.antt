-- ===== src/Auth/Digest/Header/Challenge.antt =====
-- A challenge as a device writes it, with each value between quotes, and what
-- `_parse_digest_challenge` reads from it.
use Prim.Native.Nat.{suc}
use Prim.Native.Char.{Char, code}
use Prim.Native.String.{count, ◌++◌}
use mathlib.Core.List.{[], ◌∷◌, ◌++◌ as append, append_assoc}
use mathlib.Core.Path.{subst}
use sonicwall_sdk.Prelude.{String, true, false, str_eq, ◌≡◌, refl, sym, ap, ◌∙◌, arith}
use sonicwall_sdk.Prelude.Text.{ends_with, is_space}
use sonicwall_sdk.Prelude.Text.Lines.{ends_with-append}
use sonicwall_sdk.Prelude.Text.Runs.{onto, append-onto, AllOf}
use sonicwall_sdk.Auth.Digest.{Params, is_word, is_quotable, assign, scan, parse_digest_challenge}
use sonicwall_sdk.Auth.Digest.Header.{scanned}
use sonicwall_sdk.Auth.Digest.Header.Items.{Reads, Reads-end, Reads-quoted, Reads-separator}

-- `name="value", name="value", …`
abbrev pub params_text : Params → String
params_text [] = ""
params_text ((k, v) ∷ []) = k ++ ("=\"" ++ (v ++ "\""))
params_text ((k, v) ∷ q ∷ l) = k ++ ("=\"" ++ (v ++ ("\", " ++ params_text (q ∷ l))))

-- The name is a word, and there is no quote in the value.
abbrev pub IsParam : String × String → Type 0
IsParam (String.[], v) = ⊥
IsParam (String.◌∷◌ c k, v) = AllOf is_word (String.◌∷◌ c k) × AllOf is_quotable v

abbrev pub AreParams : Params → Type 0
AreParams [] = Unit {0}
AreParams (p ∷ l) = IsParam p × AreParams l

-- No parameter has this name.
abbrev pub IsNew : String → Params → Type 0
IsNew k [] = Unit {0}
IsNew k ((j, v) ∷ l) = (str_eq j k ≡ false) × IsNew k l

-- No name stands twice, neither in the list nor in the list and before it.
abbrev pub AreNew : Params → Params → Type 0
AreNew before [] = Unit {0}
AreNew before ((k, v) ∷ l) = IsNew k before × AreNew (append before ((k, v) ∷ [])) l

assign_new :
    (k v : String) (params : Params)
    → IsNew k params
    → assign k v params ≡ append params ((k, v) ∷ [])
unfolding assign
assign_new k v [] h = refl
assign_new k v ((j, w) ∷ l) h = rw (h.0, assign_new k v l h.1) refl

module _ (c : Char) (k v : String) (word : AllOf is_word (String.◌∷◌ c k))
    (free : AllOf is_quotable v) where
  param-onto :
      (t : String)
      → String.◌∷◌ c k ++ ("=\"" ++ (v ++ t))
        ≡ String.◌∷◌ c (onto k (String.◌∷◌ "=" (String.◌∷◌ "\"" (onto v t))))
  unfolding onto
  param-onto t =
      rw (append-onto v t, append-onto "=\"" (onto v t))
        (append-onto (String.◌∷◌ c k) (String.◌∷◌ "=" (String.◌∷◌ "\"" (onto v t))))

  -- A parameter with a new name, and what is read after it.
  Reads-param :
      (rest : String) (before result : Params)
      → IsNew (String.◌∷◌ c k) before
      → Reads rest (append before ((String.◌∷◌ c k, v) ∷ [])) result
      → Reads (String.◌∷◌ c k ++ ("=\"" ++ (v ++ String.◌∷◌ "\"" rest))) before result
  Reads-param rest before result new h = rw (param-onto (String.◌∷◌ "\"" rest)) (
      Reads-quoted c k rest before word v result free
        (rw (assign_new (String.◌∷◌ c k) v before new) h))

comma : (t : String) → "\", " ++ t ≡ String.◌∷◌ "\"" (String.◌∷◌ "," (String.◌∷◌ " " t))
unfolding onto
comma t = append-onto "\", " t

Reads-params :
    (p : String × String) (l before : Params)
    → AreParams (p ∷ l)
    → AreNew before (p ∷ l)
    → Reads (params_text (p ∷ l)) before (append before (p ∷ l))
Reads-params (String.[], v) l before h new = absurd h.0
Reads-params (String.◌∷◌ c k, v) [] before h new =
    Reads-param c k v h.0.0 h.0.1 "" before _ new.0 (Reads-end _)
Reads-params (String.◌∷◌ c k, v) (q ∷ l) before h new =
    let text = params_text (q ∷ l) in
    let known = append before ((String.◌∷◌ c k, v) ∷ []) in
    subst
      (λ t.
        Reads (String.◌∷◌ c k ++ ("=\"" ++ (v ++ t))) before
          (append before ((String.◌∷◌ c k, v) ∷ q ∷ l)))
      (sym (comma text))
      (Reads-param c k v h.0.0 h.0.1 (String.◌∷◌ "," (String.◌∷◌ " " text)) before _ new.0 (
        Reads-separator text known _ (
          subst (Reads text known) (append_assoc before ((String.◌∷◌ c k, v) ∷ []) (q ∷ l))
            (Reads-params q l known h.1 new.1))))

params_text-ends : (p : String × String) (l : Params) → ends_with b'"' (params_text (p ∷ l)) ≡ true
unfolding ends_with
params_text-ends (k, v) [] =
    ends_with-append b'"' k ("=\"" ++ (v ++ "\""))
      (ends_with-append b'"' "=\"" (v ++ "\"") (ends_with-append b'"' v "\"" refl))
params_text-ends (k, v) (q ∷ l) =
    let t = params_text (q ∷ l) in
    ends_with-append b'"' k ("=\"" ++ (v ++ ("\", " ++ t))) (
      ends_with-append b'"' "=\"" (v ++ ("\", " ++ t)) (
        ends_with-append b'"' v ("\", " ++ t)
          (ends_with-append b'"' "\", " t (params_text-ends q l))))

word-visible : (c : Char) → is_word (code c) ≡ true → is_space (code c) ≡ false
word-visible c h = ground arith

-- The text begins with the first character of the first name.
param-shape :
    (c : Char) (k v : String) (l : Params)
    → (t : String) × (params_text ((String.◌∷◌ c k, v) ∷ l) ≡ String.◌∷◌ c t)
unfolding onto
param-shape c k v [] = (_, append-onto (String.◌∷◌ c k) _)
param-shape c k v (q ∷ l) = (_, append-onto (String.◌∷◌ c k) _)

read_params :
    (p : String × String) (l : Params)
    → AreParams (p ∷ l)
    → AreNew [] (p ∷ l)
    → parse_digest_challenge (onto "Digest " (params_text (p ∷ l))) ≡ p ∷ l
read_params (String.[], v) l h new = absurd h.0
read_params (String.◌∷◌ c k, v) l h new =
    let (t, e) = param-shape c k v l in
    ap (λ (q : String). parse_digest_challenge (onto "Digest " q)) e
    ∙ scanned c t (word-visible c h.0.0.0)
        (subst (λ (q : String). ends_with b'"' q ≡ true) e (params_text-ends (String.◌∷◌ c k, v) l))
    ∙ ap (λ (q : String). scan (suc (count q)) q []) (sym e)
    ∙ Reads-params (String.◌∷◌ c k, v) l [] h new _ (omega arith)

-- A challenge is read as it was written: `Digest`, and parameters with words for names, none of which
-- stands twice, and with values between quotes that have no quote in them, separated by a comma and a
-- space, are parsed to exactly these parameters in this order.
pub parse_digest_challenge-params_text :
    (p : String × String) (l : Params)
    → AreParams (p ∷ l)
    → AreNew [] (p ∷ l)
    → parse_digest_challenge ("Digest " ++ params_text (p ∷ l)) ≡ p ∷ l
parse_digest_challenge-params_text p l h new =
    ap parse_digest_challenge (append-onto "Digest " (params_text (p ∷ l))) ∙ read_params p l h new
