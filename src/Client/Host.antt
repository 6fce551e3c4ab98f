-- ===== src/Client/Host.antt =====
-- The base URL that the client makes of its host argument.
use Prim.Native.Char.{code}
use sonicwall_sdk.Prelude.{String, Bool, true, not, ◌&&◌, ◌≡◌, refl, Bool-cases, inl, inr}
use sonicwall_sdk.Prelude.Text.{is_slash, span}
use sonicwall_sdk.Client.{normalize_host, trim, split_host, before_slash}

-- The text has no slash.
pub no_slash : String → Bool
no_slash String.[] = true
no_slash (String.◌∷◌ c s) = not (is_slash (code c)) && no_slash s

span-no_slash : (s : String) → no_slash (span (λ c. not (is_slash c)) s).0 ≡ true
unfolding span no_slash
span-no_slash String.[] = refl
span-no_slash (String.◌∷◌ c s) = elim (Bool-cases (is_slash (code c))) [
  | inl y ↦ rw y
  | inr n ↦ rw n (rw n (span-no_slash s))
]

-- Whatever the host argument is, the host of the base URL has no slash.
pub normalize_host-no_slash : (host : String) → no_slash (normalize_host host).1 ≡ true
unfolding normalize_host before_slash
normalize_host-no_slash host = span-no_slash (trim (split_host (trim host)).1)
