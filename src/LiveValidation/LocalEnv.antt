-- ===== src/LiveValidation/LocalEnv.antt =====
-- `load_local_env` of _live_validation.py. The directories are the current one and its parents;
-- python-dotenv is a parameter: what it makes of the variables, from the file of a directory or from
-- the one that it finds by itself.
use mathlib.Core.List.{[], ◌∷◌}
use sonicwall_sdk.Prelude.{
  String, Bool, true, false, Option, none, some, List, str_eq, if◌then◌else◌, ◌≡◌, refl,
}
use sonicwall_sdk.Errors.{ok}
use sonicwall_sdk.LiveValidation.{Variables, LiveCredentials, env_first, resolve_live_credentials}

module _ (is_file : String → Bool) (load_dotenv : Option String → Variables → Variables) where
  -- The loop, and what follows it
  unfoldable pub load_from : List String → Variables → Variables
  load_from [] getenv = load_dotenv none getenv
  load_from (directory ∷ directories) getenv =
      let rest = load_from directories getenv in
      if is_file directory then load_dotenv (some directory) getenv else rest

  -- `load_local_env`, with python-dotenv installed or not
  unfoldable pub load_local_env : Bool → List String → Variables → Variables
  unfolding load_from
  load_local_env installed directories getenv =
      let loaded = load_from directories getenv in if installed then loaded else getenv

  -- With `override=False` python-dotenv keeps the variables that are set.
  module _
      (keeps : (path : Option String) (getenv : Variables) (name value : String)
        → getenv name ≡ some value
        → load_dotenv path getenv name ≡ some value) where
    load_from_keeps :
        (directories : List String) (getenv : Variables) (name value : String)
        → getenv name ≡ some value
        → load_from directories getenv name ≡ some value
    unfolding load_from
    load_from_keeps [] getenv name value h = keeps none getenv name value h
    load_from_keeps (d ∷ ds) getenv name value h =
        either (is_file d) (load_dotenv (some d) getenv) (load_from ds getenv)
          (keeps (some d) getenv name value h) (load_from_keeps ds getenv name value h)
      where
        either :
            (b : Bool) (x y : Variables)
            → x name ≡ some value
            → y name ≡ some value
            → (if b then x else y) name ≡ some value
        either true x y p q = p
        either false x y p q = q

    -- A variable of the shell has its value after `load_local_env`.
    load_local_env_keeps :
        (installed : Bool) (directories : List String) (getenv : Variables) (name value : String)
        → getenv name ≡ some value
        → load_local_env installed directories getenv name ≡ some value
    unfolding load_local_env
    load_local_env_keeps true directories getenv name value h =
        load_from_keeps directories getenv name value h
    load_local_env_keeps false directories getenv name value h = h

    -- So a password of the shell under the first name is the one that is used, whatever the file says.
    shell_password :
        (installed : Bool) (directories : List String) (getenv : Variables) (password : String)
        → getenv "SONICWALL_PASS" ≡ some password
        → str_eq password "" ≡ false
        → (creds : LiveCredentials) × (resolve_live_credentials
              (load_local_env installed directories getenv)
              none
              none
              none
              true
            ≡ ok creds)
          × (creds.password ≡ password)
    unfolding resolve_live_credentials
    shell_password installed directories getenv password h n =
        let kept = load_local_env_keeps installed directories getenv "SONICWALL_PASS" password h in
        let loaded = load_local_env installed directories getenv in
        (
          record {
            host = env_first loaded ("SONICWALL_HOST" ∷ "SW_HOST" ∷ []) "192.168.0.1";
            username = env_first loaded ("SONICWALL_USER" ∷ "SW_USER" ∷ []) "admin";
            password = password;
          },
          rw (kept, n) (rw n refl),
          refl,
        )
