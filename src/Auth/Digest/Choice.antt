-- ===== src/Auth/Digest/Choice.antt =====
-- Which challenge `_pick_challenge` answers.
use mathlib.Core.List.{[], ◌∷◌}
use sonicwall_sdk.Prelude.{ℕ, ◌≤◌, List}
use sonicwall_sdk.Auth.Digest.{Params, priority}

-- The challenge stands in the list.
pub data Offered (c : Params) : List Params → Type 0 where
  here : {l : List Params} → Offered c (c ∷ l)
  there : {d : Params} {l : List Params} → Offered c l → Offered c (d ∷ l)

-- No challenge of the list has a priority value below the bound.
pub data NoneBelow (bound : ℕ) : List Params → Type 0 where
  empty : NoneBelow bound []
  more :
      {d : Params} {l : List Params}
      → bound ≤ priority d
      → NoneBelow bound l
      → NoneBelow bound (d ∷ l)
