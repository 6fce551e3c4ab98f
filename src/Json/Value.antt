-- ===== src/Json/Value.antt =====
-- JSON data as Python objects.
use sonicwall_sdk.Prelude.{
  ℕ, String, Bool, true, false, not, ◌||◌, ◌&&◌, Option, none, some, List, [], ◌∷◌, ◌==◌, str_eq,
  if◌then◌else◌,
}

-- `negsuc n` is -(n + 1).
pub data ℤ : Type 0 where
  pos : ℕ → ℤ
  negsuc : ℕ → ℤ

-- `float whole fractional` is a number that JSON wrote with a fraction or an exponent: its part
-- before the point, and whether something else than 0 stands behind it.
mutual
  pub data Value : Type 0 where
    null : Value
    bool : Bool → Value
    int : ℤ → Value
    float : ℤ → Bool → Value
    str : String → Value
    obj : Fields → Value
    arr : Items → Value

  pub data Fields : Type 0 where
    end : Fields
    field : String → Value → Fields → Fields

  pub data Items : Type 0 where
    nil : Items
    cons : Value → Items → Items

abbrev pub to_list : Items → List Value
to_list nil = []
to_list (cons v xs) = v ∷ to_list xs

abbrev pub of_list : List (String × Value) → Fields
of_list [] = end
of_list ((k, v) ∷ l) = field k v (of_list l)

-- A `dict` display.
abbrev pub dict : List (String × Value) → Value
dict l = obj (of_list l)

-- A `list` display with one element.
abbrev pub singleton : Value → Value
singleton v = arr (cons v nil)

abbrev pub nat : ℕ → Value
nat n = int (pos n)

-- `d.get(k)` on a `dict`.
unfoldable pub lookup : String → Fields → Option Value
lookup k end = none
lookup k (field j v fs) = if str_eq j k then some v else lookup k fs

abbrev pub is_dict : Value → Bool
is_dict (obj _) = true
is_dict _ = false

abbrev pub is_str : Value → Bool
is_str (str _) = true
is_str _ = false

abbrev is_zero : ℤ → Bool
is_zero (pos n) = n == 0
is_zero (negsuc n) = false

abbrev is_empty : String → Bool
is_empty s = str_eq s ""

-- `bool(v)`
unfoldable pub truthy : Value → Bool
truthy null = false
truthy (bool b) = b
truthy (int n) = not (is_zero n)
truthy (float n fractional) = fractional || not (is_zero n)
truthy (str s) = not (str_eq s "")
truthy (arr nil) = false
truthy (arr (cons _ _)) = true
truthy (obj end) = false
truthy (obj (field _ _ _)) = true

-- The truth of an `str | None`.
abbrev pub nonempty : Option String → Bool
nonempty none = false
nonempty (some s) = not (str_eq s "")

abbrev eq_pos : ℤ → ℕ → Bool
eq_pos (pos m) n = m == n
eq_pos (negsuc m) n = false

-- `v == n` for a number `n` of the program.
unfoldable pub equals_nat : Value → ℕ → Bool
equals_nat (bool true) n = n == 1
equals_nat (bool false) n = n == 0
equals_nat (int m) n = eq_pos m n
equals_nat (float m fractional) n = not fractional && eq_pos m n
equals_nat _ n = false

-- `v == s` for a text `s` of the program.
abbrev pub equals_str : Value → String → Bool
equals_str (str t) s = str_eq t s
equals_str _ s = false

abbrev pub opt_str : Option String → Value
opt_str none = null
opt_str (some s) = str s
