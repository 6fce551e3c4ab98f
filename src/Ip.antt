-- ===== src/Ip.antt =====
-- IPv4 addresses and networks as models/address_object.py and models/interface.py use those of
-- Python's `ipaddress`: an address is a number below 2 ^ 32.
pub mod Roundtrip
use Prim.Native.Nat.{ℕ, zero, suc, ◌+◌, ◌-◌, ◌*◌, ◌/◌, ◌%◌, ◌^◌}
use Prim.Native.Char.{Char, code}
use Prim.Native.String.{◌++◌, count}
use mathlib.Core.List.{[], ◌∷◌}
use sonicwall_sdk.Prelude.{
  String, Bool, true, false, not, ◌&&◌, ◌||◌, Option, none, some, List, ◌==◌, ltb, leb, str_eq,
  if◌then◌else◌, ◌≡◌, refl,
}
use sonicwall_sdk.Prelude.Text.{show_nat}

-- `s.split(d)` for one character
abbrev push : Char → List String → List String
push c [] = String.◌∷◌ c String.[] ∷ []
push c (w ∷ ws) = String.◌∷◌ c w ∷ ws

unfoldable pub split_on : ℕ → String → List String
split_on d String.[] = String.[] ∷ []
split_on d (String.◌∷◌ c s) =
    let rest = split_on d s in if code c == d then String.[] ∷ rest else push c rest

-- `s.isascii() and s.isdigit()`, where `s` is not empty
unfoldable pub all_digits : String → Bool
all_digits String.[] = true
all_digits (String.◌∷◌ c s) = leb b'0' (code c) && leb (code c) b'9' && all_digits s

-- `int(s)` of digits
unfoldable pub digits_value : ℕ → String → ℕ
digits_value n String.[] = n
digits_value n (String.◌∷◌ c s) = digits_value (n * 10 + (code c - b'0')) s

abbrev leads_with_zero : String → Bool
leads_with_zero String.[] = false
leads_with_zero (String.◌∷◌ c s) = code c == b'0' && not (str_eq s "")

abbrev some_if : Bool → ℕ → Option ℕ
some_if true n = some n
some_if false n = none

-- An octet has one to three digits, no leading zero, and is at most 255.
unfoldable pub parse_octet : String → Option ℕ
unfolding all_digits digits_value
parse_octet s =
    let n = digits_value 0 s in
    some_if
      (not (str_eq s "") && all_digits s && leb (count s) 3 && not (leads_with_zero s) && leb n 255)
      n

abbrev join : Option ℕ → Option ℕ → Option ℕ → Option ℕ → Option ℕ
join (some a) (some b) (some c) (some d) = some (((a * 256 + b) * 256 + c) * 256 + d)
join _ _ _ _ = none

abbrev of_octets : List String → Option ℕ
of_octets (a ∷ b ∷ c ∷ d ∷ []) =
    join (parse_octet a) (parse_octet b) (parse_octet c) (parse_octet d)
of_octets _ = none

-- `IPv4Address(s)`
unfoldable pub parse_address : String → Option ℕ
parse_address s = of_octets (split_on b'.' s)

abbrev pub dotted : String → String → String → String → String
dotted a b c d = a ++ String.◌∷◌ "." (b ++ String.◌∷◌ "." (c ++ String.◌∷◌ "." d))

-- `str(address)`
unfoldable pub show_address : ℕ → String
show_address n =
    dotted (show_nat (n / 2 ^ 24)) (show_nat (n / 2 ^ 16 % 256)) (show_nat (n / 2 ^ 8 % 256))
      (show_nat (n % 256))

-- An `IPv4Network`, by its network address and prefix length.
pub record Network : Type 0 where
  pub network_address : ℕ
  pub prefix : ℕ

-- `network.netmask`
abbrev pub netmask : ℕ → ℕ
netmask prefix = 2 ^ 32 - 2 ^ (32 - prefix)

-- The prefix length whose mask has the value, from `prefix` down.
unfoldable pub find_prefix : ℕ → ℕ → Option ℕ
find_prefix zero n = some_if (n == netmask 0) 0
find_prefix (suc p) n =
    let rest = find_prefix p n in if n == netmask (suc p) then some (suc p) else rest

abbrev or_hostmask : Option ℕ → ℕ → Option ℕ
or_hostmask (some p) n = some p
or_hostmask none n = find_prefix 32 (2 ^ 32 - 1 - n)

abbrev of_mask_address : Option ℕ → Option ℕ
of_mask_address none = none
of_mask_address (some n) = or_hostmask (find_prefix 32 n) n

-- What follows the slash: a prefix length, a netmask, or a host mask.
unfoldable pub parse_mask : String → Option ℕ
parse_mask s =
    if not (str_eq s "") && all_digits s
    then some_if (leb (digits_value 0 s) 32) (digits_value 0 s)
    else of_mask_address (parse_address s)

abbrev pub masked : ℕ → ℕ → Network
masked n p = record { network_address = n - n % 2 ^ (32 - p); prefix = p }

abbrev of_parts : Option ℕ → Option ℕ → Option Network
of_parts (some n) (some p) = some (masked n p)
of_parts _ _ = none

abbrev of_slash : List String → Option Network
of_slash (a ∷ []) = of_parts (parse_address a) (some 32)
of_slash (a ∷ m ∷ []) = of_parts (parse_address a) (parse_mask m)
of_slash _ = none

-- `IPv4Network(s, strict=False)`
unfoldable pub parse_network : String → Option Network
parse_network s = of_slash (split_on b'/' s)

-- What a run unfolds.
unfoldable pub tests : Unit {0}
unfolding split_on all_digits digits_value parse_octet parse_address show_nat show_address
    find_prefix parse_mask parse_network
tests = tt

parses :
    parse_network "10.1.2.3/255.255.255.0"
    ≡ some (record { network_address = 0x0A010200; prefix = 24 })
unfolding tests
parses = refl

rejects : parse_address "10.1.02.3" ≡ none
unfolding tests
rejects = refl

shows : show_address 0x0AFFFEFD ≡ "10.255.254.253"
unfolding tests
shows = refl
