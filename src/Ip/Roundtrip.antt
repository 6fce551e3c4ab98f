-- ===== src/Ip/Roundtrip.antt =====
-- Addresses and networks are read back from what is printed for them.
use Prim.Native.Nat.{ℕ, zero, suc, ◌+◌, ◌*◌, ◌/◌, ◌%◌, ◌^◌, ◌<◌, ◌≤◌}
use Prim.Native.Char.{Char, code}
use Prim.Native.String.{◌++◌}
use mathlib.Core.List.{[], ◌∷◌}
use text.Mathlib.TextLemmas.{nil-append, cons-append}
use sonicwall_sdk.Prelude.{
  String, Bool, true, false, not, ◌&&◌, Option, none, some, ◌==◌, ltb, leb, str_eq, ◌≡◌, refl, ap,
  ◌∙◌, arith, Bool-cases, inl, inr, eq_iff,
}
use sonicwall_sdk.Prelude.Text.{show_nat}
use sonicwall_sdk.Ip.{
  split_on, all_digits, parse_octet, parse_address, show_address, dotted, masked, netmask,
  find_prefix, parse_mask, parse_network,
}

-- The text has no character `d`.
free : ℕ → String → Bool
free d String.[] = true
free d (String.◌∷◌ c s) = not (code c == d) && free d s

split_on-append :
    (d : ℕ) (a r : String) (c : Char)
    → free d a ≡ true
    → (code c == d) ≡ true
    → split_on d (a ++ String.◌∷◌ c r) ≡ a ∷ split_on d r
unfolding split_on free
split_on-append d String.[] r c h e = rw (nil-append (String.◌∷◌ c r)) (rw e)
split_on-append d (String.◌∷◌ b a) r c h e =
    rw (cons-append b a (String.◌∷◌ c r)) (ground (arith, split_on-append d a r c))

split_on-free : (d : ℕ) (a : String) → free d a ≡ true → split_on d a ≡ a ∷ []
unfolding split_on free
split_on-free d String.[] h = refl
split_on-free d (String.◌∷◌ c a) h = ground (arith, split_on-free d a)

abbrev reads : ℕ → Option ℕ → Bool
reads n none = false
reads n (some m) = m == n

-- The test holds of each number below.
each_below : (ℕ → Bool) → ℕ → Bool
each_below test zero = true
each_below test (suc k) = each_below test k && test k

each_below_lem :
    (test : ℕ → Bool) (k : ℕ) {n : ℕ} → n < k → each_below test k ≡ true → test n ≡ true
unfolding each_below
each_below_lem test zero below h = absurd (omega arith)
each_below_lem test (suc k) {n} below h = ground (arith, each_below_lem test k {n = n})

octet_test : ℕ → Bool
unfolding free parse_octet
octet_test n =
    reads n (parse_octet (show_nat n)) && free b'.' (show_nat n) && free b'/' (show_nat n)

octet_table : each_below octet_test 256 ≡ true
unfolding each_below octet_test show_nat
octet_table = refl

-- What is printed for an octet is read back, and holds neither a dot nor a slash.
record OctetText (n : ℕ) (s : String) : Type 0 where
  reads_back : parse_octet s ≡ some n
  no_dot : free b'.' s ≡ true
  no_slash : free b'/' s ≡ true

OctetText-of_test :
    (n : ℕ) (s : String) (o : Option ℕ)
    → parse_octet s ≡ o
    → reads n o && free b'.' s && free b'/' s ≡ true
    → OctetText n s
OctetText-of_test n s none e h = ground arith
OctetText-of_test n s (some m) e h = record {
  reads_back = ground arith;
  no_dot = ground arith;
  no_slash = ground arith;
}

show_nat-OctetText : (n : ℕ) → n < 256 → OctetText n (show_nat n)
unfolding octet_test
show_nat-OctetText n h =
    OctetText-of_test n (show_nat n) (parse_octet (show_nat n)) refl
      (each_below_lem octet_test 256 h octet_table)

module _ {a b c d : ℕ} {s t u v : String} where
  parse_address-dotted :
      OctetText a s
      → OctetText b t
      → OctetText c u
      → OctetText d v
      → parse_address (dotted s t u v) ≡ some (((a * 256 + b) * 256 + c) * 256 + d)
  unfolding parse_address
  parse_address-dotted p q r w = rw (split_on-append b'.' s _ "." p.no_dot refl) (
      rw (split_on-append b'.' t _ "." q.no_dot refl) (
        rw (split_on-append b'.' u _ "." r.no_dot refl) (
          rw (split_on-free b'.' v w.no_dot)
            (rw p.reads_back (rw q.reads_back (rw r.reads_back (rw w.reads_back)))))))

-- An address below 2 ^ 32 is read back from its text.
pub parse_address-show_address : (n : ℕ) → n < 2 ^ 32 → parse_address (show_address n) ≡ some n
unfolding show_address
parse_address-show_address n h =
    parse_address-dotted (show_nat-OctetText (n / 2 ^ 24) (omega arith))
      (show_nat-OctetText (n / 2 ^ 16 % 256) (omega arith))
      (show_nat-OctetText (n / 2 ^ 8 % 256) (omega arith))
      (show_nat-OctetText (n % 256) (omega arith))
    ∙ ap some (omega arith)

free-append :
    (d : ℕ) (a r : String) (c : Char)
    → free d a ≡ true
    → (code c == d) ≡ false
    → free d r ≡ true
    → free d (a ++ String.◌∷◌ c r) ≡ true
unfolding free
free-append d String.[] r c h e k = rw (nil-append (String.◌∷◌ c r)) (ground arith)
free-append d (String.◌∷◌ b a) r c h e k =
    rw (cons-append b a (String.◌∷◌ c r)) (ground (arith, free-append d a r c))

show_address-free : (n : ℕ) → n < 2 ^ 32 → free b'/' (show_address n) ≡ true
unfolding show_address
show_address-free n h =
    free-append b'/' _ _ "." (no_slash (show_nat-OctetText (n / 2 ^ 24) (omega arith))) refl (
      free-append b'/' _ _ "." (no_slash (show_nat-OctetText (n / 2 ^ 16 % 256) (omega arith))) refl
        (free-append b'/' _ _ "." (no_slash (show_nat-OctetText (n / 2 ^ 8 % 256) (omega arith)))
          refl (no_slash (show_nat-OctetText (n % 256) (omega arith)))))
  where
    no_slash : {m : ℕ} {s : String} → OctetText m s → free b'/' s ≡ true
    no_slash t = t.no_slash

-- A text with a character that is no digit.
all_digits-append :
    (a r : String) (c : Char)
    → leb b'0' (code c) && leb (code c) b'9' ≡ false
    → all_digits (a ++ String.◌∷◌ c r) ≡ false
unfolding all_digits
all_digits-append String.[] r c h = rw (nil-append (String.◌∷◌ c r)) (ground arith)
all_digits-append (String.◌∷◌ b a) r c h =
    rw (cons-append b a (String.◌∷◌ c r)) (ground (arith, all_digits-append a r c))

prefix_test : ℕ → Bool
unfolding find_prefix
prefix_test p = reads p (find_prefix 32 (netmask p)) && ltb (netmask p) (2 ^ 32)

prefix_table : each_below prefix_test 33 ≡ true
unfolding each_below prefix_test
prefix_table = refl

of_reads : (n : ℕ) (o : Option ℕ) → reads n o ≡ true → o ≡ some n
of_reads n none h = cc
of_reads n (some m) h = ap some (ground arith)

prefix_holds : (p : ℕ) → p ≤ 32 → prefix_test p ≡ true
prefix_holds p h = each_below_lem prefix_test 33 (omega arith) prefix_table

find_prefix-netmask : (p : ℕ) → p ≤ 32 → find_prefix 32 (netmask p) ≡ some p
unfolding prefix_test
find_prefix-netmask p h = of_reads p (find_prefix 32 (netmask p)) (ground (arith, prefix_holds p h))

netmask-lt : (p : ℕ) → p ≤ 32 → netmask p < 2 ^ 32
unfolding prefix_test
netmask-lt p h = ground (arith, prefix_holds p h)

show_address-all_digits : (n : ℕ) → all_digits (show_address n) ≡ false
unfolding show_address
show_address-all_digits n = all_digits-append _ _ "." refl

not_empty : (s : String) → all_digits s ≡ false → str_eq s "" ≡ false
unfolding all_digits
not_empty s h = elim (Bool-cases (str_eq s "")) [
  | inl y ↦ cc (rw ((eq_iff s "").0 y) at h)
  | inr n ↦ n
]

pub show_address-not_empty : (n : ℕ) → str_eq (show_address n) "" ≡ false
show_address-not_empty n = not_empty (show_address n) (show_address-all_digits n)

parse_mask-netmask : (p : ℕ) → p ≤ 32 → parse_mask (show_address (netmask p)) ≡ some p
unfolding parse_mask
parse_mask-netmask p h = ground (
  arith,
  show_address-all_digits (netmask p),
  parse_address-show_address (netmask p) (netmask-lt p h),
  find_prefix-netmask p h,
)

-- A network is read back from its address and its mask: the bits behind the prefix are cleared.
pub parse_network-show_address :
    (n p : ℕ)
    → n < 2 ^ 32
    → p ≤ 32
    → parse_network (show_address n ++ String.◌∷◌ "/" (show_address (netmask p)))
      ≡ some (masked n p)
unfolding parse_network
parse_network-show_address n p h k =
    rw (split_on-append b'/' (show_address n) _ "/" (show_address-free n h) refl) (
      rw (split_on-free b'/' (show_address (netmask p)) (show_address-free _ (netmask-lt p k)))
        (rw (parse_address-show_address n h) (rw (parse_mask-netmask p k))))
