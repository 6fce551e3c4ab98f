-- ===== src/Models/NatPolicy/Reference.antt =====
-- References to objects in the two wire formats of a NAT policy.
use sonicwall_sdk.Prelude.{
  String, Bool, true, false, ◌≡◌, sym, ◌&&◌, arith, str_eq, eq_iff, Bool-cases, inl, inr,
}
use sonicwall_sdk.Json.Value.{lookup, truthy}
use sonicwall_sdk.Models.NatPolicy.{ref_obj, norm_ref}

-- What `_ref_obj` writes for a text that is not empty, `norm_ref` reads back, whatever its default
-- and whether `original` is a word of its own or a name.
pub norm_ref-ref_obj :
    (value default : String) (allow_original : Bool)
    → str_eq value "" ≡ false
    → norm_ref (ref_obj value allow_original) default ≡ value
unfolding norm_ref ref_obj lookup truthy
norm_ref-ref_obj value default allow_original h = elim (Bool-cases (str_eq value "any")) [
  | inl any ↦ rw any (sym ((eq_iff value "any").0 any))
  | inr named ↦ elim (Bool-cases (allow_original && str_eq value "original")) [
    | inl original ↦
        let is_original : str_eq value "original" ≡ true = ground arith in
        rw named (rw original (sym ((eq_iff value "original").0 is_original)))
    | inr plain ↦ rw named (rw plain (rw h))
  ]
]
