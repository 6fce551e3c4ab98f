-- ===== src/Client/Singletons.antt =====
-- The resources of `SonicWallClient` in _client.py, each made on its first access and kept in a field.
-- An object is known by its identity, a number that no earlier object has.
use sonicwall_sdk.Prelude.{
  ℕ, suc, ◌<◌, Option, Option-cases, none, some, List, [], ◌∷◌, ◌≡◌, ◌≢◌, ◌↔◌, ◌⊎◌, inl, inr, refl,
  sym, ap, ◌∙◌, arith,
}

pub data Resource : Type 0 where
  address_objects : Resource
  access_rules : Resource
  interfaces : Resource
  nat_policies : Resource
  service_objects : Resource
  dhcp : Resource

-- The six fields, and the next identity.
pub record Fields : Type 0 where
  pub address_objects : Option ℕ
  pub access_rules : Option ℕ
  pub interfaces : Option ℕ
  pub nat_policies : Option ℕ
  pub service_objects : Option ℕ
  pub dhcp : Option ℕ
  pub next : ℕ

unfoldable pub new_fields : ℕ → Fields
new_fields next = record {
  address_objects = none;
  access_rules = none;
  interfaces = none;
  nat_policies = none;
  service_objects = none;
  dhcp = none;
  next = next;
}

abbrev pub field : Resource → Fields → Option ℕ
field Resource.address_objects c = c.address_objects
field Resource.access_rules c = c.access_rules
field Resource.interfaces c = c.interfaces
field Resource.nat_policies c = c.nat_policies
field Resource.service_objects c = c.service_objects
field Resource.dhcp c = c.dhcp

-- `self._address_objects = AddressObjectsResource(self)`, and so on
unfoldable pub construct : Resource → Fields → Fields
construct Resource.address_objects c = record c { address_objects = some c.next; next = suc c.next }
construct Resource.access_rules c = record c { access_rules = some c.next; next = suc c.next }
construct Resource.interfaces c = record c { interfaces = some c.next; next = suc c.next }
construct Resource.nat_policies c = record c { nat_policies = some c.next; next = suc c.next }
construct Resource.service_objects c = record c { service_objects = some c.next; next = suc c.next }
construct Resource.dhcp c = record c { dhcp = some c.next; next = suc c.next }

abbrev made_or_kept : Resource → Fields → Option ℕ → ℕ × Fields
made_or_kept r c none = (c.next, construct r c)
made_or_kept r c (some object) = (object, c)

-- The properties `address_objects` to `dhcp`: the object, and the fields after.
unfoldable pub access : Resource → Fields → ℕ × Fields
unfolding construct
access r c = made_or_kept r c (field r c)

unfoldable pub access_all : List Resource → Fields → Fields
access_all [] c = c
access_all (r ∷ rs) c = access_all rs (access r c).1

-- The objects are older than the next one.
abbrev pub IsFresh : Fields → Type 0
IsFresh c = (r : Resource) (object : ℕ) → field r c ≡ some object → object < c.next

-- No two fields have one object.
abbrev pub IsApart : Fields → Type 0
IsApart c =
    (r q : Resource) (object : ℕ) → field r c ≡ some object → field q c ≡ some object → r ≡ q

pub record IsValid (c : Fields) : Type 0 where
  pub fresh : IsFresh c
  pub apart : IsApart c

Resource-discrete : Discrete Resource
Resource-discrete = hlevel

new_fields-IsValid : (n : ℕ) → IsValid (new_fields n)
unfolding new_fields
new_fields-IsValid n = record { fresh = λ r o h. empty r h; apart = λ r q o h k. empty r h }
  where
    empty : {P : Type 0} {object : ℕ} (r : Resource) → field r (new_fields n) ≡ some object → P
    empty Resource.address_objects h = cc
    empty Resource.access_rules h = cc
    empty Resource.interfaces h = cc
    empty Resource.nat_policies h = cc
    empty Resource.service_objects h = cc
    empty Resource.dhcp h = cc

field-construct_self : (r : Resource) (c : Fields) → field r (construct r c) ≡ some c.next
unfolding construct
field-construct_self Resource.address_objects c = refl
field-construct_self Resource.access_rules c = refl
field-construct_self Resource.interfaces c = refl
field-construct_self Resource.nat_policies c = refl
field-construct_self Resource.service_objects c = refl
field-construct_self Resource.dhcp c = refl

next-construct : (r : Resource) (c : Fields) → (construct r c).next ≡ suc c.next
unfolding construct
next-construct Resource.address_objects c = refl
next-construct Resource.access_rules c = refl
next-construct Resource.interfaces c = refl
next-construct Resource.nat_policies c = refl
next-construct Resource.service_objects c = refl
next-construct Resource.dhcp c = refl

field-construct_other : (q r : Resource) (c : Fields) → q ≢ r → field q (construct r c) ≡ field q c
unfolding construct
field-construct_other Resource.address_objects Resource.address_objects c h = absurd (h refl)
field-construct_other Resource.address_objects _ c h = refl
field-construct_other Resource.access_rules Resource.access_rules c h = absurd (h refl)
field-construct_other Resource.access_rules _ c h = refl
field-construct_other Resource.interfaces Resource.interfaces c h = absurd (h refl)
field-construct_other Resource.interfaces _ c h = refl
field-construct_other Resource.nat_policies Resource.nat_policies c h = absurd (h refl)
field-construct_other Resource.nat_policies _ c h = refl
field-construct_other Resource.service_objects Resource.service_objects c h = absurd (h refl)
field-construct_other Resource.service_objects _ c h = refl
field-construct_other Resource.dhcp Resource.dhcp c h = absurd (h refl)
field-construct_other Resource.dhcp _ c h = refl

-- What a field holds after an object is made is that object or what the field held before.
constructed :
    (q r : Resource) (c : Fields) (object : ℕ)
    → field q (construct r c) ≡ some object
    → ((q ≡ r) × (object ≡ c.next)) ⊎ ((q ≢ r) × (field q c ≡ some object))
constructed q r c object h = elim (Resource-discrete q r) [
  | yes e ↦ inl (e, cc (field-construct_self r c))
  | no n ↦ inr (n, sym (field-construct_other q r c n) ∙ h)
]

construct-IsValid : (r : Resource) (c : Fields) → IsValid c → IsValid (construct r c)
construct-IsValid r c v = record {
  fresh = λ q o h. elim (constructed q r c o h) [
    | inl (_, e) ↦ omega (arith, next-construct r c)
    | inr (_, e) ↦ omega (arith, next-construct r c, v.fresh q o e)
  ];
  apart = λ p q o h k. elim (constructed p r c o h) [
    | inl (e, d) ↦ elim (constructed q r c o k) [
      | inl (e', _) ↦ e ∙ sym e'
      | inr (_, k') ↦ absurd (omega (arith, v.fresh q o k'))
    ]
    | inr (_, h') ↦ elim (constructed q r c o k) [
      | inl (_, d) ↦ absurd (omega (arith, v.fresh p o h'))
      | inr (_, k') ↦ v.apart p q o h' k'
    ]
  ];
}

access-IsValid : (r : Resource) (c : Fields) → IsValid c → IsValid (access r c).1
unfolding access
access-IsValid r c v = elim (Option-cases (field r c)) [
  | inl h ↦ rw h (construct-IsValid r c v)
  | inr (o, h) ↦ rw h v
]

access_all-IsValid : (rs : List Resource) (c : Fields) → IsValid c → IsValid (access_all rs c)
unfolding access_all
access_all-IsValid [] c v = v
access_all-IsValid (r ∷ rs) c v = access_all-IsValid rs (access r c).1 (access-IsValid r c v)

field-access_self : (r : Resource) (c : Fields) → field r (access r c).1 ≡ some (access r c).0
unfolding access
field-access_self r c = elim (Option-cases (field r c)) [
  | inl h ↦ rw h (field-construct_self r c)
  | inr (o, h) ↦ rw h h
]

field-access_kept :
    (q r : Resource) (c : Fields) (object : ℕ)
    → field q c ≡ some object
    → field q (access r c).1 ≡ some object
unfolding access
field-access_kept q r c object h = elim (Option-cases (field r c)) [
  | inl none_made ↦
      rw none_made
        (elim (Resource-discrete q r) [ yes e ↦ cc | no n ↦ field-construct_other q r c n ∙ h ])
  | inr (o, made) ↦ rw made h
]

field-access_all_kept :
    (rs : List Resource) (q : Resource) (c : Fields) (object : ℕ)
    → field q c ≡ some object
    → field q (access_all rs c) ≡ some object
unfolding access_all
field-access_all_kept [] q c object h = h
field-access_all_kept (r ∷ rs) q c object h =
    field-access_all_kept rs q (access r c).1 object (field-access_kept q r c object h)

access_kept :
    (r : Resource) (c : Fields) (object : ℕ) → field r c ≡ some object → access r c ≡ (object, c)
unfolding access
access_kept r c object h = rw h

-- In a client's life, a later access gives the object of an earlier one exactly when it is an access
-- of the same resource, and then it changes nothing.
pub access_again :
    (n : ℕ) (before between : List Resource) (r q : Resource)
    → let c = access_all before (new_fields n) in
      let d = access_all between (access r c).1 in
      (((access q d).0 ≡ (access r c).0) ↔ (q ≡ r)) × (q ≡ r → (access q d).1 ≡ d)
access_again n before between r q =
    let c = access_all before (new_fields n) in
    let d = access_all between (access r c).1 in
    let held =
      field-access_all_kept between r (access r c).1 (access r c).0 (field-access_self r c) in
    let again = access_kept r d (access r c).0 held in
    let v =
      access_all-IsValid between (access r c).1
        (access-IsValid r c (access_all-IsValid before (new_fields n) (new_fields-IsValid n))) in
    (
      (
        (λ e.
            (access-IsValid q d v).apart q r (access r c).0 (field-access_self q d ∙ ap some e)
              (field-access_kept r q d (access r c).0 held)),
        (λ e. rw (e, again)),
      ),
      λ e. rw (e, again),
    )
