-- ===== src/Errors/Classes.antt =====
-- Which exceptions a computation can raise, by its parts.
use sonicwall_sdk.Prelude.{Bool, true, false, ◌≡◌, ◌⊎◌, inl, inr, refl, arith, if◌then◌else◌}
use sonicwall_sdk.Errors.{Error, http, HttpError, Result, ok, err, ◌>>=◌}

-- Every `SonicWallHTTPError` that the computation raises satisfies `P`.
abbrev pub OnHttp {ℓ} : {A : Type ℓ} → (HttpError → Type 0) → Result A → Type ℓ
OnHttp P r = (e : HttpError) → r ≡ err (http e) → P e

-- It raises none.
abbrev pub NotHttp {ℓ} : {A : Type ℓ} → Result A → Type ℓ
NotHttp = OnHttp (λ e. ⊥)

pub OnHttp-ok : {A : Type 0} (P : HttpError → Type 0) (a : A) → OnHttp P (ok a)
OnHttp-ok P a e h = cc

pub OnHttp-if :
    {A : Type 0} {P : HttpError → Type 0} (b : Bool) (m n : Result A)
    → OnHttp P m
    → OnHttp P n
    → OnHttp P (if b then m else n)
OnHttp-if true m n p q = p
OnHttp-if false m n p q = q

pub OnHttp-bind :
    {A B : Type 0} {P : HttpError → Type 0} (m : Result A) (f : A → Result B)
    → NotHttp m
    → ((a : A) → OnHttp P (f a))
    → OnHttp P (m >>= f)
OnHttp-bind (ok a) f n p e h = p a e h
OnHttp-bind (err c) f n p e h = absurd (n e (ground arith))

pub Result-cases {ℓ} :
    {A : Type ℓ} (r : Result A)
    → ((value : A) × (r ≡ ok value)) ⊎ ((error : Error) × (r ≡ err error))
Result-cases (ok a) = inl (a, refl)
Result-cases (err e) = inr (e, refl)
