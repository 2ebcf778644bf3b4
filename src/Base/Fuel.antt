-- ===== src/Base/Fuel.antt =====
-- Results of code that runs on fuel: `none` is the fuel running out.
use btc_infra_tools.Base.{◌≡◌, ◌≢◌, refl, ◌⊎◌, inl, inr, Option, none, some}
use btc_infra_tools.Base.Result.{Error, Result, ok, err}

abbrev pub Fueled {ℓ} : Type ℓ → Type ℓ
Fueled A = Option (Result A)

-- The `?` operator: an error ends the caller too.
abbrev pub and_then {ℓ κ} : {A : Type ℓ} {B : Type κ} → Fueled A → (A → Fueled B) → Fueled B
and_then none f = none
and_then (some (err e)) f = some (err e)
and_then (some (ok a)) f = f a

-- The two ways to the result of a chain.
pub and_then-eq-some {ℓ κ} :
    {A : Type ℓ} {B : Type κ} (m : Fueled A) (f : A → Fueled B) {r : Result B}
    → and_then m f ≡ some r
    → ((e : Error) × (m ≡ some (err e)) × (r ≡ err e))
      ⊎ ((a : A) × (m ≡ some (ok a)) × (f a ≡ some r))
and_then-eq-some none f h = cc
and_then-eq-some (some (err e)) f h = inl (e, refl, cc)
and_then-eq-some (some (ok a)) f h = inr (a, refl, h)

pub and_then-ne-none {ℓ κ} :
    {A : Type ℓ} {B : Type κ} (m : Fueled A) (f : A → Fueled B)
    → m ≢ none
    → ((a : A) → m ≡ some (ok a) → f a ≢ none)
    → and_then m f ≢ none
and_then-ne-none none f h k = absurd (h refl)
and_then-ne-none (some (err e)) f h k = λ p. cc
and_then-ne-none (some (ok a)) f h k = k a refl
