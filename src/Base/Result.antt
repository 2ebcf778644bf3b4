-- ===== src/Base/Result.antt =====
-- `anyhow::Result`: an error is its message, which `to_string` prints, and the messages of the
-- errors beneath it, the outermost first.
use btc_infra_tools.Base.{◌≡◌, refl, Option, none, some, List, [], ◌∷◌, String}

pub record Error : Type 0 where
  pub message : String
  pub causes : List String

pub data Result {ℓ} (A : Type ℓ) : Type ℓ where
  ok : A → Result A
  err : Error → Result A

-- `anyhow!` and `bail!`.
abbrev pub anyhow : String → Error
anyhow text = record { message = text; causes = [] }

abbrev pub bail {ℓ} : {A : Type ℓ} → String → Result A
bail text = err (anyhow text)

-- `ok_or_else`.
abbrev pub ok_or {ℓ} : {A : Type ℓ} → Option A → String → Result A
ok_or none text = bail text
ok_or (some a) text = ok a

-- `context` and `with_context`.
abbrev pub context {ℓ} : {A : Type ℓ} → Result A → String → Result A
context (ok a) text = ok a
context (err e) text = err (record { message = text; causes = e.message ∷ e.causes })

abbrev pub map_ok {ℓ κ} : {A : Type ℓ} {B : Type κ} → (A → B) → Result A → Result B
map_ok f (ok a) = ok (f a)
map_ok f (err e) = err e

-- `option.map(f).transpose()` for an `f` that may fail.
abbrev pub transpose {ℓ κ} :
    {A : Type ℓ} {B : Type κ} → (A → Result B) → Option A → Result (Option B)
transpose f none = ok none
transpose f (some a) = map_ok some (f a)

infixl 6 ◌>>=◌ ◌>>◌
abbrev pub ◌>>=◌ {κ ι} : {B : Type κ} {C : Type ι} → Result B → (B → Result C) → Result C
err e >>= next = err e
ok a >>= next = next a

abbrev pub ◌>>◌ {ℓ} : {B : Type ℓ} → Result (Unit {0}) → Result B → Result B
done >> then = done >>= λ _. then

module _ {κ ι} {B : Type κ} {C : Type ι} (next : B → Result C) {c : C} where
  -- A chain ends well only by way of its first part.
  pub >>=-eq-ok : (m : Result B) → (m >>= next) ≡ ok c → (b : B) × (m ≡ ok b) × (next b ≡ ok c)
  >>=-eq-ok (err e) p = cc
  >>=-eq-ok (ok b) p = (b, refl, p)

pub err-injective {ℓ} : {A : Type ℓ} {e f : Error} → ◌≡◌ {A = Result A} (err e) (err f) → e ≡ f
err-injective h = cc

pub ok-injective {ℓ} : {A : Type ℓ} {a b : A} → ◌≡◌ {A = Result A} (ok a) (ok b) → a ≡ b
ok-injective h = cc
