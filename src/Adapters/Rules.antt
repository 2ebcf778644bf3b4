-- ===== src/Adapters/Rules.antt =====
-- Preconditions and postconditions of actions over the whole trace, and a rule for each way to build
-- an action (crates/infractl-adapters/src/lib.rs).
use btc_infra_tools.Base.{◌≡◌, refl, Option, none, some, Bool, true, false, if◌then◌else◌}
use btc_infra_tools.Base.Result.{Error, Result, ok, err}
use btc_infra_tools.Adapters.World.{Trace, Act, continue, ◌>>=◌, lift, return, inspect, run_on}

-- What holds of an error and the trace, and of a value and the trace.
abbrev pub Reaches :
    {A : Type 0} → (Error → Trace → Type 0) → (A → Trace → Type 0) → Result A × Trace → Type 0
Reaches E Q (err e, t) = E e t
Reaches E Q (ok a, t) = Q a t

pub record Leads (E : Error → Trace → Type 0) {A : Type 0} (P : Trace → Type 0) (act : Act A)
    (Q : A → Trace → Type 0) : Type 0 where
  pub run : (t : Trace) → P t → Reaches E Q (act t)

-- Nothing is said of errors.
abbrev pub Anyhow : Error → Trace → Type 0
Anyhow e t = Unit

module _ (E : Error → Trace → Type 0) {A B : Type 0} (Q : A → Trace → Type 0)
    (R : B → Trace → Type 0) where
  continued :
      (outcome : Result A × Trace) {next : A → Act B}
      → Reaches E Q outcome
      → ((a : A) → Leads E (Q a) (next a) R)
      → Reaches E R (continue outcome next)
  continued (err e, t) h g = h
  continued (ok a, t) h g = (g a).run t h

  inspected :
      (F : Error → Trace → Type 0) (outcome : Result A × Trace) (on_err : Error → Act B)
      (on_ok : A → Act B)
      → Reaches F Q outcome
      → ((e : Error) → Leads E (F e) (on_err e) R)
      → ((a : A) → Leads E (Q a) (on_ok a) R)
      → Reaches E R (run_on outcome (λ r. elim r [ err e ↦ on_err e | ok a ↦ on_ok a ]))
  inspected F (err e, t) on_err on_ok h f g = (f e).run t h
  inspected F (ok a, t) on_err on_ok h f g = (g a).run t h

module _ (E : Error → Trace → Type 0) {A : Type 0} (P : Trace → Type 0)
    (Q : A → Trace → Type 0) where
  lifted :
      (t : Trace) (r : Result A)
      → P t
      → ((a : A) → r ≡ ok a → P t → Q a t)
      → ((e : Error) → r ≡ err e → P t → E e t)
      → Reaches E Q (r, t)
  lifted t (ok a) h f g = f a refl h
  lifted t (err e) h f g = g e refl h

module _ {E : Error → Trace → Type 0} where
  module _ {A : Type 0} {P : Trace → Type 0} {Q : A → Trace → Type 0} where
    pub leads-lift :
        (r : Result A)
        → ((t : Trace) (a : A) → r ≡ ok a → P t → Q a t)
        → ((t : Trace) (e : Error) → r ≡ err e → P t → E e t)
        → Leads E P (lift r) Q
    unfolding lift
    leads-lift r f g = record { run = λ t h. lifted E P Q t r h (f t) (g t) }

    pub leads-return : (a : A) → ((t : Trace) → P t → Q a t) → Leads E P (return a) Q
    unfolding lift
    leads-return a f = record { run = f }

    pub leads-if :
        (b : Bool) {act other : Act A}
        → (b ≡ true → Leads E P act Q)
        → (b ≡ false → Leads E P other Q)
        → Leads E P (if b then act else other) Q
    leads-if true f g = f refl
    leads-if false f g = g refl

    pub leads-option :
        {X : Type 0} (o : Option X) {act : Act A} {next : X → Act A}
        → (o ≡ none → Leads E P act Q)
        → ((x : X) → o ≡ some x → Leads E P (next x) Q)
        → Leads E P (elim o [ none ↦ act | some x ↦ next x ]) Q
    leads-option none f g = f refl
    leads-option (some x) f g = g x refl

    pub leads-from :
        {R : Trace → Type 0} {act : Act A}
        → ((t : Trace) → R t → P t)
        → Leads E P act Q
        → Leads E R act Q
    leads-from weaken f = record { run = λ t h. f.run t (weaken t h) }

    pub leads-assume :
        {R : Type 0} {act : Act A} → (R → Leads E P act Q) → Leads E (λ t. R × P t) act Q
    leads-assume f = record { run = λ t h. (f h.0).run t h.1 }

  module _ {A B : Type 0} {Q : A → Trace → Type 0} {R : B → Trace → Type 0} {P : Trace → Type 0}
      {act : Act A} where
    pub leads-bind :
        {next : A → Act B}
        → Leads E P act Q
        → ((a : A) → Leads E (Q a) (next a) R)
        → Leads E P (act >>= next) R
    unfolding ◌>>=◌
    leads-bind f g = record { run = λ t h. continued E Q R (act t) (f.run t h) g }

    -- A `match` on the result.
    pub leads-inspect :
        {on_err : Error → Act B} {on_ok : A → Act B} (F : Error → Trace → Type 0)
        → Leads F P act Q
        → ((e : Error) → Leads E (F e) (on_err e) R)
        → ((a : A) → Leads E (Q a) (on_ok a) R)
        → Leads E P (inspect act (λ r. elim r [ err e ↦ on_err e | ok a ↦ on_ok a ])) R
    unfolding inspect
    leads-inspect {on_err} {on_ok} F f g h = record {
      run = λ t p. inspected E Q R F (act t) on_err on_ok (f.run t p) g h;
    }

module _ {E : Error → Trace → Type 0} {A : Type 0} {P : Trace → Type 0}
    {Q R : A → Trace → Type 0} where
  pub leads-to :
      {act : Act A} → ((a : A) (t : Trace) → Q a t → R a t) → Leads E P act Q → Leads E P act R
  leads-to {act} f g = record { run = λ t h. widened (act t) (g.run t h) }
    where
      widened : (outcome : Result A × Trace) → Reaches E Q outcome → Reaches E R outcome
      widened (err e, t) h = h
      widened (ok a, t) h = f a t h

-- What a successful action leaves.
pub post_of :
    {A : Type 0} (E : Error → Trace → Type 0) (Q : A → Trace → Type 0) (outcome : Result A × Trace)
    (a : A)
    → Reaches E Q outcome
    → outcome.0 ≡ ok a
    → Q a outcome.1
post_of E Q (err e, t) a h p = cc
post_of E Q (ok b, t) a h p = let q : b ≡ a = cc in rw (← q) h

-- Any action, from a start that the postcondition may name.
pub leads-any : {A : Type 0} {P : Trace → Type 0} (act : Act A) → Leads Anyhow P act (λ a t. Unit)
leads-any act = record { run = λ t h. any (act t) }
  where
    any : {A : Type 0} (outcome : Result A × Trace) → Reaches Anyhow (λ a t. Unit) outcome
    any (err e, t) = tt
    any (ok a, t) = tt

-- A `match` on the result of any action.
pub leads-inspect_any :
    {E : Error → Trace → Type 0} {A B : Type 0} {P : Trace → Type 0} {R : B → Trace → Type 0}
    (act : Act A) (next : Result A → Act B)
    → ((r : Result A) → Leads E (λ t. Unit) (next r) R)
    → Leads E P (inspect act next) R
unfolding inspect
leads-inspect_any {E} {A} {B} {P} {R} act next f = record { run = λ t h. went (act t) }
  where
    went : (outcome : Result A × Trace) → Reaches E R (run_on outcome next)
    went (r, t) = (f r).run t tt

-- The result of an action, from where it began.
pub leads-told :
    {A : Type 0} {P : Trace → Type 0} (act : Act A)
    → Leads Anyhow P act (λ a t. (start : Trace) × ((act start).0 ≡ ok a))
leads-told {A} act = record { run = λ t h. told t (act t) refl }
  where
    told :
        (t : Trace) (outcome : Result A × Trace)
        → (act t).0 ≡ outcome.0
        → Reaches Anyhow (λ a u. (start : Trace) × ((act start).0 ≡ ok a)) outcome
    told t (err e, u) h = tt
    told t (ok a, u) h = (t, h)

-- An action that adds nothing to the trace.
pub leads-quiet :
    {A : Type 0} {P : Trace → Type 0} (act : Act A)
    → ((t : Trace) → (act t).1 ≡ t)
    → Leads (λ e. P) P act (λ a. P)
leads-quiet {A} {P} act f = record { run = λ t h. kept t (act t) (f t) h }
  where
    kept :
        (t : Trace) (outcome : Result A × Trace)
        → outcome.1 ≡ t
        → P t
        → Reaches (λ e. P) (λ a. P) outcome
    kept t (err e, u) q h = rw q h
    kept t (ok a, u) q h = rw q h
