-- ===== src/Watchdog/Rules.antt =====
-- Preconditions and postconditions of the watchdog's actions over the whole trace, and a rule for each
-- way to build an action.
use btc_infra_tools.Base.{
  ◌≡◌, refl, Option, none, some, ◌∷◌, String, Bool, true, false, if◌then◌else◌,
}
use btc_infra_tools.Base.Result.{Error, Result, ok, err}
use btc_infra_tools.Base.Fuel.{Fueled}
use btc_infra_tools.Watchdog.World.{
  Event, Trace, Act, continue, ◌>>=◌, return, fail, lift, handle, catch, in_context, with_message,
  perform, attempt, out_of_fuel, returned, block_on,
}

-- What holds of the trace where an action runs out of fuel and where it fails, and of its value and
-- the trace where it succeeds.
abbrev pub Reaches :
    {A : Type 0}
    → (Trace → Type 0)
    → (Error → Trace → Type 0)
    → (A → Trace → Type 0)
    → Fueled A × Trace
    → Type 0
Reaches O E Q (none, t) = O t
Reaches O E Q (some (err e), t) = E e t
Reaches O E Q (some (ok a), t) = Q a t

module _ (O : Trace → Type 0) (E : Error → Trace → Type 0) where
  pub record Leads {A : Type 0} (P : Trace → Type 0) (act : Act A) (Q : A → Trace → Type 0)
      : Type 0 where
    pub run : (t : Trace) → P t → Reaches O E Q (act t)

module _ (O : Trace → Type 0) where
  module _ (E : Error → Trace → Type 0) {A : Type 0} (Q : A → Trace → Type 0) where
    lifted :
        (r : Result A) (t : Trace)
        → ((a : A) → r ≡ ok a → Q a t)
        → ((e : Error) → r ≡ err e → E e t)
        → Reaches O E Q (some r, t)
    lifted (ok a) t f g = f a refl
    lifted (err e) t f g = g e refl

    contextual :
        (text : String) (outcome : Fueled A × Trace)
        → ((e e' : Error) (t : Trace) → E e t → E e' t)
        → Reaches O E Q outcome
        → Reaches O E Q (with_message text outcome)
    contextual text (none, t) f h = h
    contextual text (some (err e), t) f h = f _ _ t h
    contextual text (some (ok a), t) f h = h

    returned-Reaches :
        (t : Trace) (r : Fueled A) (event : Result A → Event)
        → (r ≡ none → O t)
        → ((a : A) → r ≡ some (ok a) → Q a (event (ok a) ∷ t))
        → ((e : Error) → r ≡ some (err e) → E e (event (err e) ∷ t))
        → Reaches O E Q (returned r event t)
    returned-Reaches t none event f g k = f refl
    returned-Reaches t (some (ok a)) event f g k = g a refl
    returned-Reaches t (some (err e)) event f g k = k e refl

  module _ (E : Error → Trace → Type 0) {A : Type 0} (Q R : A → Trace → Type 0) where
    widen :
        (outcome : Fueled A × Trace)
        → ((a : A) (t : Trace) → Q a t → R a t)
        → Reaches O E Q outcome
        → Reaches O E R outcome
    widen (none, t) f h = h
    widen (some (err e), t) f h = h
    widen (some (ok a), t) f h = f a t h

  module _ (E : Error → Trace → Type 0) {A B : Type 0} (Q : A → Trace → Type 0)
      (R : B → Trace → Type 0) where
    continued :
        (outcome : Fueled A × Trace) {next : A → Act B}
        → Reaches O E Q outcome
        → ((a : A) → Leads O E (Q a) (next a) R)
        → Reaches O E R (continue outcome next)
    continued (none, t) h g = h
    continued (some (err e), t) h g = h
    continued (some (ok a), t) h g = (g a).run t h

  module _ (E F : Error → Trace → Type 0) {A : Type 0} (Q : A → Trace → Type 0) where
    handled :
        (outcome : Fueled A × Trace) {next : Error → Act A}
        → Reaches O F Q outcome
        → ((e : Error) → Leads O E (F e) (next e) Q)
        → Reaches O E Q (handle outcome next)
    handled (none, t) h g = h
    handled (some (err e), t) h g = (g e).run t h
    handled (some (ok a), t) h g = h

module _ {O : Trace → Type 0} {E : Error → Trace → Type 0} where
  module _ {A : Type 0} {P : Trace → Type 0} {Q : A → Trace → Type 0} where
    pub leads-return : (a : A) → ((t : Trace) → P t → Q a t) → Leads O E P (return a) Q
    unfolding return
    leads-return a f = record { run = f }

    pub leads-fail : (e : Error) → ((t : Trace) → P t → E e t) → Leads O E P (fail e) Q
    unfolding fail
    leads-fail e f = record { run = f }

    pub leads-out_of_fuel : ((t : Trace) → P t → O t) → Leads O E P out_of_fuel Q
    unfolding out_of_fuel
    leads-out_of_fuel f = record { run = f }

    pub leads-lift :
        (r : Result A)
        → ((t : Trace) → P t → (a : A) → r ≡ ok a → Q a t)
        → ((t : Trace) → P t → (e : Error) → r ≡ err e → E e t)
        → Leads O E P (lift r) Q
    unfolding lift
    leads-lift r f g = record { run = λ t h. lifted O E Q r t (f t h) (g t h) }

    pub leads-perform :
        (answer : Trace → A) (event : A → Event)
        → ((t : Trace) → P t → Q (answer t) (event (answer t) ∷ t))
        → Leads O E P (perform answer event) Q
    unfolding perform
    leads-perform answer event f = record { run = f }

    pub leads-attempt :
        (answer : Trace → Result A) (event : Result A → Event)
        → ((t : Trace) → P t → (a : A) → answer t ≡ ok a → Q a (event (answer t) ∷ t))
        → ((t : Trace) → P t → (e : Error) → answer t ≡ err e → E e (event (answer t) ∷ t))
        → Leads O E P (attempt answer event) Q
    unfolding attempt
    leads-attempt answer event f g = record {
      run = λ t h. lifted O E Q (answer t) (event (answer t) ∷ t) (f t h) (g t h);
    }

    pub leads-block_on :
        (answer : Trace → Fueled A) (event : Result A → Event)
        → ((t : Trace) → P t → answer t ≡ none → O t)
        → ((t : Trace) → P t → (a : A) → answer t ≡ some (ok a) → Q a (event (ok a) ∷ t))
        → ((t : Trace) → P t → (e : Error) → answer t ≡ some (err e) → E e (event (err e) ∷ t))
        → Leads O E P (block_on answer event) Q
    unfolding block_on
    leads-block_on answer event f g k = record {
      run = λ t h. returned-Reaches O E Q t (answer t) event (f t h) (g t h) (k t h);
    }

    pub leads-if :
        (b : Bool) {act other : Act A}
        → (b ≡ true → Leads O E P act Q)
        → (b ≡ false → Leads O E P other Q)
        → Leads O E P (if b then act else other) Q
    leads-if true f g = f refl
    leads-if false f g = g refl

    pub leads-option :
        {X : Type 0} (o : Option X) {act : Act A} {next : X → Act A}
        → (o ≡ none → Leads O E P act Q)
        → ((x : X) → o ≡ some x → Leads O E P (next x) Q)
        → Leads O E P (elim o [ none ↦ act | some x ↦ next x ]) Q
    leads-option none f g = f refl
    leads-option (some x) f g = g x refl

    pub leads-from :
        {R : Trace → Type 0} {act : Act A}
        → ((t : Trace) → R t → P t)
        → Leads O E P act Q
        → Leads O E R act Q
    leads-from weaken f = record { run = λ t h. f.run t (weaken t h) }

    pub leads-assume :
        {R : Type 0} {act : Act A} → (R → Leads O E P act Q) → Leads O E (λ t. R × P t) act Q
    leads-assume f = record { run = λ t h. (f h.0).run t h.1 }

    -- Where the condition of failure does not depend on the error.
    pub leads-in_context :
        (text : String) {act : Act A}
        → ((e e' : Error) (t : Trace) → E e t → E e' t)
        → Leads O E P act Q
        → Leads O E P (in_context text act) Q
    unfolding in_context
    leads-in_context text {act} f g = record {
      run = λ t h. contextual O E Q text (act t) f (g.run t h);
    }

  module _ {A : Type 0} {Q : A → Trace → Type 0} where
    -- Where the precondition depends on the value.
    pub leads-cases :
        {X : Type 0} (S : Option X → Trace → Type 0) (o : Option X) {act : Act A} {next : X → Act A}
        → Leads O E (S none) act Q
        → ((x : X) → Leads O E (S (some x)) (next x) Q)
        → Leads O E (S o) (elim o [ none ↦ act | some x ↦ next x ]) Q
    leads-cases S none f g = f
    leads-cases S (some x) f g = g x

  module _ {A : Type 0} {P : Trace → Type 0} {Q R : A → Trace → Type 0} where
    pub leads-to :
        {act : Act A}
        → ((a : A) (t : Trace) → Q a t → R a t)
        → Leads O E P act Q
        → Leads O E P act R
    leads-to {act} f g = record { run = λ t h. widen O E Q R (act t) f (g.run t h) }

  module _ {A B : Type 0} {Q : A → Trace → Type 0} {R : B → Trace → Type 0} where
    pub leads-bind :
        {P : Trace → Type 0} {act : Act A} {next : A → Act B}
        → Leads O E P act Q
        → ((a : A) → Leads O E (Q a) (next a) R)
        → Leads O E P (act >>= next) R
    unfolding ◌>>=◌
    leads-bind {act} f g = record { run = λ t h. continued O E Q R (act t) (f.run t h) g }

module _ {O : Trace → Type 0} {E F : Error → Trace → Type 0} {A : Type 0}
    {Q : A → Trace → Type 0} where
  pub leads-catch :
      {P : Trace → Type 0} {act : Act A} {next : Error → Act A}
      → Leads O F P act Q
      → ((e : Error) → Leads O E (F e) (next e) Q)
      → Leads O E P (catch act next) Q
  unfolding catch
  leads-catch {P} {act} f g = record { run = λ t h. handled O E F Q (act t) (f.run t h) g }
