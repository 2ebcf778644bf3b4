-- ===== src/Adapters/Chains.antt =====
-- What the success of a chain of actions says of its parts (crates/infractl-adapters/src/lib.rs).
use btc_infra_tools.Base.{◌≡◌, refl, ◌∙◌}
use btc_infra_tools.Base.Result.{Result, ok, err}
use btc_infra_tools.Adapters.World.{Trace, Act, continue, ◌>>=◌, lift, return}

module _ {A B : Type 0} (next : A → Act B) where
  continue-eq-ok :
      (outcome : Result A × Trace) {b : B}
      → (continue outcome next).0 ≡ ok b
      → (a : A) × (outcome.0 ≡ ok a) × ((next a outcome.1).0 ≡ ok b)
  continue-eq-ok (err e, u) h = cc
  continue-eq-ok (ok a, u) h = (a, refl, h)

pub act-eq-ok :
    {A B : Type 0} (act : Act A) (next : A → Act B) (t : Trace) (b : B)
    → ((act >>= next) t).0 ≡ ok b
    → (a : A) × ((act t).0 ≡ ok a) × ((next a (act t).1).0 ≡ ok b)
unfolding ◌>>=◌
act-eq-ok act next t b h = continue-eq-ok next (act t) h

pub return-eq-ok : {A : Type 0} (a : A) (t : Trace) (b : A) → (return a t).0 ≡ ok b → a ≡ b
unfolding lift
return-eq-ok a t b h = cc

pub lift-eq-ok : {A : Type 0} (r : Result A) (t : Trace) (a : A) → (lift r t).0 ≡ ok a → r ≡ ok a
unfolding lift
lift-eq-ok r t a h = h

-- A chain of actions that change no trace changes none.
pub quiet_chain :
    {A B : Type 0} (act : Act A) (next : A → Act B) (t : Trace)
    → (act t).1 ≡ t
    → ((a : A) (u : Trace) → (next a u).1 ≡ u)
    → ((act >>= next) t).1 ≡ t
unfolding ◌>>=◌
quiet_chain {A} act next t h f = quiet (act t) h
  where
    quiet : (outcome : Result A × Trace) → outcome.1 ≡ t → (continue outcome next).1 ≡ t
    quiet (err e, u) p = p
    quiet (ok a, u) p = f a u ∙ p

pub quiet_lift : {A : Type 0} (r : Result A) (t : Trace) → (lift r t).1 ≡ t
unfolding lift
quiet_lift r t = refl
