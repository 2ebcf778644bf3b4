-- ===== src/Cli/Order/Visit.antt =====
-- The runs of `visit_dependency` (crates/infractl-cli/src/commands/service.rs) as relations, one rule
-- for each way through the function, and that the function takes no other way.
use btc_infra_tools.Base.{
  ℕ, zero, suc, ◌≡◌, subst, inl, inr, none, some, List, [], ◌∷◌, String, true, false, arith,
  contains, Bool-cases, Option-cases,
}
use mathlib.Core.Option.{some-injective}
use btc_infra_tools.Base.Result.{Error, Result, ok, err}
use btc_infra_tools.Base.Fuel.{Fueled, and_then-eq-some}
use btc_infra_tools.Core.Config.{BelterConfig, ServiceConfig, service_by_name}
use btc_infra_tools.Cli.Order.{
  VisitState, dependencies, cyclic_at, not_found, open_visit, close, visit_all, visit_dependency,
}

mutual
  -- A call that succeeds, from one state to another.
  pub data Visit (config : BelterConfig) : String → VisitState → VisitState → Type 0 where
    seen :
        {name : String} {st : VisitState}
        → contains st.visited name ≡ true
        → Visit config name st st
    opened :
        {name : String} {st st' : VisitState} (service : ServiceConfig)
        → contains st.visited name ≡ false
        → contains st.stack name ≡ false
        → service_by_name config name ≡ some service
        → VisitAll config (dependencies service) (open_visit name st) st'
        → Visit config name st (close name st')

  pub data VisitAll (config : BelterConfig) : List String → VisitState → VisitState → Type 0 where
    finished : {st : VisitState} → VisitAll config [] st st
    next :
        {d : String} {ds : List String} {st st' st'' : VisitState}
        → Visit config d st st'
        → VisitAll config ds st' st''
        → VisitAll config (d ∷ ds) st st''

-- A call that fails.
mutual
  pub data Fails (config : BelterConfig) : String → VisitState → Error → Type 0 where
    cycle :
        {name : String} {st : VisitState}
        → contains st.stack name ≡ true
        → Fails config name st (cyclic_at name)
    unknown :
        {name : String} {st : VisitState}
        → service_by_name config name ≡ none
        → Fails config name st (not_found name)
    inside :
        {name : String} {st : VisitState} {e : Error} (service : ServiceConfig)
        → contains st.stack name ≡ false
        → service_by_name config name ≡ some service
        → FailsAll config (dependencies service) (open_visit name st) e
        → Fails config name st e

  pub data FailsAll (config : BelterConfig) : List String → VisitState → Error → Type 0 where
    at_head :
        {d : String} {ds : List String} {st : VisitState} {e : Error}
        → Fails config d st e
        → FailsAll config (d ∷ ds) st e
    later :
        {d : String} {ds : List String} {st st' : VisitState} {e : Error}
        → Visit config d st st'
        → FailsAll config ds st' e
        → FailsAll config (d ∷ ds) st e

-- What a call that ended is a run of.
abbrev pub Outcome : BelterConfig → String → VisitState → Result VisitState → Type 0
Outcome config name st (ok st') = Visit config name st st'
Outcome config name st (err e) = Fails config name st e

abbrev OutcomeAll : BelterConfig → List String → VisitState → Result VisitState → Type 0
OutcomeAll config ds st (ok st') = VisitAll config ds st st'
OutcomeAll config ds st (err e) = FailsAll config ds st e

module _ (config : BelterConfig) (visit : String → VisitState → Fueled VisitState)
    (run : (name : String) (st : VisitState) (r : Result VisitState)
      → visit name st ≡ some r
      → Outcome config name st r) where
  visit_all-OutcomeAll :
      (ds : List String) (st : VisitState) (r : Result VisitState)
      → visit_all visit ds st ≡ some r
      → OutcomeAll config ds st r
  unfolding visit_all
  visit_all-OutcomeAll [] st r h =
      subst (λ q. OutcomeAll config [] st q) (some-injective _ _ h) finished
  visit_all-OutcomeAll (d ∷ ds) st r h =
      elim (and_then-eq-some (visit d st) (visit_all visit ds) h) [
        | inl (e, p, q) ↦ rw q (at_head (run d st (err e) p))
        | inr (st', p, q) ↦ extend r (run d st (ok st') p) (visit_all-OutcomeAll ds st' r q)
      ]
    where
      extend :
          (r : Result VisitState) {st' : VisitState}
          → Visit config d st st'
          → OutcomeAll config ds st' r
          → OutcomeAll config (d ∷ ds) st r
      extend (ok st'') v all = next v all
      extend (err e) v all = later v all

round-Outcome :
    (fuel : ℕ) (config : BelterConfig)
    → ((name : String) (st : VisitState) (r : Result VisitState)
        → visit_dependency fuel config name st ≡ some r
        → Outcome config name st r)
    → (name : String) (st : VisitState) (r : Result VisitState)
    → visit_dependency (suc fuel) config name st ≡ some r
    → Outcome config name st r
unfolding visit_dependency
round-Outcome fuel config run name st r h = elim (Bool-cases (contains st.visited name)) [
  | inl v ↦ result (ok st) (seen v) (rw (v, visit_dependency) at h)
  | inr v ↦ elim (Bool-cases (contains st.stack name)) [
    | inl c ↦ result (err (cyclic_at name)) (cycle c) (rw (v, c, visit_dependency) at h)
    | inr c ↦ elim (Option-cases (service_by_name config name)) [
      | inl e ↦ result (err (not_found name)) (unknown e) (rw (v, c, e, visit_dependency) at h)
      | inr (service, e) ↦
          elim (and_then-eq-some (loop service) end (rw (v, c, e, visit_dependency) at h)) [
            | inl (x, p, q) ↦ rw q (inside service c e (all service (err x) p))
            | inr (st', p, q) ↦
                result (ok (close name st')) (opened service v c e (all service (ok st') p)) q
          ]
    ]
  ]
]
  where
    loop : ServiceConfig → Fueled VisitState
    loop service =
        visit_all (visit_dependency fuel config) (dependencies service) (open_visit name st)

    end : VisitState → Fueled VisitState
    end st' = some (ok (close name st'))

    all :
        (service : ServiceConfig) (q : Result VisitState)
        → loop service ≡ some q
        → OutcomeAll config (dependencies service) (open_visit name st) q
    all service q p =
        visit_all-OutcomeAll config (visit_dependency fuel config) run (dependencies service)
          (open_visit name st) q p

    result :
        (q : Result VisitState)
        → Outcome config name st q
        → some q ≡ some r
        → Outcome config name st r
    result q o p = subst (λ x. Outcome config name st x) (some-injective _ _ p) o

-- Whatever the fuel, a call that ends is a run of the relations.
pub visit_dependency-Outcome :
    (fuel : ℕ) (config : BelterConfig) (name : String) (st : VisitState) (r : Result VisitState)
    → visit_dependency fuel config name st ≡ some r
    → Outcome config name st r
visit_dependency-Outcome zero config name st r h = absurd (unfold visit_dependency in ground arith)
visit_dependency-Outcome (suc fuel) config name st r h =
    round-Outcome fuel config (visit_dependency-Outcome fuel config) name st r h
