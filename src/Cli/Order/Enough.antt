-- ===== src/Cli/Order/Enough.antt =====
-- The recursion of `visit_dependency` (crates/infractl-cli/src/commands/service.rs) ends: its depth is
-- at most the number of configured services, and one more.
use btc_infra_tools.Base.{
  ℕ, zero, suc, ◌+◌, ◌≤◌, ◌<◌, ◌≡◌, ◌≢◌, refl, ◌∙◌, inl, inr, none, some, List, [], ◌∷◌, String,
  false, ◌==◌, eq_iff, eq_refl, arith, contains, length, lookup, Bool-cases, Option-cases,
  if◌then◌else◌,
}
use btc_infra_tools.Base.Result.{ok}
use btc_infra_tools.Base.Fuel.{and_then-ne-none}
use btc_infra_tools.Core.Config.{BelterConfig, ServiceConfig, service_by_name}
use btc_infra_tools.Cli.Order.{
  VisitState, dependencies, close, open_visit, start_state, service_count, visit_all,
  visit_dependency, resolve_bring_up_order,
}
use btc_infra_tools.Cli.Order.Visit.{visit_dependency-Outcome}
use btc_infra_tools.Cli.Order.Stack.{stack_restored}

-- The configured services that are not on the stack.
abbrev open_count : List String → List (String × ServiceConfig) → ℕ
open_count stack [] = 0
open_count stack ((k, v) ∷ m) =
    let rest = open_count stack m in if contains stack k then rest else suc rest

open_count-le-length :
    (stack : List String) (m : List (String × ServiceConfig)) → open_count stack m ≤ length m
open_count-le-length stack [] = omega arith
open_count-le-length stack ((k, v) ∷ m) = ground (arith, open_count-le-length stack m)

open_count-cons-le :
    (name : String) (stack : List String) (m : List (String × ServiceConfig))
    → open_count (name ∷ stack) m ≤ open_count stack m
open_count-cons-le name stack [] = omega arith
open_count-cons-le name stack ((k, v) ∷ m) = ground (arith, open_count-cons-le name stack m)

open_count-cons-lt :
    (name : String) (stack : List String) (m : List (String × ServiceConfig)) (s : ServiceConfig)
    → lookup name m ≡ some s
    → contains stack name ≡ false
    → open_count (name ∷ stack) m < open_count stack m
open_count-cons-lt name stack [] s h c = absurd (ground arith)
open_count-cons-lt name stack ((k, v) ∷ m) s h c = elim (Bool-cases (k == name)) [
  | inl same ↦
      let e : k ≡ name = (eq_iff k name).0 same in
      ground (arith, open_count-cons-le name stack m, eq_refl name, eq_refl k)
  | inr other ↦ ground (arith, open_count-cons-lt name stack m s, eq_iff name k, eq_iff k name)
]

abbrev services_of : BelterConfig → List (String × ServiceConfig)
services_of config = elim config.service [ none ↦ [] | some services ↦ services ]

open_visit_lt :
    (config : BelterConfig) (name : String) (stack : List String) (s : ServiceConfig)
    → service_by_name config name ≡ some s
    → contains stack name ≡ false
    → open_count (name ∷ stack) (services_of config) < open_count stack (services_of config)
unfolding service_by_name
open_visit_lt config name stack s h c = elim (Option-cases config.service) [
  | inl e ↦ absurd (ground arith)
  | inr (m, e) ↦ rw e (open_count-cons-lt name stack m s (ground arith) c)
]

module _ (config : BelterConfig) (fuel : ℕ) where
  visit_all-ne-none :
      (stack : List String)
      → ((d : String) (st : VisitState)
          → st.stack ≡ stack
          → visit_dependency fuel config d st ≢ none)
      → (ds : List String) (st : VisitState) → st.stack ≡ stack
      → visit_all (visit_dependency fuel config) ds st ≢ none
  unfolding visit_all
  visit_all-ne-none stack go [] st e = λ p. cc
  visit_all-ne-none stack go (d ∷ ds) st e =
      and_then-ne-none (visit_dependency fuel config d st)
        (visit_all (visit_dependency fuel config) ds) (go d st e)
        (λ st' p.
          visit_all-ne-none stack go ds st'
            (stack_restored (visit_dependency-Outcome fuel config d st (ok st') p) ∙ e))

visit_dependency-ne-none :
    (fuel : ℕ) (config : BelterConfig) (name : String) (st : VisitState)
    → open_count st.stack (services_of config) < fuel
    → visit_dependency fuel config name st ≢ none
unfolding visit_dependency
visit_dependency-ne-none zero config name st h = absurd (omega arith)
visit_dependency-ne-none (suc fuel) config name st h =
    elim (Bool-cases (contains st.visited name)) [
      | inl v ↦ rw (v, visit_dependency) (λ p. cc)
      | inr v ↦ elim (Bool-cases (contains st.stack name)) [
        | inl c ↦ rw (v, c, visit_dependency) (λ p. cc)
        | inr c ↦ elim (Option-cases (service_by_name config name)) [
          | inl e ↦ rw (v, c, e, visit_dependency) (λ p. cc)
          | inr (service, e) ↦
              let less = open_visit_lt config name st.stack service e c in
              rw (v, c, e, visit_dependency)
                (and_then-ne-none
                  (visit_all (visit_dependency fuel config) (dependencies service)
                    (open_visit name st))
                  (λ st'. some (ok (close name st')))
                  (visit_all-ne-none config fuel (name ∷ st.stack)
                    (λ d s q. visit_dependency-ne-none fuel config d s (rw q (omega arith)))
                    (dependencies service) (open_visit name st) refl)
                  (λ st' p q. cc))
        ]
      ]
    ]

enough : (config : BelterConfig) → open_count [] (services_of config) < service_count config + 1
enough config = elim (Option-cases config.service) [
  | inl e ↦ rw e (omega arith)
  | inr (m, e) ↦ rw e (omega (arith, open_count-le-length [] m))
]

-- The search for an order ends, with an order or an error, for every configuration and service.
pub resolve_bring_up_order-ne-none :
    (config : BelterConfig) (name : String) → resolve_bring_up_order config name ≢ none
unfolding resolve_bring_up_order
resolve_bring_up_order-ne-none config name =
    and_then-ne-none (visit_dependency (service_count config + 1) config name start_state)
      (λ st. some (ok st.ordered))
      (visit_dependency-ne-none (service_count config + 1) config name start_state (enough config))
      (λ st p q. cc)
