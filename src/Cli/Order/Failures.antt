-- ===== src/Cli/Order/Failures.antt =====
-- When `resolve_bring_up_order` (crates/infractl-cli/src/commands/service.rs) fails, the dependency
-- graph is at fault.
use btc_infra_tools.Base.{
  ◌+◌, ◌≡◌, refl, inl, inr, none, some, List, ◌∷◌, String, true, ◌==◌, eq_iff, eq_refl, arith,
  contains, subst, sym, Bool-cases,
}
use mathlib.Core.Bool.{false≢true}
use btc_infra_tools.Base.Result.{Error, ok, err, err-injective}
use btc_infra_tools.Base.Fuel.{and_then-eq-some}
use btc_infra_tools.Core.Config.{BelterConfig, service_by_name}
use btc_infra_tools.Cli.Order.{
  VisitState, cyclic_at, not_found, start_state, service_count, visit_dependency,
  resolve_bring_up_order,
}
use btc_infra_tools.Cli.Order.Visit.{
  Fails, FailsAll, cycle, unknown, inside, at_head, later, visit_dependency-Outcome,
}
use btc_infra_tools.Cli.Order.Stack.{stack_restored}
use btc_infra_tools.Cli.Order.Graph.{Reaches, DependsOn, Precedes, edge, here, there, Reaches-trans}

-- What an error about the services that `name` reaches says: one of them depends on itself, or one
-- of them is not configured.
pub data Blames (config : BelterConfig) (name : String) (e : Error) : Type 0 where
  cyclic :
      (x : String)
      → Reaches config name x
      → Precedes config x x
      → e ≡ cyclic_at x
      → Blames config name e
  missing :
      (x : String)
      → Reaches config name x
      → service_by_name config x ≡ none
      → e ≡ not_found x
      → Blames config name e

Blames-back :
    {config : BelterConfig} {a b : String} {e : Error}
    → Reaches config a b
    → Blames config b e
    → Blames config a e
Blames-back r (cyclic x q p h) = cyclic x (Reaches-trans r q) p h
Blames-back r (missing x q p h) = missing x (Reaches-trans r q) p h

-- Every name on the stack leads to `name`.
abbrev Leads : BelterConfig → List String → String → Type 0
Leads config stack name = (x : String) → contains stack x ≡ true → Precedes config x name

-- The stack with the service itself leads to each of its dependencies.
Leads-open :
    (config : BelterConfig) (st : VisitState) (name d : String)
    → Leads config st.stack name
    → DependsOn config name d
    → Leads config (name ∷ st.stack) d
Leads-open config st name d l e x h = elim (Bool-cases (name == x)) [
  | inl same ↦ subst (λ y. Precedes config y d) ((eq_iff name x).0 same) (d, e, here)
  | inr other ↦ let (b, f, r) = l x (ground arith) in (b, f, Reaches-trans r (there e here))
]

module _ {config : BelterConfig} where
  mutual
    Fails-Blames :
        {name : String} {st : VisitState} {e : Error}
        → Fails config name st e
        → Leads config st.stack name
        → Blames config name e
    Fails-Blames {name = name} (cycle c) l = cyclic name here (l name c) refl
    Fails-Blames {name = name} (unknown u) l = missing name here u refl
    Fails-Blames {name = name} {st = st} (inside service c found all) l =
        FailsAll-Blames name all (λ d h. edge service found h)
          (λ d k. Leads-open config st name d l k)

    -- `ds` are among the dependencies of `name`.
    FailsAll-Blames :
        {ds : List String} {st : VisitState} {e : Error} (name : String)
        → FailsAll config ds st e
        → ((d : String) → contains ds d ≡ true → DependsOn config name d)
        → ((d : String) → DependsOn config name d → Leads config st.stack d)
        → Blames config name e
    FailsAll-Blames {ds = d ∷ ds} name (at_head f) dep l =
        let k = dep d (rw (eq_refl d)) in Blames-back (there k here) (Fails-Blames f (l d k))
    FailsAll-Blames {ds = d ∷ ds} name (later v all) dep l =
        FailsAll-Blames name all (λ x h. dep x (ground arith))
          (λ x k. subst (λ s. Leads config s x) (sym (stack_restored v)) (l x k))

-- If no order is returned for a service, the error names a service that is reached from it by a chain
-- of dependencies: the error of a cycle names one that a chain of at least one dependency leads back
-- to, and the other error one that is not configured.
pub resolve_bring_up_order-Blames :
    (config : BelterConfig) (name : String) (e : Error)
    → resolve_bring_up_order config name ≡ some (err e)
    → Blames config name e
unfolding resolve_bring_up_order
resolve_bring_up_order-Blames config name e h =
    elim (and_then-eq-some (visit_dependency (service_count config + 1) config name start_state)
      (λ st. some (ok st.ordered)) h) [
        | inr (st, p, q) ↦ absurd (ground arith)
        | inl (x, p, q) ↦ rw (err-injective q) (
            Fails-Blames
              (visit_dependency-Outcome (service_count config + 1) config name start_state (err x)
                p)
              (λ y k. absurd (false≢true k)))
      ]
