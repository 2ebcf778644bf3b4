-- ===== src/Cli/Order/Topological.antt =====
-- The order that `resolve_bring_up_order` (crates/infractl-cli/src/commands/service.rs) returns: the
-- invariant of the search, and what it gives at the end.
use btc_infra_tools.Base.{
  ◌+◌, ◌≡◌, refl, sym, ap, ◌∙◌, inl, inr, some, List, [], ◌∷◌, ◌++◌, String, true, false, ◌||◌,
  ◌==◌, eq_iff, eq_refl, arith, All, All-append, contains, contains-append,
}
use mathlib.Core.Bool.{false≢true}
use btc_infra_tools.Base.Result.{ok}
use btc_infra_tools.Base.Fuel.{and_then-eq-some}
use btc_infra_tools.Core.Config.{BelterConfig, ServiceConfig, service_by_name}
use btc_infra_tools.Cli.Order.{
  VisitState, dependencies, close, start_state, service_count, visit_dependency,
  resolve_bring_up_order,
}
use btc_infra_tools.Cli.Order.Visit.{
  Visit, VisitAll, seen, opened, finished, next, visit_dependency-Outcome,
}
use btc_infra_tools.Cli.Order.Stack.{stack_restored}
use btc_infra_tools.Cli.Order.Graph.{
  Reaches, edge, here, there, Reaches-trans, TopologicalFrom, IsTopological,
}

abbrev pub Visited : VisitState → String → Type 0
Visited st x = contains st.visited x ≡ true

module _ {config : BelterConfig} where
  mutual
    unfolding close

    Visited-mono :
        {name : String} {st st' : VisitState} (x : String)
        → Visit config name st st'
        → Visited st x
        → Visited st' x
    Visited-mono x (seen v) h = h
    Visited-mono x (opened service v c e all) h = let ih = VisitedAll-mono x all h in ground arith

    VisitedAll-mono :
        {ds : List String} {st st' : VisitState} (x : String)
        → VisitAll config ds st st'
        → Visited st x
        → Visited st' x
    VisitedAll-mono x finished h = h
    VisitedAll-mono x (next v all) h = VisitedAll-mono x all (Visited-mono x v h)

  Visited-Visit :
      {name : String} {st st' : VisitState} → Visit config name st st' → Visited st' name
  unfolding close
  Visited-Visit (seen v) = v
  Visited-Visit {name = name} (opened service v c e all) = rw (eq_refl name)

  Visited-VisitAll :
      {ds : List String} {st st' : VisitState} → VisitAll config ds st st' → All (Visited st') ds
  Visited-VisitAll finished = tt
  Visited-VisitAll {ds = d ∷ ds} (next v all) =
      (VisitedAll-mono d all (Visited-Visit v), Visited-VisitAll all)

  -- What is on the stack is not marked before its own visit ends.
  mutual
    unfolding close

    on_stack :
        {name : String} {st st' : VisitState} (x : String)
        → Visit config name st st'
        → contains st.stack x ≡ true
        → contains st'.visited x ≡ contains st.visited x
    on_stack x (seen v) h = refl
    on_stack {name = name} {st = st} x (opened service v c e all) h =
        let ih = on_stack_all x all (ground arith) in ground (arith, eq_iff name x)

    on_stack_all :
        {ds : List String} {st st' : VisitState} (x : String)
        → VisitAll config ds st st'
        → contains st.stack x ≡ true
        → contains st'.visited x ≡ contains st.visited x
    on_stack_all x finished h = refl
    on_stack_all x (next v all) h =
        on_stack_all x all (ap (λ s. contains s x) (stack_restored v) ∙ h) ∙ on_stack x v h

All-map :
    (P Q : String → Type 0) (ds : List String) → ((d : String) → P d → Q d) → All P ds → All Q ds
All-map P Q [] f h = tt
All-map P Q (d ∷ ds) f h = (f d h.0, All-map P Q ds f h.1)

TopologicalFrom-snoc :
    (config : BelterConfig) (before xs : List String) (x : String) (service : ServiceConfig)
    → TopologicalFrom config before xs
    → contains before x ≡ false
    → contains xs x ≡ false
    → service_by_name config x ≡ some service
    → All (λ d. (contains xs d || contains before d) ≡ true) (dependencies service)
    → TopologicalFrom config before (xs ++ x ∷ [])
TopologicalFrom-snoc config before [] x service t b n e deps = (b, (service, e, deps), tt)
TopologicalFrom-snoc config before (y ∷ xs) x service t b n e deps = (
  t.0,
  t.1,
  TopologicalFrom-snoc config (y ∷ before) xs x service t.2 (ground arith) (ground arith) e
      (All-map _ _ (dependencies service) (λ d h. ground arith) deps),
)

-- The search has marked what it has put in order, and the order is topological.
pub record Inv (config : BelterConfig) (st : VisitState) : Type 0 where
  pub same : (x : String) → contains st.visited x ≡ contains st.ordered x
  pub sorted : IsTopological config st.ordered

contains-snoc :
    (xs : List String) (x y : String) → contains (xs ++ x ∷ []) y ≡ (x == y || contains xs y)
contains-snoc xs x y = ground (arith, contains-append xs (x ∷ []) y)

module _ {config : BelterConfig} where
  mutual
    unfolding close

    Visit-Inv :
        {name : String} {st st' : VisitState}
        → Visit config name st st'
        → Inv config st
        → Inv config st'
    Visit-Inv (seen v) i = i
    Visit-Inv {name = name} {st = st} (opened {st' = s} service v c e all) i =
        let j = VisitAll-Inv all (record { same = i.same; sorted = i.sorted }) in
        let fresh : contains s.visited name ≡ false =
          on_stack_all name all (rw (eq_refl name)) ∙ v in
        record {
          same = λ x. ground (arith, contains-snoc s.ordered name x, j.same x);
          sorted =
              TopologicalFrom-snoc config [] s.ordered name service j.sorted refl
                (sym (j.same name) ∙ fresh) e
                (All-map (Visited s) _ (dependencies service) (λ d h. ground (arith, j.same d))
                  (Visited-VisitAll all));
        }

    VisitAll-Inv :
        {ds : List String} {st st' : VisitState}
        → VisitAll config ds st st'
        → Inv config st
        → Inv config st'
    VisitAll-Inv finished i = i
    VisitAll-Inv (next v all) i = VisitAll-Inv all (Visit-Inv v i)

All-of_contains :
    (P : String → Type 0) (ds : List String)
    → ((d : String) → contains ds d ≡ true → P d)
    → All P ds
All-of_contains P [] f = tt
All-of_contains P (d ∷ ds) f =
    (f d (rw (eq_refl d)), All-of_contains P ds (λ x h. f x (ground arith)))

module _ {config : BelterConfig} (root : String) where
  mutual
    unfolding close

    Visit-reached :
        {name : String} {st st' : VisitState}
        → Visit config name st st'
        → Reaches config root name
        → All (Reaches config root) st.ordered
        → All (Reaches config root) st'.ordered
    Visit-reached (seen v) r h = h
    Visit-reached {name = name} (opened {st' = s} service v c e all) r h =
        let deps : All (Reaches config root) (dependencies service) =
          All-of_contains (Reaches config root) (dependencies service)
            (λ d k. Reaches-trans r (there (edge service e k) here)) in
        All-append (Reaches config root) s.ordered (name ∷ []) (VisitAll-reached all deps h) (r, tt)

    VisitAll-reached :
        {ds : List String} {st st' : VisitState}
        → VisitAll config ds st st'
        → All (Reaches config root) ds
        → All (Reaches config root) st.ordered
        → All (Reaches config root) st'.ordered
    VisitAll-reached finished r h = h
    VisitAll-reached (next v all) r h = VisitAll-reached all r.1 (Visit-reached v r.0 h)

Visit-last :
    {config : BelterConfig} {name : String} {st st' : VisitState}
    → Visit config name st st'
    → st.visited ≡ []
    → (front : List String) × (st'.ordered ≡ front ++ name ∷ [])
unfolding close
Visit-last {name = name} {st = st} (seen v) e =
    absurd (false≢true (sym (ap (λ s. contains s name) e) ∙ v))
Visit-last (opened {st' = s} service v c e all) h = (s.ordered, refl)

-- If an order is returned for a service, the service is its last entry; each entry is configured,
-- occurs once, stands behind all of its dependencies, and is reached from the service by a chain of
-- dependencies.
pub resolve_bring_up_order-IsTopological :
    (config : BelterConfig) (name : String) (order : List String)
    → resolve_bring_up_order config name ≡ some (ok order)
    → IsTopological config order
      × All (Reaches config name) order
      × ((front : List String) × (order ≡ front ++ name ∷ []))
unfolding resolve_bring_up_order
resolve_bring_up_order-IsTopological config name order h =
    elim (and_then-eq-some (visit_dependency (service_count config + 1) config name start_state)
      (λ st. some (ok st.ordered)) h) [
        | inl (e, p, q) ↦ absurd (ground arith)
        | inr (st, p, q) ↦
            let v : Visit config name start_state st =
              visit_dependency-Outcome (service_count config + 1) config name start_state (ok st)
                p in
            let i = Visit-Inv v (record { same = λ x. refl; sorted = tt }) in
            let same : st.ordered ≡ order = ground arith in
            rw (← same) (i.sorted, Visit-reached name v here tt, Visit-last v refl)
      ]
