-- ===== src/Cli/Order/Stack.antt =====
-- What a run of `visit_dependency` (crates/infractl-cli/src/commands/service.rs) does to the stack
-- and to the set of visited services.
use btc_infra_tools.Base.{
  ◌≡◌, refl, ap, ◌∙◌, List, [], ◌∷◌, String, false, eq_refl, arith, contains,
}
use btc_infra_tools.Core.Config.{BelterConfig}
use btc_infra_tools.Cli.Order.{VisitState, remove, close}
use btc_infra_tools.Cli.Order.Visit.{Visit, VisitAll, seen, opened, finished, next}

remove_absent : (k : String) (xs : List String) → contains xs k ≡ false → remove k xs ≡ xs
unfolding remove
remove_absent k [] h = refl
remove_absent k (x ∷ xs) h = ground (arith, remove_absent k xs)

remove_head : (k : String) (xs : List String) → contains xs k ≡ false → remove k (k ∷ xs) ≡ xs
unfolding remove
remove_head k xs h = rw (eq_refl k) (remove_absent k xs h)

mutual
  unfolding close

  stack-Visit :
      {config : BelterConfig} {name : String} {st st' : VisitState}
      → Visit config name st st'
      → st'.stack ≡ st.stack
  stack-Visit (seen v) = refl
  stack-Visit {name = name} {st = st} (opened service v c e all) =
      ap (remove name) (stack-VisitAll all) ∙ remove_head name st.stack c

  stack-VisitAll :
      {config : BelterConfig} {ds : List String} {st st' : VisitState}
      → VisitAll config ds st st'
      → st'.stack ≡ st.stack
  stack-VisitAll finished = refl
  stack-VisitAll (next v all) = stack-VisitAll all ∙ stack-Visit v

-- A visit leaves the stack as it was.
pub stack_restored :
    {config : BelterConfig} {name : String} {st st' : VisitState}
    → Visit config name st st'
    → st'.stack ≡ st.stack
stack_restored v = stack-Visit v
