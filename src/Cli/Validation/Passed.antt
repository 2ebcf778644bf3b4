-- ===== src/Cli/Validation/Passed.antt =====
-- What the checks of a service say of its operation
-- (crates/infractl-cli/src/commands/config.rs, crates/infractl-core/src/usecase.rs).
use btc_infra_tools.Base.{
  ◌≡◌, refl, subst, sym, Option, none, some, List, [], ◌∷◌, String, Bool, true, false, ◌==◌, lookup,
  if◌then◌else◌, eq_iff,
}
use btc_infra_tools.Base.Text.{trim}
use btc_infra_tools.Base.Result.{Result, ok, err, bail, ok_or, context, ◌>>=◌, >>=-eq-ok}
use btc_infra_tools.Core.Env.{EnvResolver, expand_placeholders}
use btc_infra_tools.Core.Config.{ServiceConfig}
use btc_infra_tools.Core.Plan.{Operation}
use btc_infra_tools.Core.Usecase.{
  ServiceCommandRequest, expand_option, launchd_operation, podman_compose_operation,
  podman_machine_operation, manager_operation, service_operation, plan,
}
use btc_infra_tools.Cli.Validation.{
  missing_env_var_name, placeholder_error, or_explain, resolve_placeholder_for_field, check_field,
  check_optional, check_compose, check_service,
}

-- A chain whose parts end well.
pub >>=-ok :
    {A B : Type 0} (m : Result A) (next : A → Result B) (a : A) (b : B)
    → m ≡ ok a
    → next a ≡ ok b
    → (m >>= next) ≡ ok b
>>=-ok m next a b h k = rw h k

ok_or-some : {A : Type 0} (o : Option A) (text : String) (a : A) → o ≡ some a → ok_or o text ≡ ok a
ok_or-some o text a h = rw h refl

pub ok_or-inversion :
    {A : Type 0} (o : Option A) (text : String) (a : A) → ok_or o text ≡ ok a → o ≡ some a
ok_or-inversion none text a h = cc
ok_or-inversion (some b) text a h = cc

pub context-inversion :
    {A : Type 0} (r : Result A) (text : String) (a : A) → context r text ≡ ok a → r ≡ ok a
context-inversion (ok b) text a h = h
context-inversion (err e) text a h = cc

pub plan-ok :
    (resolver : EnvResolver) (req : ServiceCommandRequest) (service : ServiceConfig)
    (operation : Operation) (services : List (String × ServiceConfig))
    → req.config.service ≡ some services
    → lookup req.service_name services ≡ some service
    → service_operation req service resolver ≡ ok operation
    → plan req resolver ≡ ok (record { operations = operation ∷ [] })
unfolding plan
plan-ok resolver req service operation services given found made =
    >>=-ok _ _ services _ (ok_or-some req.config.service _ services given) (
      >>=-ok _ _ service _ (ok_or-some (lookup req.service_name services) _ service found)
        (>>=-ok _ _ operation _ made refl))

-- The operation can be made.
abbrev pub Made : Result Operation → Type 0
Made r = (operation : Operation) × (r ≡ ok operation)

-- One of the three managers, none of which is blank.
known-manager :
    (m : String) (is_unit is_compose is_machine : Bool) (a b c : Result (Unit {0})) (text : String)
    → (m == "launchd") ≡ is_unit
    → (m == "podman_compose") ≡ is_compose
    → (m == "podman_machine") ≡ is_machine
    → (if is_unit then a else if is_compose then b else if is_machine then c else bail text) ≡ ok tt
    → (trim m == "") ≡ false
unfolding trim
known-manager m true is_compose is_machine a b c text p q r h =
    subst (λ n. (trim n == "") ≡ false) (sym ((eq_iff m "launchd").0 p)) refl
known-manager m false true is_machine a b c text p q r h =
    subst (λ n. (trim n == "") ≡ false) (sym ((eq_iff m "podman_compose").0 q)) refl
known-manager m false false true a b c text p q r h =
    subst (λ n. (trim n == "") ≡ false) (sym ((eq_iff m "podman_machine").0 r)) refl
known-manager m false false false a b c text p q r h = cc

module _ (resolver : EnvResolver) (name : String) where
  explained :
      (field template : String) (r : Result String) (value : String)
      → or_explain r (placeholder_error name field template) ≡ ok value
      → r ≡ ok value
  unfolding placeholder_error
  explained field template (ok v) value h = h
  explained field template (err e) value h = no (missing_env_var_name e.message) _ _ h
    where
      no :
          (found : Option String) (one : String → String) (other : String)
          → (elim found [ some var ↦ bail (one var) | none ↦ bail other ]) ≡ ok value
          → err e ≡ ok value
      no none one other h = cc
      no (some var) one other h = cc

  resolved :
      (field template value : String)
      → resolve_placeholder_for_field resolver name field template ≡ ok value
      → expand_placeholders template resolver ≡ ok value
  unfolding resolve_placeholder_for_field
  resolved field template value h = explained field template _ value h

  check_field-inversion :
      (field : String) (given : Option String) (value : String)
      → check_field resolver name field given ≡ ok value
      → (template : String) × (given ≡ some template)
        × (expand_placeholders template resolver ≡ ok value)
  unfolding check_field
  check_field-inversion field given value h =
      let (template, p, q) = >>=-eq-ok _ _ h in
      (template, ok_or-inversion given _ template p, resolved field template value q)

  check_optional-inversion :
      (field : String) (given : Option String)
      → check_optional resolver name field given ≡ ok tt
      → (value : Option String) × (expand_option given resolver ≡ ok value)
  unfolding check_optional
  check_optional-inversion field none h = (none, refl)
  check_optional-inversion field (some template) h =
      let (value, p, q) = >>=-eq-ok _ _ h in (some value, rw (resolved field template value p) refl)

  passed-manager :
      (service : ServiceConfig)
      → check_service resolver name service ≡ ok tt
      → (trim service.manager == "") ≡ false
  unfolding check_service
  passed-manager service h = known-manager service.manager _ _ _ _ _ _ _ refl refl refl h

  module _ (service : ServiceConfig) (req : ServiceCommandRequest) where
    launchd-Made :
        (unit : String)
        → check_field resolver name "unit" service.unit ≡ ok unit
        → Made (launchd_operation req service resolver)
    unfolding launchd_operation
    launchd-Made unit h =
        let (template, given, expanded) = check_field-inversion "unit" service.unit unit h in
        (
          _,
          >>=-ok _ _ template _ (ok_or-some service.unit _ template given)
              (>>=-ok _ _ unit _ expanded refl),
        )

    machine-Made :
        (machine : String)
        → check_field resolver name "machine" service.machine ≡ ok machine
        → Made (podman_machine_operation req service resolver)
    unfolding podman_machine_operation
    machine-Made machine h =
        let (template, given, expanded) =
          check_field-inversion "machine" service.machine machine h in
        (
          _,
          >>=-ok _ _ template _ (ok_or-some service.machine _ template given)
              (>>=-ok _ _ machine _ expanded refl),
        )

    compose-Made :
        check_compose resolver name service ≡ ok tt
        → Made (podman_compose_operation req service resolver)
    unfolding podman_compose_operation check_compose
    compose-Made h =
        let (file, p, q) = >>=-eq-ok _ _ h in
        let (template, given, expanded) =
          check_field-inversion "compose_file" service.compose_file file p in
        let (done, p2, q2) = >>=-eq-ok _ _ q in
        let (over, over_expanded) =
          check_optional-inversion "compose_override" service.compose_override p2 in
        let (again, p3, q3) = >>=-eq-ok _ _ q2 in
        let (project, project_expanded) = check_optional-inversion "project" service.project p3 in
        (
          _,
          >>=-ok _ _ template _ (ok_or-some service.compose_file _ template given) (
              >>=-ok _ _ file _ expanded
                (>>=-ok _ _ over _ over_expanded (>>=-ok _ _ project _ project_expanded refl))),
        )

    by_manager :
        (is_unit is_compose is_machine : Bool) (a b c d : Result (Unit {0}))
        (x y z w : Result Operation)
        → (a ≡ ok tt → Made x)
        → (b ≡ ok tt → Made y)
        → (c ≡ ok tt → Made z)
        → (d ≡ ok tt → ⊥)
        → (if is_unit then a else if is_compose then b else if is_machine then c else d) ≡ ok tt
        → Made (if is_unit then x else if is_compose then y else if is_machine then z else w)
    by_manager true is_compose is_machine a b c d x y z w f g h never e = f e
    by_manager false true is_machine a b c d x y z w f g h never e = g e
    by_manager false false true a b c d x y z w f g h never e = h e
    by_manager false false false a b c d x y z w f g h never e = absurd (never e)

    manager-Made :
        check_service resolver name service ≡ ok tt → Made (manager_operation req service resolver)
    unfolding check_service manager_operation
    manager-Made h =
        by_manager (service.manager == "launchd") (service.manager == "podman_compose")
          (service.manager == "podman_machine") _ _ _ _ _ _ _ _
          (λ e. let (unit, p, q) = >>=-eq-ok _ _ e in launchd-Made unit p) compose-Made
          (λ e. let (machine, p, q) = >>=-eq-ok _ _ e in machine-Made machine p) (λ e. cc) h

    pub service-Made :
        check_service resolver name service ≡ ok tt → Made (service_operation req service resolver)
    unfolding service_operation
    service-Made h = rw (passed-manager service h) (manager-Made h)
