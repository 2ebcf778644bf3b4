-- ===== src/Core/Env/Tests.antt =====
-- Runs of `expand_placeholders` on the inputs of the tests in crates/infractl-core/src/env.rs, and the
-- theorems of the template module at an input.
use mathlib.Core.List.{List, [], ◌∷◌}
use btc_infra_tools.Base.{◌≡◌, refl, arith, eq_iff}
use btc_infra_tools.Base.Result.{ok, bail}
use btc_infra_tools.Base.Text.{split_once}
use btc_infra_tools.Core.Env.{EnvResolver, fixed_resolver, expand_placeholders}
use btc_infra_tools.Core.Env.Template.{
  Segment, literal, escaped, var, var_or, render, template_value, expand_placeholders-render,
}

abbrev foo_bar : EnvResolver
foo_bar = fixed_resolver (("FOO", "bar") ∷ [])

expands_variable : expand_placeholders "hello ${FOO} world" foo_bar ≡ ok "hello bar world"
unfolding expand_placeholders fixed_resolver
expands_variable = refl

reports_missing :
    expand_placeholders "${MISSING}" foo_bar
    ≡ bail "missing environment variable `MISSING` for `${MISSING}`"
unfolding expand_placeholders fixed_resolver
reports_missing = refl

falls_back : expand_placeholders "${MISSING:-fall:-back}" foo_bar ≡ ok "fall:-back"
unfolding expand_placeholders fixed_resolver
falls_back = refl

keeps_escaped : expand_placeholders "\\${NOT_EXPANDED}" foo_bar ≡ ok "${NOT_EXPANDED}"
unfolding expand_placeholders fixed_resolver
keeps_escaped = refl

reports_unterminated :
    expand_placeholders "a${FOO" foo_bar ≡ bail "unterminated placeholder in `a${FOO`"
unfolding expand_placeholders fixed_resolver
reports_unterminated = refl

reports_empty_key : expand_placeholders "${:-x}" foo_bar ≡ bail "empty placeholder key in `${:-x}`"
unfolding expand_placeholders fixed_resolver
reports_empty_key = refl

abbrev greeting : List Segment
greeting = literal "hi " ∷ var "FOO" ∷ escaped ∷ var_or "B" "c" ∷ []

expand_placeholders-render_example :
    expand_placeholders (render greeting) foo_bar
    ≡ template_value foo_bar (render greeting) greeting
unfolding split_once
expand_placeholders-render_example = expand_placeholders-render foo_bar greeting (
  omega arith,
  (
    (ground (arith, eq_iff "FOO" ""), omega arith, refl),
    (tt, (((ground (arith, eq_iff "B" ""), omega arith, refl), omega arith), tt)),
  ),
)
