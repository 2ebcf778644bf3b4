-- ===== src/Core/Env.antt =====
-- Placeholder expansion (crates/infractl-core/src/env.rs).
pub mod Template
mod Tests
use Prim.Native.String.{[], ◌∷◌}
use mathlib.Core.Option
use btc_infra_tools.Base.{
  ℕ, zero, suc, ◌+◌, ◌≡◌, refl, Option, none, some, List, String, Char, code, true, false, ◌==◌,
  eqb, lookup, or_else, is_some, if◌then◌else◌,
}
use btc_infra_tools.Base.Text.{◌⧺◌, chars_count, strip_prefix, split_once}
use btc_infra_tools.Base.Result.{Result, ok, err, bail, ok_or, ◌>>=◌}

-- The trait has one method, `resolve`.
abbrev pub EnvResolver : Type 0
EnvResolver = String → Option String

-- `FixedEnvResolver`.
unfoldable pub fixed_resolver : List (String × String) → EnvResolver
fixed_resolver values key = lookup key values

-- The inner `while`: the characters before the first `}`, or none where the text has no `}`.
unfoldable pub expr_of : String → Option String
expr_of [] = none
expr_of (c ∷ s) = if eqb (code c) b'}' then some "" else Option.map (λ e. c ∷ e) (expr_of s)

-- The key and the default of an expression.
unfoldable pub key_and_default : String → String × Option String
unfolding split_once
key_and_default expr = elim (split_once expr ":-") [
  | some (k, d) ↦ (k, some d)
  | none ↦ (expr, none)
]

-- The value of the placeholder with the expression `expr`.
unfoldable pub placeholder_value : EnvResolver → String → String → Result String
unfolding key_and_default
placeholder_value resolve input expr =
    let (key, default) = key_and_default expr in
    if expr == ""
    then bail ("empty placeholder in `" ⧺ input ⧺ "`")
    else if key == ""
    then bail ("empty placeholder key in `" ⧺ input ⧺ "`")
    else ok_or (or_else (resolve key) default)
        ("missing environment variable `" ⧺ key ⧺ "` for `" ⧺ input ⧺ "`")

-- One round of the outer `while`, at the character `c` that the text `s` follows: what it pushes on
-- `out`, and how many characters of `s` it consumes too (`i` grows by one more than that).
unfoldable pub expand_round : EnvResolver → String → Char → String → Result (String × ℕ)
unfolding strip_prefix expr_of placeholder_value
expand_round resolve input c s =
    if is_some (strip_prefix (c ∷ s) "\\${")
    then ok ("${", 2)
    else elim (strip_prefix (c ∷ s) "${") [
      | none ↦ ok (c ∷ "", 0)
      | some tail ↦ do
        expr ← ok_or (expr_of tail) ("unterminated placeholder in `" ⧺ input ⧺ "`")
        value ← placeholder_value resolve input expr
        ok (value, chars_count expr + 2)
    ]

-- The outer `while` over the characters that are left; `skip` of them are consumed already.
unfoldable pub expand_from : EnvResolver → String → String → ℕ → String → Result String
expand_from resolve input [] skip out = ok out
expand_from resolve input (c ∷ s) (suc skip) out = expand_from resolve input s skip out
expand_from resolve input (c ∷ s) zero out = elim (expand_round resolve input c s) [
  | err e ↦ err e
  | ok (piece, skip) ↦ expand_from resolve input s skip (out ⧺ piece)
]

unfoldable pub expand_placeholders : String → EnvResolver → Result String
unfolding expand_from expand_round
expand_placeholders input resolve = expand_from resolve input input 0 ""
