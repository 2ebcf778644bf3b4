-- ===== src/Core/Env/Template.antt =====
-- Templates as data: what a template prints as, what it stands for, and that `expand_placeholders`
-- (crates/infractl-core/src/env.rs) computes it.
use Prim.Native.String.{[], ◌∷◌}
use mathlib.Core.List.{List}
use text.Mathlib.TextLemmas.{nil-append, cons-append, append-nil, append_assoc, append-eq-nil_iff}
use btc_infra_tools.Base.{
  ◌+◌, ◌≡◌, ◌≢◌, refl, sym, ap, ◌∙◌, none, some, String, Char, code, eq_iff, arith, All,
}
use btc_infra_tools.Base.Text.{◌⧺◌, chars_count, split_once, one-append, two-append, three-append}
use btc_infra_tools.Base.Result.{Result, ok, err, ok_or, map_ok, ◌>>=◌}
use btc_infra_tools.Core.Env.{
  EnvResolver, expr_of, key_and_default, placeholder_value, expand_round, expand_from,
  expand_placeholders,
}

pub data Segment : Type 0 where
  literal : String → Segment
  escaped : Segment
  var : String → Segment
  var_or : String → String → Segment

abbrev pub render_segment : Segment → String
render_segment (literal t) = t
render_segment escaped = "\\${"
render_segment (var k) = "${" ⧺ k ⧺ "}"
render_segment (var_or k d) = "${" ⧺ k ⧺ ":-" ⧺ d ⧺ "}"

pub render : List Segment → String
render List.[] = ""
render (List.◌∷◌ g gs) = render_segment g ⧺ render gs

-- What a segment stands for; `input` is the whole template, which the error quotes.
abbrev pub segment_value : EnvResolver → String → Segment → Result String
segment_value resolve input (literal t) = ok t
segment_value resolve input escaped = ok "${"
segment_value resolve input (var k) =
    ok_or (resolve k) ("missing environment variable `" ⧺ k ⧺ "` for `" ⧺ input ⧺ "`")
segment_value resolve input (var_or k d) = ok (elim (resolve k) [ some v ↦ v | none ↦ d ])

pub template_value : EnvResolver → String → List Segment → Result String
template_value resolve input List.[] = ok ""
template_value resolve input (List.◌∷◌ g gs) = do
  v ← segment_value resolve input g
  rest ← template_value resolve input gs
  ok (v ⧺ rest)

-- No character is `\` or `$`.
abbrev pub IsPlain : String → Type 0
IsPlain [] = Unit
IsPlain (c ∷ s) = (code c ≢ b'\\') × (code c ≢ b'$') × IsPlain s

-- No character is `}`.
abbrev pub NoBrace : String → Type 0
NoBrace [] = Unit
NoBrace (c ∷ s) = (code c ≢ b'}') × NoBrace s

abbrev pub IsKey : String → Type 0
IsKey k = (k ≢ "") × NoBrace k × (split_once k ":-" ≡ none)

abbrev pub IsWellFormed : Segment → Type 0
IsWellFormed (literal t) = IsPlain t
IsWellFormed escaped = Unit
IsWellFormed (var k) = IsKey k
IsWellFormed (var_or k d) = IsKey k × NoBrace d

expr_of-append : (e s : String) → NoBrace e → expr_of (e ⧺ "}" ⧺ s) ≡ some e
unfolding expr_of
expr_of-append [] s h = rw (nil-append, one-append s "}")
expr_of-append (c ∷ e) s h = rw cons-append (ground (arith, expr_of-append e s h.1))

split_once-append :
    (k d : String) → split_once k ":-" ≡ none → split_once (k ⧺ ":-" ⧺ d) ":-" ≡ some (k, d)
unfolding split_once
split_once-append [] d h = rw (nil-append, two-append d ":" "-")
split_once-append (c ∷ []) d h = rw (cons-append, nil-append, two-append d ":" "-") (ground arith)
split_once-append (c ∷ c' ∷ k) d h =
    rw (cons-append, cons-append)
      (ground (arith, split_once-append (c' ∷ k) d, cons-append c' k (":-" ⧺ d)))

append-ne-nil : (k s : String) → k ≢ "" → k ⧺ s ≢ ""
append-ne-nil k s h p = h ((append-eq-nil_iff).0 p).0

NoBrace-append : (s t : String) → NoBrace s → NoBrace t → NoBrace (s ⧺ t)
NoBrace-append [] t h k = rw nil-append k
NoBrace-append (c ∷ s) t h k = rw cons-append (h.0, NoBrace-append s t h.1 k)

regroup : (k d s : String) → ("${" ⧺ k ⧺ ":-" ⧺ d ⧺ "}") ⧺ s ≡ "${" ⧺ (k ⧺ ":-" ⧺ d) ⧺ "}" ⧺ s
regroup k d s = simp append_assoc

map_ok-nil : (r : Result String) → map_ok (λ v. "" ⧺ v) r ≡ r
map_ok-nil (ok v) = rw nil-append
map_ok-nil (err e) = refl

bind-map_ok :
    (out : String) (r t : Result String) (f : String → Result String)
    → ((o : String) → f o ≡ map_ok (λ v. o ⧺ v) t)
    → (r >>= λ v. f (out ⧺ v)) ≡ map_ok (λ v. out ⧺ v) (r >>= λ v. t >>= λ rest. ok (v ⧺ rest))
bind-map_ok out (err e) t f h = refl
bind-map_ok out (ok v) (ok w) f h = rw (h (out ⧺ v), append_assoc out v w)
bind-map_ok out (ok v) (err e) f h = h (out ⧺ v)

module _ (resolve : EnvResolver) (input : String) where
  expand_from-skip :
      (p s out : String)
      → expand_from resolve input (p ⧺ s) (chars_count p) out ≡ expand_from resolve input s 0 out
  unfolding expand_from
  expand_from-skip [] s out = rw nil-append
  expand_from-skip (c ∷ p) s out = rw cons-append (expand_from-skip p s out)

  expand_round-plain :
      (c : Char) (s : String)
      → code c ≢ b'\\'
      → code c ≢ b'$'
      → expand_round resolve input c s ≡ ok (c ∷ "", 0)
  unfolding expand_round
  expand_round-plain c s p q = ground arith

  expand_from-plain :
      (t s out : String)
      → IsPlain t
      → expand_from resolve input (t ⧺ s) 0 out ≡ expand_from resolve input s 0 (out ⧺ t)
  unfolding expand_from
  expand_from-plain [] s out h = simp (nil-append, append-nil)
  expand_from-plain (c ∷ t) s out h =
      rw (cons-append, expand_from, expand_round-plain c (t ⧺ s) h.0 h.1)
        (expand_from-plain t s (out ⧺ c ∷ "") h.2
          ∙ ap (λ o. expand_from resolve input s 0 o)
              (append_assoc out (c ∷ "") t ∙ ap (λ u. out ⧺ u) (one-append t c)))

  chars_count-close : (e : String) → chars_count (e ⧺ "}") ≡ chars_count e + 1
  chars_count-close [] = refl
  chars_count-close (c ∷ e) = rw cons-append (omega (arith, chars_count-close e))

  expand_round-placeholder :
      (e s : String)
      → NoBrace e
      → expand_round resolve input "$" ("{" ∷ (e ⧺ "}" ⧺ s))
        ≡ (do value ← placeholder_value resolve input e; ok (value, chars_count e + 2))
  unfolding expand_round
  expand_round-placeholder e s h = rw (expr_of-append e s h, expand_round)

  expand_from-piece :
      (c : Char) (s out : String)
      → expand_from resolve input (c ∷ s) 0 out ≡ (
          expand_round resolve input c s >>= λ (piece, skip).
          expand_from resolve input s skip (out ⧺ piece))
  unfolding expand_from
  expand_from-piece c s out = ground arith

  expand_from-placeholder :
      (e s out : String)
      → NoBrace e
      → expand_from resolve input ("${" ⧺ e ⧺ "}" ⧺ s) 0 out
        ≡ (placeholder_value resolve input e >>= λ v. expand_from resolve input s 0 (out ⧺ v))
  expand_from-placeholder e s out h =
      rw (two-append (e ⧺ "}" ⧺ s) "$" "{", expand_from-piece, expand_round-placeholder e s h)
        (close (placeholder_value resolve input e))
    where
      skipped :
          (o : String)
          → expand_from resolve input ("{" ∷ (e ⧺ "}" ⧺ s)) (chars_count e + 2) o
            ≡ expand_from resolve input s 0 o
      skipped o =
          ap (λ t. expand_from resolve input t (chars_count e + 2) o)
            (sym (cons-append "{" (e ⧺ "}") s ∙ ap (λ t. "{" ∷ t) (append_assoc e "}" s)))
          ∙ ap (λ n. expand_from resolve input (("{" ∷ (e ⧺ "}")) ⧺ s) n o)
              (omega (arith, chars_count-close e))
          ∙ expand_from-skip ("{" ∷ (e ⧺ "}")) s o

      close :
          (r : Result String)
          → ((do v ← r; ok (v, chars_count e + 2)) >>= λ (piece, skip).
              expand_from resolve input ("{" ∷ (e ⧺ "}" ⧺ s)) skip (out ⧺ piece))
            ≡ (r >>= λ v. expand_from resolve input s 0 (out ⧺ v))
      close (ok v) = skipped (out ⧺ v)
      close (err e) = refl

  placeholder_value-var :
      (k : String)
      → IsKey k
      → placeholder_value resolve input k ≡ segment_value resolve input (var k)
  unfolding placeholder_value
  placeholder_value-var k h =
      rw (h.2, placeholder_value, key_and_default) (ground (arith, eq_iff k ""))

  placeholder_value-var_or :
      (k d : String)
      → IsKey k
      → placeholder_value resolve input (k ⧺ ":-" ⧺ d) ≡ segment_value resolve input (var_or k d)
  unfolding placeholder_value
  placeholder_value-var_or k d h =
      rw (split_once-append k d h.2, placeholder_value, key_and_default)
        (ground (arith, eq_iff k "", eq_iff (k ⧺ ":-" ⧺ d) "", append-ne-nil k (":-" ⧺ d) h.0))

  expand_from-segment :
      (g : Segment) (s out : String)
      → IsWellFormed g
      → expand_from resolve input (render_segment g ⧺ s) 0 out
        ≡ (segment_value resolve input g >>= λ v. expand_from resolve input s 0 (out ⧺ v))
  expand_from-segment (literal t) s out h = expand_from-plain t s out h
  expand_from-segment escaped s out h =
      rw (three-append s "\\" "$" "{") (unfold expand_from expand_round in refl)
  expand_from-segment (var k) s out h = rw (
    append_assoc "${" (k ⧺ "}") s,
    append_assoc k "}" s,
    expand_from-placeholder k s out h.1,
    placeholder_value-var k h,
  )
  expand_from-segment (var_or k d) s out h =
      let dashed : NoBrace (":-" ⧺ d) =
        rw (two-append d ":" "-") (omega arith, (omega arith, h.1)) in
      rw (
        regroup k d s,
        expand_from-placeholder (k ⧺ ":-" ⧺ d) s out (NoBrace-append k (":-" ⧺ d) h.0.1 dashed),
        placeholder_value-var_or k d h.0,
      )

  expand_from-render :
      (gs : List Segment) (out : String)
      → All IsWellFormed gs
      → expand_from resolve input (render gs) 0 out
        ≡ map_ok (λ v. out ⧺ v) (template_value resolve input gs)
  unfolding render template_value expand_from
  expand_from-render List.[] out h = rw (append-nil out) refl
  expand_from-render (List.◌∷◌ g gs) out h =
      expand_from-segment g (render gs) out h.0
      ∙ bind-map_ok out (segment_value resolve input g) (template_value resolve input gs)
          (λ o. expand_from resolve input (render gs) 0 o) (λ o. expand_from-render gs o h.1)

-- The text of a well-formed template expands to the value of the template, with the same error where
-- a variable without a default is not set. A template is well formed if its literal parts have no
-- `\` and no `$`, its keys are not empty and have no `}` and no `:-`, and its defaults have no `}`.
pub expand_placeholders-render :
    (resolve : EnvResolver) (gs : List Segment)
    → All IsWellFormed gs
    → expand_placeholders (render gs) resolve ≡ template_value resolve (render gs) gs
unfolding expand_placeholders
expand_placeholders-render resolve gs h =
    expand_from-render resolve (render gs) gs "" h
    ∙ map_ok-nil (template_value resolve (render gs) gs)
