-- ===== src/Base/Splits.antt =====
-- How the functions on texts read a text that was put together.
use Prim.Native.String.{[], ◌∷◌}
use text.Mathlib.TextLemmas.{nil-append, cons-append}
use text.Mathlib.TextEquality.{Char-path}
use btc_infra_tools.Base.{
  ◌≡◌, refl, ◌∙◌, sym, inl, inr, Option, Bool-cases, Option-cases, none, some, String, Char, code,
  true, false, arith, eqb,
}
use btc_infra_tools.Base.Text.{◌⧺◌, strip_prefix, split_once}

-- The character does not stand in the text.
abbrev pub Free : Char → String → Type 0
Free c [] = Unit {0}
Free c (d ∷ s) = (eqb (code d) (code c) ≡ false) × Free c s

eqb_self : (c : Char) → eqb (code c) (code c) ≡ true
eqb_self c = ground arith

pub strip_prefix-append : (p s : String) → strip_prefix (p ⧺ s) p ≡ some s
unfolding strip_prefix
strip_prefix-append [] s = rw nil-append refl
strip_prefix-append (c ∷ p) s = rw (cons-append, eqb_self c) (strip_prefix-append p s)

strip_prefix-same :
    (c : Char) (sep rest : String) → strip_prefix (c ∷ (sep ⧺ rest)) (c ∷ sep) ≡ some rest
unfolding strip_prefix
strip_prefix-same c sep rest = rw (eqb_self c) (strip_prefix-append sep rest)

strip_prefix-other :
    (c d : Char) (s sep : String)
    → eqb (code d) (code c) ≡ false
    → strip_prefix (d ∷ s) (c ∷ sep) ≡ none
unfolding strip_prefix
strip_prefix-other c d s sep h = rw h refl

pub split_once-append :
    (a : String) (c : Char) (sep rest : String)
    → Free c a
    → split_once (a ⧺ ((c ∷ sep) ⧺ rest)) (c ∷ sep) ≡ some (a, rest)
unfolding split_once
split_once-append [] c sep rest free =
    rw (nil-append, cons-append, split_once, strip_prefix-same c sep rest) refl
split_once-append (d ∷ a) c sep rest free =
    rw
      (
        cons-append,
        split_once,
        strip_prefix-other c d (a ⧺ ((c ∷ sep) ⧺ rest)) sep free.0,
        split_once-append a c sep rest free.1,
      )
      refl

same_char : (c d : Char) → eqb (code c) (code d) ≡ true → c ≡ d
same_char c d h = Char-path c d (ground (arith, h))

pub strip_prefix-eq-some : (s p rest : String) → strip_prefix s p ≡ some rest → s ≡ p ⧺ rest
unfolding strip_prefix
strip_prefix-eq-some s [] rest h = let e : s ≡ rest = cc in e ∙ sym (nil-append rest)
strip_prefix-eq-some [] (d ∷ p) rest h = cc
strip_prefix-eq-some (c ∷ s) (d ∷ p) rest h = elim (Bool-cases (eqb (code c) (code d))) [
  | inl e ↦
      let tail = strip_prefix-eq-some s p rest (rw (e, strip_prefix) at h) in
      let same = same_char c d e in rw (same, tail) (sym (cons-append d p rest))
  | inr e ↦ absurd (ground (arith, h, e))
]

some-pair :
    {A B : Type 0} {a c : A} {b d : B}
    → ◌≡◌ {A = Option (A × B)} (some (a, b)) (some (c, d))
    → (a ≡ c) × (b ≡ d)
some-pair h = (cc, cc)

at_front :
    (s sep rest before after : String)
    → strip_prefix s sep ≡ some rest
    → ◌≡◌ {A = Option (String × String)} (some ("", rest)) (some (before, after))
    → s ≡ before ⧺ (sep ⧺ after)
at_front s sep rest before after p h =
    let (e, q) = some-pair h in rw (← e, ← q, nil-append) (strip_prefix-eq-some s sep rest p)

-- What is split at a separator is the two texts with the separator between them.
pub split_once-eq-some :
    (s sep before after : String)
    → split_once s sep ≡ some (before, after)
    → s ≡ before ⧺ (sep ⧺ after)
unfolding split_once
split_once-eq-some [] sep before after h = elim (Option-cases (strip_prefix "" sep)) [
  | inl p ↦ absurd (ground (arith, h, p))
  | inr (rest, p) ↦ at_front "" sep rest before after p (rw (p, split_once) at h)
]
split_once-eq-some (c ∷ s) sep before after h = elim (Option-cases (strip_prefix (c ∷ s) sep)) [
  | inl p ↦ elim (Option-cases (split_once s sep)) [
    | inl q ↦ absurd (ground (arith, h, p, q))
    | inr ((a, b), q) ↦
        let (e, f) = some-pair (rw (p, q, split_once) at h) in
        rw (← e, ← f, split_once-eq-some s sep a b q) (sym (cons-append c a (sep ⧺ b)))
  ]
  | inr (rest, p) ↦ at_front (c ∷ s) sep rest before after p (rw (p, split_once) at h)
]
