-- ===== src/Base/Text.antt =====
-- The functions of Rust's `str` that the source calls, over the characters of a text.
pub mod Decimal
use Prim.Native.String
use Prim.Native.String.{[], ◌∷◌}
use mathlib.Core.Option
use text.Mathlib.TextLemmas.{nil-append, cons-append}
use btc_infra_tools.Base.{
  ℕ, zero, suc, ◌/◌, ◌%◌, ◌≡◌, refl, Bool, false, ◌&&◌, ◌||◌, Option, none, some, String, Char,
  code, eqb, leb, if◌then◌else◌,
}

-- Concatenation, `push_str` and `format!`.
infixr 65 ◌⧺◌
abbrev pub ◌⧺◌ : String → String → String
s ⧺ t = String.◌++◌ s t

-- The number of characters.
abbrev pub chars_count : String → ℕ
chars_count [] = 0
chars_count (c ∷ s) = suc (chars_count s)

unfoldable pub strip_prefix : String → String → Option String
strip_prefix s [] = some s
strip_prefix [] (p ∷ ps) = none
strip_prefix (c ∷ s) (p ∷ ps) = if eqb (code c) (code p) then strip_prefix s ps else none

-- The texts before and after the first place where the separator stands.
unfoldable pub split_once : String → String → Option (String × String)
unfolding strip_prefix
split_once [] sep = Option.map (λ rest. ("", rest)) (strip_prefix "" sep)
split_once (c ∷ s) sep = elim (strip_prefix (c ∷ s) sep) [
  | some rest ↦ some ("", rest)
  | none ↦ Option.map (λ (a, b). (c ∷ a, b)) (split_once s sep)
]

-- `char::is_whitespace`: the characters with the Unicode property White_Space.
unfoldable pub is_whitespace : Char → Bool
is_whitespace c =
    let n = code c in
    (leb 9 n && leb n 13)
    || eqb n 32
    || eqb n 0x85
    || eqb n 0xa0
    || eqb n 0x1680
    || (leb 0x2000 n && leb n 0x200a)
    || eqb n 0x2028
    || eqb n 0x2029
    || eqb n 0x202f
    || eqb n 0x205f
    || eqb n 0x3000

unfoldable pub trim_start : String → String
unfolding is_whitespace
trim_start [] = ""
trim_start (c ∷ s) = if is_whitespace c then trim_start s else c ∷ s

drop_blank : Char → String → String
unfolding is_whitespace
drop_blank c [] = if is_whitespace c then "" else c ∷ ""
drop_blank c (d ∷ s) = c ∷ d ∷ s

unfoldable pub trim_end : String → String
unfolding drop_blank
trim_end [] = ""
trim_end (c ∷ s) = drop_blank c (trim_end s)

unfoldable pub trim : String → String
unfolding trim_start trim_end
trim s = trim_end (trim_start s)

-- A text of one, two or three characters in front of another: at a literal these are used by name.
module _ (s : String) where
  pub one-append : (c : Char) → (c ∷ "") ⧺ s ≡ c ∷ s
  one-append c = simp (cons-append, nil-append)

  pub two-append : (c d : Char) → (c ∷ d ∷ "") ⧺ s ≡ c ∷ d ∷ s
  two-append c d = simp (cons-append, nil-append)

  pub three-append : (c d e : Char) → (c ∷ d ∷ e ∷ "") ⧺ s ≡ c ∷ d ∷ e ∷ s
  three-append c d e = simp (cons-append, nil-append)

digit_char : ℕ → Char
digit_char d =
    if eqb d 0
    then "0"
    else if eqb d 1
    then "1"
    else if eqb d 2
    then "2"
    else if eqb d 3
    then "3"
    else if eqb d 4
    then "4"
    else if eqb d 5
    then "5"
    else if eqb d 6
    then "6"
    else if eqb d 7
    then "7"
    else if eqb d 8
    then "8"
    else "9"

-- The decimal digits of `n` in front of `rest`; each round divides `n` by ten.
show_digits : ℕ → ℕ → String → String
unfolding digit_char
show_digits zero n rest = rest
show_digits (suc fuel) n rest =
    let more = show_digits fuel (n / 10) (digit_char (n % 10) ∷ rest) in
    if eqb (n / 10) 0 then digit_char (n % 10) ∷ rest else more

-- `to_string` of an unsigned number. It has at most `n + 1` digits.
unfoldable pub show_ℕ : ℕ → String
unfolding show_digits
show_ℕ n = show_digits (suc n) n ""

show_ℕ_number : show_ℕ 40960 ≡ "40960"
unfolding show_ℕ
show_ℕ_number = refl

-- `ends_with('\n')`
abbrev pub ends_with_newline : String → Bool
ends_with_newline [] = false
ends_with_newline (c ∷ []) = eqb (code c) 10
ends_with_newline (c ∷ d ∷ s) = ends_with_newline (d ∷ s)
