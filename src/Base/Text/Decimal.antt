-- ===== src/Base/Text/Decimal.antt =====
-- The decimal digits that a number is shown by.
use Prim.Native.String.{[], ◌∷◌}
use btc_infra_tools.Base.{
  ℕ, zero, suc, ◌/◌, ◌%◌, ◌+◌, ◌<◌, ◌≤◌, ◌≡◌, refl, Bool, true, false, String, Char, code, arith,
  ◌&&◌, eqb, leb, if◌then◌else◌, ap, subst, ◌∙◌, ◌*◌, Bool-cases, inl, inr,
}
use btc_infra_tools.Base.Text.{show_ℕ, show_digits, digit_char}

abbrev pub is_digit : Char → Bool
is_digit c = leb 48 (code c) && leb (code c) 57

-- A text of digits, and one that is not empty.
abbrev pub Digits : String → Type 0
Digits [] = Unit {0}
Digits (c ∷ s) = (is_digit c ≡ true) × Digits s

abbrev pub Number : String → Type 0
Number [] = ⊥
Number (c ∷ s) = Digits (c ∷ s)

code-digit_char : (d : ℕ) → d < 10 → code (digit_char d) ≡ d + 48
unfolding digit_char
code-digit_char zero h = refl
code-digit_char (suc zero) h = refl
code-digit_char (suc (suc zero)) h = refl
code-digit_char (suc (suc (suc zero))) h = refl
code-digit_char (suc (suc (suc (suc zero)))) h = refl
code-digit_char (suc (suc (suc (suc (suc zero))))) h = refl
code-digit_char (suc (suc (suc (suc (suc (suc zero)))))) h = refl
code-digit_char (suc (suc (suc (suc (suc (suc (suc zero))))))) h = refl
code-digit_char (suc (suc (suc (suc (suc (suc (suc (suc zero)))))))) h = refl
code-digit_char (suc (suc (suc (suc (suc (suc (suc (suc (suc zero))))))))) h = refl
code-digit_char (suc (suc (suc (suc (suc (suc (suc (suc (suc (suc d)))))))))) h =
    absurd (omega (arith, h))

digit_char-digit : (n : ℕ) → is_digit (digit_char (n % 10)) ≡ true
digit_char-digit n =
    let h : n % 10 < 10 = omega arith in rw (code-digit_char (n % 10) h) (ground arith)

if-Number : (b : Bool) (s t : String) → Number s → Number t → Number (if b then s else t)
if-Number true s t hs ht = hs
if-Number false s t hs ht = ht

show_digits-Number :
    (fuel n : ℕ) (rest : String) → Digits rest → Number (show_digits (suc fuel) n rest)
unfolding show_digits
show_digits-Number zero n rest h =
    if-Number (eqb (n / 10) 0) _ _ (digit_char-digit n, h) (digit_char-digit n, h)
show_digits-Number (suc fuel) n rest h =
    if-Number (eqb (n / 10) 0) _ _ (digit_char-digit n, h)
      (show_digits-Number fuel (n / 10) _ (digit_char-digit n, h))

pub show_ℕ-Number : (n : ℕ) → Number (show_ℕ n)
unfolding show_ℕ
show_ℕ-Number n = show_digits-Number n n "" tt

-- A reader of digits from the left gets the number back that is shown, where it takes the digit of
-- each number up to `most` after its other digits.
module _ {ℓ} {A : Type ℓ} (read : String → ℕ → A) (most : ℕ)
    (step : (d n : ℕ) (c : Char) (rest : String)
      → d < 10
      → code c ≡ d + 48
      → n * 10 + d ≤ most
      → read (c ∷ rest) n ≡ read rest (n * 10 + d)) where
  read-digit :
      (n : ℕ) (rest : String) → n ≤ most → read (digit_char (n % 10) ∷ rest) (n / 10) ≡ read rest n
  read-digit n rest h =
      let whole : n / 10 * 10 + n % 10 ≡ n = omega arith in
      let small : n % 10 < 10 = omega arith in
      step (n % 10) (n / 10) _ rest small (code-digit_char (n % 10) small) (omega (arith, whole))
      ∙ ap (read rest) whole

  read-show_digits :
      (fuel n : ℕ) (rest : String)
      → n < fuel
      → n ≤ most
      → read (show_digits fuel n rest) 0 ≡ read rest n
  unfolding show_digits
  read-show_digits zero n rest h small = absurd (omega (arith, h))
  read-show_digits (suc fuel) n rest h small = elim (Bool-cases (eqb (n / 10) 0)) [
    | inl e ↦
        let zero_rest : n / 10 ≡ 0 = ground arith in
        rw e (
          subst (λ k. read (digit_char (n % 10) ∷ rest) k ≡ read rest n) zero_rest
            (read-digit n rest small))
    | inr e ↦
        let more : (n / 10 ≡ 0) → ⊥ = ground arith in
        rw e
          (read-show_digits fuel (n / 10) _ (omega arith) (omega arith) ∙ read-digit n rest small)
  ]

  pub read-show_ℕ : (n : ℕ) → n ≤ most → read (show_ℕ n) 0 ≡ read "" n
  unfolding show_ℕ
  read-show_ℕ n small = read-show_digits (suc n) n "" (omega arith) small
