-- ===== src/Base/Int.antt =====
-- Rust's `i32` and `i64` values as integers, under the library's names.
use btc_infra_tools.Base.Text.{◌⧺◌, show_ℕ}
use btc_infra_tools.Base.{ℕ, suc, String, ◌≡◌, ◌↔◌, Bool, true, false, arith, eqb}

-- `negsuc n` is -(n + 1).
pub data ℤ : Type 0 where
  pos : ℕ → ℤ
  negsuc : ℕ → ℤ

abbrev pub eq_ℤ : ℤ → ℤ → Bool
eq_ℤ (pos m) (pos n) = eqb m n
eq_ℤ (negsuc m) (negsuc n) = eqb m n
eq_ℤ _ _ = false

pub eq_ℤ_iff : (a b : ℤ) → (eq_ℤ a b ≡ true) ↔ (a ≡ b)
eq_ℤ_iff (pos m) (pos n) = ground arith
eq_ℤ_iff (negsuc m) (negsuc n) = ground arith
eq_ℤ_iff _ _ = ground arith

-- `to_string` of a signed number.
unfoldable pub show_ℤ : ℤ → String
show_ℤ (pos n) = show_ℕ n
show_ℤ (negsuc n) = "-" ⧺ show_ℕ (suc n)
