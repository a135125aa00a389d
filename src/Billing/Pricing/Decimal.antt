-- ===== src/Billing/Pricing/Decimal.antt =====
-- What the pricing engine relies on of decimal.Round(4).
use cloudmini_reseller.Common.{ℕ, ◌≡◌}
use cloudmini_reseller.Common.Int.{ℤ, pos, ◌*ℤ◌, ◌≤ℤ◌}

-- 10^-4 in units of 10^-10.
abbrev pub scale : ℕ
scale = 1_000_000

abbrev pub fine : ℤ → ℤ
fine a = a *ℤ pos scale

-- Rounding to four decimals does not change the order, and leaves a number with four decimals
-- alone.
pub record Rounding : Type 0 where
  pub round4 : ℤ → ℤ
  pub monotone : (a b : ℤ) → a ≤ℤ b → round4 a ≤ℤ round4 b
  pub exact : (a : ℤ) → round4 (fine a) ≡ a
