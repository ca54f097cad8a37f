-- ===== src/Fx/Rounding.antt =====
-- The rounding of `convert_amount` of app/domain/fx/conversion.py.
use instant_payment_ledger_a.Prelude.{ℕ, ◌+◌, ◌*◌, ◌/◌, ◌≤◌, ◌<◌, ◌≡◌, refl, ap, pos, *ℤ_pos, arith}
use instant_payment_ledger_a.Fx.{rate_unit, quantize, convert_amount}

-- `q` cents are nearest to `n` parts of a cent, and of two such the greater.
abbrev pub IsNearest : ℕ → ℕ → Type 0
IsNearest n q = (q * rate_unit ≤ n + 50_000_000) × (n < q * rate_unit + 50_000_000)

quantize-IsNearest : (n : ℕ) → IsNearest n ((n + 50_000_000) / rate_unit)
quantize-IsNearest n = (omega arith, omega arith)

-- For an amount and a rate that are not negative, the result is the nearest number of cents to the
-- exact product, and the greater of two that are as near.
pub convert_amount-IsNearest :
    (amount rate : ℕ)
    → (cents : ℕ) × (convert_amount (pos amount) (pos rate) ≡ pos cents)
      × IsNearest (amount * rate) cents
unfolding convert_amount quantize
convert_amount-IsNearest amount rate = (
  (amount * rate + 50_000_000) / rate_unit,
  rw (*ℤ_pos amount rate) refl,
  quantize-IsNearest (amount * rate),
)

-- A whole number of cents is not changed.
pub quantize-multiple : (n : ℕ) → quantize (pos (n * rate_unit)) ≡ pos n
unfolding quantize
quantize-multiple n = ap pos (omega arith)
