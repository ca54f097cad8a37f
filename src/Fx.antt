-- ===== src/Fx.antt =====
-- app/domain/fx/conversion.py. Cents times a rate in 10^-8 is a product in 10^-10 of the unit; the
-- context's 28 digits, which hold every product below 10^18 of the unit, are not modelled.
pub mod Rounding
use instant_payment_ledger_a.Prelude.{ℕ, zero, suc, ◌+◌, ◌/◌, ◌-◌, ◌*◌, ℤ, pos, negsuc, sub_ℕ, ◌*ℤ◌}

-- One cent in the product's unit.
abbrev pub rate_unit : ℕ
rate_unit = 100_000_000

-- `quantize(CENTS, rounding=ROUND_HALF_UP)`: to the nearest cent, a half away from zero.
unfoldable pub quantize : ℤ → ℤ
quantize (pos n) = pos ((n + 50_000_000) / rate_unit)
quantize (negsuc n) = sub_ℕ 0 ((suc n + 50_000_000) / rate_unit)

unfoldable pub convert_amount : ℤ → ℤ → ℤ
unfolding quantize
convert_amount amount rate = quantize (amount *ℤ rate)
