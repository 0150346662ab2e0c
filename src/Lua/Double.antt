-- ===== src/Lua/Double.antt =====
-- Finite numbers of type `double`: `mantissa / 2 ^ scale`. Infinities and NaN are left out.
use profi_lua.Base.{ℕ, suc, ◌*◌, ◌/◌, ◌^◌, Bool, ℤ, pos, negsuc, pos_part, ltb, sub_ℕ}

pub record Number : Type 0 where
  pub mantissa : ℤ
  pub scale : ℕ

abbrev pub integer : ℤ → Number
integer z = record { mantissa = z; scale = 0 }

-- The cast of a `double` to an integer type drops the fraction.
abbrev truncate_by : ℕ → ℤ → ℤ
truncate_by d (pos n) = pos (n / d)
truncate_by d (negsuc n) = sub_ℕ 0 (suc n / d)

abbrev pub truncate : Number → ℤ
truncate n = truncate_by (2 ^ n.scale) n.mantissa

-- `n > a / 2`, for a number `a` of halves.
abbrev pub above_halves : ℕ → Number → Bool
above_halves a n = ltb (a * 2 ^ n.scale) (2 * pos_part n.mantissa)
