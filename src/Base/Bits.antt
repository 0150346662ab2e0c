-- ===== src/Base/Bits.antt =====
-- `&` and `|` on bytes as arithmetic, by evaluation at every byte.
use profi_lua.Base.Tests.{◌==◌, ==_iff}
use Prim.Native.Nat.{ℕ, zero, suc, bit_and, bit_or, ◌<◌, ◌+◌, ◌*◌, ◌/◌, ◌%◌}
use mathlib.Core.Bool.{◌&&◌, Bool, true}
use mathlib.Core.Path.{refl, ◌≡◌}
use native.Mathlib.Omega.{arith}

-- The test holds at every number less than the bound.
unfoldable pub passes : (ℕ → Bool) → ℕ → Bool
passes test zero = true
passes test (suc bound) = passes test bound && test bound

pub passes-lt :
    (test : ℕ → Bool) (bound x : ℕ) → passes test bound ≡ true → x < bound → test x ≡ true
unfolding passes
passes-lt test zero x all less = absurd (omega arith)
passes-lt test (suc bound) x all less = ground (arith, passes-lt test bound x)

high_table : passes (λ x. bit_and x 0xf0 == x / 16 * 16) 256 ≡ true
unfolding passes
high_table = refl

low_table : passes (λ x. bit_and x 0x0f == x % 16) 256 ≡ true
unfolding passes
low_table = refl

seven_table : passes (λ x. bit_and x 0x7f == x % 128) 256 ≡ true
unfolding passes
seven_table = refl

join_table : passes (λ x. bit_or (x / 16 * 16) (x % 16) == x) 256 ≡ true
unfolding passes
join_table = refl

-- The high and the low four bits of a byte, and its low seven bits.
pub bit_and_high : (x : ℕ) → x < 256 → bit_and x 0xf0 ≡ x / 16 * 16
bit_and_high x h = (==_iff _ _).0 (passes-lt _ 256 x high_table h)

pub bit_and_low : (x : ℕ) → x < 256 → bit_and x 0x0f ≡ x % 16
bit_and_low x h = (==_iff _ _).0 (passes-lt _ 256 x low_table h)

pub bit_and_seven : (x : ℕ) → x < 256 → bit_and x 0x7f ≡ x % 128
bit_and_seven x h = (==_iff _ _).0 (passes-lt _ 256 x seven_table h)

-- A byte of its two halves.
pub bit_or_halves : (q r : ℕ) → q < 16 → r < 16 → bit_or (q * 16) r ≡ q * 16 + r
bit_or_halves q r hq hr =
    let x = q * 16 + r in
    let qe : x / 16 ≡ q = omega arith in
    let re : x % 16 ≡ r = omega arith in
    rw (qe, re) at
      ((==_iff (bit_or (x / 16 * 16) (x % 16)) x).0 (passes-lt _ 256 x join_table (omega arith)))
