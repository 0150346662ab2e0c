-- ===== src/Bit/Sum.antt =====
-- `bn.n += 6755399441055744.0; b = (UBits)bn.b;` in `barg`: the low 32 bits of a `double` after the
-- addition of 2^52 + 2^51.
use profi_lua.Base.{
  ℕ, zero, suc, ◌+◌, ◌-◌, ◌*◌, ◌/◌, ◌%◌, ◌^◌, ◌<◌, ◌≡◌, ap, ◌∙◌, true, false, ltb, if◌then◌else◌, ℤ,
  pos, negsuc, arith,
}
use profi_lua.Lua.{Number, integer}

-- `n / d`, rounded to the nearest integer, and to the even one of two.
abbrev round_half_even : (n d : ℕ) → ℕ
round_half_even n d =
    if ltb (2 * (n % d)) d
    then n / d
    else if ltb d (2 * (n % d))
    then n / d + 1
    else n / d + n / d % 2

-- The magnitude of the sum, times `d`; `m` is the number times `d`.
abbrev sum_by : ℕ → ℤ → ℕ
sum_by d (pos m) = (2 ^ 52 + 2 ^ 51) * d + m
sum_by d (negsuc m) = ((2 ^ 52 + 2 ^ 51) * d - suc m) + (suc m - (2 ^ 52 + 2 ^ 51) * d)

-- The magnitude `n / d` is divided or multiplied by a power of two, so that its mantissa, an integer
-- from 2^52 to 2^53, stands before the point.
unfoldable halved : (fuel n d : ℕ) → ℕ
halved zero n d = d
halved (suc k) n d = elim (ltb n (2 ^ 53 * d)) [ true ↦ d | false ↦ halved k n (2 * d) ]

unfoldable doubled : (fuel n d : ℕ) → ℕ
doubled zero n d = n
doubled (suc k) n d = elim (ltb n (2 ^ 52 * d)) [ true ↦ doubled k (2 * n) d | false ↦ n ]

-- The mantissa of the sum, rounded to 53 bits. The sum of two numbers of type `double` is less than
-- 2^1025, and an integer if it is less than 2^51, so that 1024 rounds are enough.
unfoldable mantissa_of : (n d : ℕ) → ℕ
unfolding halved doubled
mantissa_of n d = let e = halved 1024 n d in round_half_even (doubled 1024 n e) e

-- The low 32 bits stand in the mantissa, of which the 53rd bit is not stored.
unfoldable pub low_word : Number → ℕ
unfolding mantissa_of
low_word x = mantissa_of (sum_by (2 ^ x.scale) x.mantissa) (2 ^ x.scale) % 2 ^ 32

pub low_word-lt : (x : Number) → low_word x < 2 ^ 32
unfolding low_word
low_word-lt x = omega arith

-- No round is needed for a magnitude from 2^52 to 2^53.
halved-enough : (k n d : ℕ) → ltb n (2 ^ 53 * d) ≡ true → halved (suc k) n d ≡ d
unfolding halved
halved-enough k n d below = rw (below, halved)

doubled-enough : (k n d : ℕ) → ltb n (2 ^ 52 * d) ≡ false → doubled (suc k) n d ≡ n
unfolding doubled
doubled-enough k n d above = rw (above, doubled)

round-one : (n : ℕ) → round_half_even n 1 ≡ n
round-one n = let none : n % 1 ≡ 0 = omega arith in rw none (omega arith)

mantissa_of-one :
    (n : ℕ) → ltb n (2 ^ 53 * 1) ≡ true → ltb n (2 ^ 52 * 1) ≡ false → mantissa_of n 1 ≡ n
unfolding mantissa_of
mantissa_of-one n below above =
    ap (λ e. round_half_even (doubled 1024 n e) e) (halved-enough 1023 n 1 below)
    ∙ ap (λ m. round_half_even m 1) (doubled-enough 1023 n 1 above)
    ∙ round-one n

-- A word that goes to Lua as a signed number comes back as the same word.
pub low_word-pos : (b : ℕ) → b < 2 ^ 32 → low_word (integer (pos b)) ≡ b
unfolding low_word
low_word-pos b word =
    let same : mantissa_of (sum_by 1 (pos b)) 1 ≡ sum_by 1 (pos b) =
      mantissa_of-one _ (ground arith) (ground arith) in
    rw same (omega arith)

pub low_word-negsuc : (b : ℕ) → b < 2 ^ 32 → low_word (integer (negsuc b)) ≡ 2 ^ 32 - 1 - b
unfolding low_word
low_word-negsuc b word =
    let same : mantissa_of (sum_by 1 (negsuc b)) 1 ≡ sum_by 1 (negsuc b) =
      mantissa_of-one _ (ground arith) (ground arith) in
    rw same (omega arith)
