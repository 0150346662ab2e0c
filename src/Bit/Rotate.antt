-- ===== src/Bit/Rotate.antt =====
-- Rotations of a 32-bit word.
pub mod Back
use profi_lua.Base.{
  ℕ, zero, suc, ◌+◌, ◌-◌, ◌*◌, ◌/◌, ◌%◌, ◌^◌, ◌≤◌, ◌<◌, ◌≡◌, ◌∙◌, refl, sym, ap, subst, Bool, true,
  ◌&&◌, ltb, ◌==◌, bit_or, bit_and, arith,
}
use profi_lua.Base.Bits.{passes, passes-lt}
use Prim.Native.Nat.{max, digits, min, bit_or-bitwise, bit_and-bitwise}
use native.Mathlib.Nat.{
  mod-lt, mod-eq_of_lt, div-add-mod', div-lt_iff_lt-mul, mul-add-div_right, mul-add-mod_self_right,
  div-eq_of_lt, two-pow-succ, mul-add, add-mul, mul-le-mul_right, mul_comm, mul_assoc,
}
use profi_lua.Bit.Word.{brol, bror, bshl, bshr}

-- `digits` on numbers that have no digit in common: the second ends below 2 ^ k, where the first
-- begins.
digits-apart :
    (fuel k x q c : ℕ) → x ≤ fuel → x ≡ q * 2 ^ k → c < 2 ^ k → digits (λ y. y) max fuel x c ≡ x + c
digits-apart zero k x q c enough high low = omega arith
digits-apart (suc fuel) k zero q c enough high low = omega arith
digits-apart (suc fuel) zero (suc x) q c enough high low = omega (
  arith,
  digits-apart fuel 0 (suc x / 2) (suc x / 2) (c / 2) (omega arith) (omega arith) (omega arith),
)
digits-apart (suc fuel) (suc k) (suc x) q c enough high low =
    let twice : q * 2 ^ suc k ≡ q * 2 ^ k + q * 2 ^ k =
      ap (λ p. q * p) (two-pow-succ k) ∙ mul-add q (2 ^ k) (2 ^ k) in
    let rest =
      digits-apart fuel k (suc x / 2) q (c / 2) (omega arith) (omega (arith, high, twice))
        (omega (arith, low, two-pow-succ k)) in
    omega (arith, rest, high, twice)

bit_or-apart : (k q c : ℕ) → c < 2 ^ k → bit_or (q * 2 ^ k) c ≡ q * 2 ^ k + c
bit_or-apart k q c low =
    simp bit_or-bitwise (digits-apart (q * 2 ^ k) k (q * 2 ^ k) q c (omega arith) refl low)

-- A word of `p * q` values, cut in two: its lower part, less than `q`, moves up.
abbrev turned : (p q b : ℕ) → ℕ
turned p q b = b % q * p + b / q

module _ (p q : ℕ) (p_pos : 0 < p) (q_pos : 0 < q) (b : ℕ) (word : b < p * q) where
  upper-lt : b / q < p
  upper-lt = (div-lt_iff_lt-mul q_pos).1 word

  turned-lt : turned p q b < q * p
  turned-lt =
      let le : (b % q + 1) * p ≤ q * p = mul-le-mul_right p (omega (arith, mod-lt b q_pos)) in
      omega (arith, le, add-mul (b % q) 1 p, upper-lt)

  turned-turned : turned q p (turned p q b) ≡ b
  turned-turned =
      let low : turned p q b % p ≡ b / q =
        mul-add-mod_self_right (b % q) p (b / q) ∙ mod-eq_of_lt upper-lt in
      let high : turned p q b / p ≡ b % q =
        mul-add-div_right p_pos (b % q) (b / q)
        ∙ ap (λ x. b % q + x) (div-eq_of_lt upper-lt)
        ∙ (omega arith) in
      rw (low, high) (div-add-mod' b q)

  shifted : b * p % (p * q) ≡ b % q * p
  shifted =
      let split : b * p ≡ b / q * (p * q) + b % q * p =
        ap (λ x. x * p) (sym (div-add-mod' b q))
        ∙ add-mul (b / q * q) (b % q) p
        ∙ ap (λ x. x + b % q * p) (mul_assoc (b / q) q p ∙ ap (λ x. b / q * x) (mul_comm q p)) in
      ap (λ x. x % (p * q)) split
      ∙ mul-add-mod_self_right (b / q) (p * q) (b % q * p)
      ∙ mod-eq_of_lt (omega (arith, turned-lt, mul_comm p q))

power_test : ℕ → Bool
power_test n = (2 ^ n * 2 ^ (32 - n) == 2 ^ 32) && (ltb 0 (2 ^ n) && (32 - (32 - n) == n))

powers_table : passes power_test 33 ≡ true
unfolding passes power_test
powers_table = refl

module _ (n : ℕ) (few : n ≤ 32) where
  powers : (2 ^ n * 2 ^ (32 - n) ≡ 2 ^ 32) × (0 < 2 ^ n) × (32 - (32 - n) ≡ n)
  unfolding power_test
  powers =
      let holds = passes-lt power_test 33 n powers_table (omega arith) in
      (ground (arith, holds), ground (arith, holds), ground (arith, holds))

brol-turned : (n b : ℕ) → n ≤ 32 → b < 2 ^ 32 → brol b n ≡ turned (2 ^ n) (2 ^ (32 - n)) b
brol-turned n b few word =
    let (all, some_low, back) = powers n few in
    let (all', some_high, back') = powers (32 - n) (omega arith) in
    let word' : b < 2 ^ n * 2 ^ (32 - n) = rw all word in
    ap (λ m. bit_or (b * 2 ^ n % m) (b / 2 ^ (32 - n))) (sym all)
    ∙ ap (λ x. bit_or x (b / 2 ^ (32 - n)))
        (shifted (2 ^ n) (2 ^ (32 - n)) some_low some_high b word')
    ∙ bit_or-apart n (b % 2 ^ (32 - n)) (b / 2 ^ (32 - n))
        (upper-lt (2 ^ n) (2 ^ (32 - n)) some_low some_high b word')

pub bror-brol : (n b : ℕ) → n ≤ 32 → bror b n ≡ brol b (32 - n)
bror-brol n b few =
    let (all, some_low, back) = powers n few in
    ap (λ m. bit_or (bshl b (32 - n)) (bshr b m)) (sym back)

-- A word that is rotated stays a word, and turns back by the rotation by the rest.
pub brol-back :
    (n b : ℕ) → n ≤ 32 → b < 2 ^ 32 → (brol b n < 2 ^ 32) × (brol (brol b n) (32 - n) ≡ b)
brol-back n b few word =
    let (all, some_low, back) = powers n few in
    let (all', some_high, back') = powers (32 - n) (omega arith) in
    let word' : b < 2 ^ n * 2 ^ (32 - n) = rw all word in
    let is_turned = brol-turned n b few word in
    let small : brol b n < 2 ^ 32 = rw is_turned (
      subst (λ m. turned (2 ^ n) (2 ^ (32 - n)) b < m) (mul_comm (2 ^ (32 - n)) (2 ^ n) ∙ all)
        (turned-lt (2 ^ n) (2 ^ (32 - n)) some_low some_high b word')) in
    (
      small,
      brol-turned (32 - n) (brol b n) (omega arith) small
          ∙ ap (λ m. turned (2 ^ (32 - n)) (2 ^ m) (brol b n)) back
          ∙ ap (turned (2 ^ (32 - n)) (2 ^ n)) is_turned
          ∙ turned-turned (2 ^ n) (2 ^ (32 - n)) some_low some_high b word',
    )

-- A mask bounds what passes it.
digits-le : (fuel a b : ℕ) → digits (λ _. 0) min fuel a b ≤ b
digits-le zero a b = omega arith
digits-le (suc fuel) zero b = omega arith
digits-le (suc fuel) (suc a) b = omega (arith, digits-le fuel (suc a / 2) (b / 2))

pub bit_and-le : (a b : ℕ) → bit_and a b ≤ b
bit_and-le a b = simp bit_and-bitwise (digits-le a a b)
