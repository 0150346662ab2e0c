-- ===== src/Bit/Range.antt =====
-- The operations on words stay words.
pub mod Calls
use profi_lua.Base.{
  ℕ, zero, suc, ◌-◌, ◌/◌, ◌%◌, ◌^◌, ◌<◌, bit_and, bit_or, bit_xor, arith, Bool-cases, inl, inr, ltb,
  ℤ, pos, negsuc,
}
use Prim.Native.Nat.{max, differ, digits, bit_or-bitwise, bit_xor-bitwise}
use native.Mathlib.Nat.{div-le_self, two-pow-succ}
use profi_lua.Bit.Word.{signed, bshl, bshr, bsar, brol, bror, bswap}
use profi_lua.Bit.Rotate.{bit_and-le}

module _ (f : ℕ → ℕ → ℕ) (digit : (x y : ℕ) → x < 2 → y < 2 → f x y < 2) where
  digits-lt : (fuel k a b : ℕ) → a < 2 ^ k → b < 2 ^ k → digits (λ y. y) f fuel a b < 2 ^ k
  digits-lt zero k a b small small' = small'
  digits-lt (suc fuel) k zero b small small' = small'
  digits-lt (suc fuel) zero (suc a) b small small' = absurd (omega (arith, small))
  digits-lt (suc fuel) (suc k) (suc a) b small small' =
      let rest =
        digits-lt fuel k (suc a / 2) (b / 2) (omega (arith, small, two-pow-succ k))
          (omega (arith, small', two-pow-succ k)) in
      let last = digit (suc a % 2) (b % 2) (omega arith) (omega arith) in
      omega (arith, rest, last, two-pow-succ k)

differ-lt : (x y : ℕ) → x < 2 → y < 2 → differ x y < 2
differ-lt zero y sx sy = sy
differ-lt (suc x) zero sx sy = sx
differ-lt (suc zero) (suc y) sx sy = omega (arith, sy)
differ-lt (suc (suc x)) (suc y) sx sy = absurd (omega (arith, sx))

bit_or-lt : (a b : ℕ) → a < 2 ^ 32 → b < 2 ^ 32 → bit_or a b < 2 ^ 32
bit_or-lt a b small small' =
    simp bit_or-bitwise (digits-lt max (λ x y sx sy. omega arith) a 32 a b small small')

bit_xor-lt : (a b : ℕ) → a < 2 ^ 32 → b < 2 ^ 32 → bit_xor a b < 2 ^ 32
bit_xor-lt a b small small' =
    simp bit_xor-bitwise (digits-lt differ differ-lt a 32 a b small small')

-- From -2 ^ 31 to 2 ^ 31 - 1.
abbrev pub InRange : ℤ → Type 0
InRange (pos n) = n < 2 ^ 31
InRange (negsuc n) = n < 2 ^ 31

pub signed-InRange : (b : ℕ) → b < 2 ^ 32 → InRange (signed b)
signed-InRange b word = elim (Bool-cases (ltb b 2147483648)) [
  | inl t ↦ rw t (ground arith)
  | inr f ↦ rw f (ground arith)
]

-- A word goes to a word.
abbrev pub Keeps : (ℕ → ℕ → ℕ) → Type 0
Keeps op = (a b : ℕ) → a < 2 ^ 32 → b < 2 ^ 32 → op a b < 2 ^ 32

-- The same of a shift, by less than 32.
abbrev pub Shifts : (ℕ → ℕ → ℕ) → Type 0
Shifts fn = (b n : ℕ) → b < 2 ^ 32 → n < 32 → fn b n < 2 ^ 32

pub bit_and-Keeps : Keeps bit_and
bit_and-Keeps a b small small' = omega (arith, bit_and-le a b, small')

pub bit_or-Keeps : Keeps bit_or
bit_or-Keeps = bit_or-lt

pub bit_xor-Keeps : Keeps bit_xor
bit_xor-Keeps = bit_xor-lt

pub bshl-Shifts : Shifts bshl
bshl-Shifts b n word few = omega arith

pub bshr-Shifts : Shifts bshr
bshr-Shifts b n word few = omega (arith, div-le_self b (2 ^ n), word)

pub bsar-Shifts : Shifts bsar
bsar-Shifts b n word few = elim (Bool-cases (ltb b 2147483648)) [
  | inl t ↦ rw t (omega (arith, div-le_self b (2 ^ n), word))
  | inr f ↦ rw f (omega arith)
]

pub brol-Shifts : Shifts brol
brol-Shifts b n word few =
    bit_or-lt (bshl b n) (bshr b (32 - n)) (omega arith)
      (omega (arith, div-le_self b (2 ^ (32 - n)), word))

pub bror-Shifts : Shifts bror
bror-Shifts b n word few =
    bit_or-lt (bshl b (32 - n)) (bshr b n) (omega arith)
      (omega (arith, div-le_self b (2 ^ n), word))

pub bswap-lt : (b : ℕ) → b < 2 ^ 32 → bswap b < 2 ^ 32
bswap-lt b word =
    bit_or-lt (bit_or (bit_or (bshr b 24) (bit_and (bshr b 8) 0xff00)) (bshl (bit_and b 0xff00) 8))
      (bshl b 24)
      (bit_or-lt (bit_or (bshr b 24) (bit_and (bshr b 8) 0xff00)) (bshl (bit_and b 0xff00) 8)
        (bit_or-lt (bshr b 24) (bit_and (bshr b 8) 0xff00) (omega arith)
          (omega (arith, bit_and-le (bshr b 8) 0xff00)))
        (omega arith))
      (omega arith)
