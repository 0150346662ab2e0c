-- ===== src/Bit/Shift.antt =====
-- The arithmetic shift of `probit` on signed numbers.
use profi_lua.Base.{
  ℕ, ◌/◌, ◌^◌, ◌≤◌, ◌<◌, ◌≡◌, ap, true, false, ltb, ℤ, pos, negsuc, arith, Bool-cases, inl, inr, [],
  ◌∷◌, ok, bit_and, some,
}
use native.Mathlib.Nat.{div-le_self}
use profi_lua.Lua.{Lua, Value, int, Number, as_number}
use profi_lua.Lua.Stack.{one}
use profi_lua.Bit.Sum.{low_word, low_word-lt}
use profi_lua.Bit.Word.{signed, bsar, bnot, barg}
use profi_lua.Bit.Api.{bit_sh, bit_arshift}

-- The quotient by a positive number, rounded down.
abbrev pub floor_div : ℤ → ℕ → ℤ
floor_div (pos n) d = pos (n / d)
floor_div (negsuc n) d = negsuc (n / d)

bsar-floor_div : (b n : ℕ) → b < 2 ^ 32 → signed (bsar b n) ≡ floor_div (signed b) (2 ^ n)
bsar-floor_div b n word = elim (Bool-cases (ltb b 2147483648)) [
  | inl t ↦
      let small : ltb (b / 2 ^ n) 2147483648 ≡ true = ground (arith, div-le_self b (2 ^ n)) in
      rw (t, small)
  | inr f ↦
      let q = bnot b / 2 ^ n in
      let le : q ≤ bnot b = div-le_self (bnot b) (2 ^ n) in
      let large : ltb (bnot q) 2147483648 ≡ false = ground (arith, le) in
      rw (f, large) (ap negsuc (omega (arith, le)))
]

-- `bit_arshift` of two numbers divides the first, as a signed integer of 32 bits, by the power of
-- two that the low five bits of the second give, and rounds down.
pub bit_arshift-floor_div :
    {S : Type 0} (lua : Lua) (v w : Value) (x y : Number) (s : S)
    → as_number lua v ≡ some x
    → as_number lua w ≡ some y
    → bit_arshift lua (v ∷ w ∷ []) s
      ≡ ok (one (int (floor_div (signed (low_word x)) (2 ^ bit_and (low_word y) 31)))) s
unfolding bit_sh barg
bit_arshift-floor_div lua v w x y s first second =
    let n = bit_and (low_word y) 31 in
    rw (first, second)
      (ap (λ z. ok (one (int z)) s) (bsar-floor_div (low_word x) n (low_word-lt x)))
