-- ===== src/Bit/Digits.antt =====
-- `bit_tohex` and `bit_tobin` against a reader of digits.
use profi_lua.Base.{
  Bool, not, ◌&&◌, leb, Option, none, some, ok, length, ℕ, zero, suc, ◌+◌, ◌-◌, ◌*◌, ◌/◌, ◌%◌, ◌^◌,
  ◌≤◌, ◌<◌, ◌≡◌, refl, sym, ap, ◌∙◌, bit_and, true, false, List, [], ◌∷◌, ltb, ◌==◌, if◌then◌else◌,
  ℤ, pos, negsuc, arith, min, Returns, returns, ◌≢◌,
}
use Prim.Native.Nat.{bit_and-bitwise}
use native.Mathlib.Nat.{
  mul-add-mod_self_left, mod-eq_of_lt, mod-lt, div-add-mod, mul-le-mul_right, one-le-pow, pow-zero,
  pow-suc, mod-one,
}
use profi_lua.Base.Bits.{passes, passes-lt}
use profi_lua.Base.{==_iff}
use profi_lua.Bit.Print.{
  fill, hex_string, bin_string, char_at, lower_digits, upper_digits, binary_digits,
}

-- The value of a digit of a base up to 16, with the letters of one case only. No other character has
-- a value.
abbrev pub any_digit : (upper : Bool) → ℕ → Option ℕ
any_digit upper c =
    if leb 48 c && ltb c 58
    then some (c - 48)
    else if leb 65 c && ltb c 71 && upper
    then some (c - 55)
    else if leb 97 c && ltb c 103 && not upper
    then some (c - 87)
    else none

abbrev below : (base : ℕ) → Option ℕ → Option ℕ
below base none = none
below base (some d) = if ltb d base then some d else none

abbrev pub digit_value : (base : ℕ) (upper : Bool) → ℕ → Option ℕ
digit_value base upper c = below base (any_digit upper c)

abbrev with_digit : Option ℕ → (ℕ → Option ℕ) → Option ℕ
with_digit none rest = none
with_digit (some d) rest = rest d

-- The value of a string of digits after the value `v`; `none` if a character is no digit.
abbrev pub read : (base : ℕ) (upper : Bool) (v : ℕ) → List ℕ → Option ℕ
read base upper v [] = some v
read base upper v (c ∷ cs) =
    with_digit (digit_value base upper c) λ d. read base upper (v * base + d) cs

-- A negative count asks for upper case.
abbrev pub is_negative : ℤ → Bool
is_negative (pos n) = false
is_negative (negsuc n) = true

abbrev pub magnitude : ℤ → ℕ
magnitude (pos n) = n
magnitude (negsuc n) = suc n

and_15 : (b : ℕ) → bit_and 15 b ≡ b % 16
and_15 b = bit_and-bitwise 15 b ∙ omega arith

and_1 : (b : ℕ) → bit_and 1 b ≡ b % 2
and_1 b = bit_and-bitwise 1 b ∙ omega arith

regroup : (n p q m l : ℕ) → n * (p * q + m) + l ≡ p * n * q + (m * n + l)
regroup n p q m l = grind arith

-- The lowest digit is split off.
low_split : (base b p : ℕ) → 0 < base → 0 < p → b / base % p * base + b % base ≡ b % (p * base)
low_split base b p some_base some_p =
    let c = b / base in
    let r = c % p * base + b % base in
    let whole : b ≡ p * base * (c / p) + r =
      sym (div-add-mod b base)
      ∙ ap (λ x. base * x + b % base) (sym (div-add-mod c p))
      ∙ regroup base p (c / p) (c % p) (b % base) in
    let c_lt : c % p < p = mod-lt c some_p in
    let b_lt : b % base < base = mod-lt b some_base in
    let fits : suc (c % p) * base ≤ p * base = mul-le-mul_right base c_lt in
    let small : r < p * base = grind (arith, fits, b_lt) in
    sym (
      ap (λ x. x % (p * base)) whole
      ∙ mul-add-mod_self_left (p * base) (c / p) r
      ∙ mod-eq_of_lt small)

is_value : Option ℕ → ℕ → Bool
is_value none d = false
is_value (some v) d = v == d

is_value-some : (o : Option ℕ) (d : ℕ) → is_value o d ≡ true → o ≡ some d
unfolding is_value
is_value-some none d e = ground (arith, e)
is_value-some (some v) d e = ap some ((==_iff v d).0 e)

lower_table : passes (λ d. is_value (digit_value 16 false (char_at lower_digits d)) d) 16 ≡ true
unfolding passes is_value
lower_table = refl

upper_table : passes (λ d. is_value (digit_value 16 true (char_at upper_digits d)) d) 16 ≡ true
unfolding passes is_value
upper_table = refl

binary_table : passes (λ d. is_value (digit_value 2 false (char_at binary_digits d)) d) 2 ≡ true
unfolding passes is_value
binary_table = refl

fill-length :
    (chars : List ℕ) (mask base count b : ℕ) (buf : List ℕ)
    → length (fill chars mask base count b buf) ≡ count + length buf
unfolding fill
fill-length chars mask base zero b buf = omega arith
fill-length chars mask base (suc count) b buf =
    omega
      (arith, fill-length chars mask base count (b / base) (char_at chars (bit_and mask b) ∷ buf))

module _ (chars : List ℕ) (mask base : ℕ) (upper : Bool) (some_base : 0 < base)
    (digit : (b : ℕ)
      → digit_value base upper (char_at chars (bit_and mask b)) ≡ some (b % base)) where
  fill-read :
      (count b : ℕ) (buf : List ℕ)
      → read base upper 0 (fill chars mask base count b buf)
        ≡ read base upper (b % base ^ count) buf
  unfolding fill
  fill-read zero b buf = ap (λ v. read base upper v buf) (rw (pow-zero base) (sym (mod-one b)))
  fill-read (suc count) b buf =
      fill-read count (b / base) (char_at chars (bit_and mask b) ∷ buf)
      ∙ ap (λ o. with_digit o λ d. read base upper (b / base % base ^ count * base + d) buf)
          (digit b)
      ∙ ap (λ v. read base upper v buf)
          (low_split base b (base ^ count) some_base (one-le-pow count base some_base)
            ∙ ap (λ x. b % x) (sym (pow-suc base count)))

  -- The string has the number of digits asked for, and they read as the low part of the word.
  filled :
      {S : Type 0} (count b : ℕ) (s : S)
      → Returns
          (λ buf t.
            (length buf ≡ count) × (read base upper 0 buf ≡ some (b % base ^ count)) × (t ≡ s))
          (ok (fill chars mask base count b []) s)
  filled count b s =
      returns (fill-length chars mask base count b [] ∙ omega arith, fill-read count b [], refl)

lower_digit : (b : ℕ) → digit_value 16 false (char_at lower_digits (bit_and 15 b)) ≡ some (b % 16)
lower_digit b =
    rw (and_15 b) (is_value-some _ _ (passes-lt _ 16 (b % 16) lower_table (omega arith)))

upper_digit : (b : ℕ) → digit_value 16 true (char_at upper_digits (bit_and 15 b)) ≡ some (b % 16)
upper_digit b =
    rw (and_15 b) (is_value-some _ _ (passes-lt _ 16 (b % 16) upper_table (omega arith)))

binary_digit : (b : ℕ) → digit_value 2 false (char_at binary_digits (bit_and 1 b)) ≡ some (b % 2)
binary_digit b = rw (and_1 b) (is_value-some _ _ (passes-lt _ 2 (b % 2) binary_table (omega arith)))

-- `bit_tohex` gives as many digits as the magnitude of the count says, but at most eight, in lower
-- case, or in upper case for a negative count. They are hexadecimal digits, leading zeros
-- included, that read as the word modulo 16 to their number. Only the least integer as a count is
-- left out.
pub hex_string-read :
    {S : Type 0} (b : ℕ) (n : ℤ) (s : S)
    → n ≢ negsuc 2147483647
    → Returns
        (λ buf t.
          (length buf ≡ min (magnitude n) 8)
          × (read 16 (is_negative n) 0 buf ≡ some (b % 16 ^ min (magnitude n) 8))
          × (t ≡ s))
        (hex_string b n s)
unfolding hex_string
hex_string-read b (pos n) s ne =
    filled lower_digits 15 16 false (omega arith) lower_digit (min n 8) b s
hex_string-read b (negsuc n) s ne =
    let e : (n == 2147483647) ≡ false = ground (arith, ne) in
    rw e (filled upper_digits 15 16 true (omega arith) upper_digit (min (suc n) 8) b s)

-- `bit_tobin` with a count that is not negative gives that number of digits, but at most 32. Each
-- is 0 or 1, leading zeros included, and they read as the word modulo 2 to their number.
pub bin_string-read :
    {S : Type 0} (b n : ℕ) (s : S)
    → Returns
        (λ buf t.
          (length buf ≡ min n 32) × (read 2 false 0 buf ≡ some (b % 2 ^ min n 32)) × (t ≡ s))
        (bin_string b (pos n) s)
unfolding bin_string
bin_string-read b n s = filled binary_digits 1 2 false (omega arith) binary_digit (min n 32) b s
