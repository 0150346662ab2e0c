-- ===== src/Bit/Examples.antt =====
-- The library `probit` at concrete words.
use profi_lua.Base.{
  ◌+◌, ◌^◌, some, true, false, length, ℕ, ◌≡◌, refl, none, [], ◌∷◌, ok, pos, negsuc, arith, Returns,
}
use profi_lua.Lua.{Lua, Value, int, truncate, integer}
use profi_lua.Lua.Stack.{one}
use profi_lua.Bit.Sum.{low_word}
use profi_lua.Bit.Word.{barg}
use profi_lua.Bit.Print.{hex_string, bin_string, bit_tohex, fill}
use profi_lua.Bit.Api.{
  bit_op, bit_band, fold_args, bit_rotate, bit_rol, bit_ror, bit_tobit, bit_sh, bit_arshift,
}
use profi_lua.Bit.Shift.{bit_arshift-floor_div}
use profi_lua.Bit.Rotate.Back.{bit_rol-bit_ror}
use profi_lua.Bit.Range.Calls.{Operation, Yields, Rotates, IsInt, bit_call, bit_call-IsInt}
use profi_lua.Bit.Digits.{read, hex_string-read, bin_string-read}

abbrev lua : Lua
lua = record {
  str_to_number = λ _. none;
  number_to_str = λ _. [];
  number_to_integer = truncate;
  number_out_of_range = truncate;
}

-- "BEEF", and its reading.
hex_string-read_example :
    Returns {S = ℕ}
      (λ buf t. (length buf ≡ 4) × (read 16 true 0 buf ≡ some 0xBEEF) × (t ≡ 0))
      (hex_string 0xDEADBEEF (negsuc 3) 0)
hex_string-read_example = hex_string-read 0xDEADBEEF (negsuc 3) 0 (λ e. ground (arith, e))

bin_string-read_example :
    Returns {S = ℕ}
      (λ buf t. (length buf ≡ 4) × (read 2 false 0 buf ≡ some 5) × (t ≡ 0))
      (bin_string 0xF5 (pos 4) 0)
bin_string-read_example = bin_string-read 0xF5 4 0

tohex_beef :
    bit_tohex {S = ℕ} lua (int (pos 0xDEADBEEF) ∷ int (negsuc 3) ∷ []) 0
    ≡ ok (one (Value.string (66 ∷ 69 ∷ 69 ∷ 70 ∷ []))) 0
unfolding bit_tohex barg low_word hex_string fill
tohex_beef = refl

band_three :
    bit_band {S = ℕ} lua (int (negsuc 0) ∷ int (pos 0xFF) ∷ int (pos 0x3C) ∷ []) 0
    ≡ ok (one (int (pos 0x3C))) 0
unfolding bit_op barg low_word fold_args
band_three = refl

rol_four :
    bit_rol {S = ℕ} lua (int (pos 0x12345678) ∷ int (pos 4) ∷ []) 0
    ≡ ok (one (int (pos 0x23456781))) 0
unfolding bit_rotate barg low_word
rol_four = refl

arshift_two :
    bit_arshift {S = ℕ} lua (int (negsuc 7) ∷ int (pos 2) ∷ []) 0 ≡ ok (one (int (negsuc 1))) 0
unfolding bit_sh barg low_word
arshift_two = refl

-- -9 by 4 is -3.
bit_arshift-floor_div_example :
    bit_arshift {S = ℕ} lua (int (negsuc 8) ∷ int (pos 34) ∷ []) 0 ≡ ok (one (int (negsuc 2))) 0
unfolding low_word
bit_arshift-floor_div_example =
    bit_arshift-floor_div lua (int (negsuc 8)) (int (pos 34)) (integer (negsuc 8))
      (integer (pos 34)) 0 refl refl

-- 0x87654321 by 36, which counts as 4.
bit_rol-bit_ror_example :
    (left : Value) × (right : Value) × (bit_rol {S = ℕ} lua
        (int (pos 0x87654321) ∷ int (pos 36) ∷ [])
        0
      ≡ ok (one left) 0)
    × (bit_ror {S = ℕ} lua (left ∷ int (pos 36) ∷ []) 0
        ≡ bit_tobit lua (int (pos 0x87654321) ∷ []) 0)
    × (bit_ror {S = ℕ} lua (int (pos 0x87654321) ∷ int (pos 36) ∷ []) 0 ≡ ok (one right) 0)
    × (bit_rol {S = ℕ} lua (right ∷ int (pos 36) ∷ []) 0
        ≡ bit_tobit lua (int (pos 0x87654321) ∷ []) 0)
unfolding low_word
bit_rol-bit_ror_example =
    bit_rol-bit_ror lua (int (pos 0x87654321)) (int (pos 36)) (integer (pos 0x87654321))
      (integer (pos 36)) 0 refl refl refl

-- A rotation of -9 by 4.
bit_call-IsInt_example :
    Yields
      (Rotates {S = ℕ} lua Operation.bit_rol (int (negsuc 8) ∷ int (pos 4) ∷ []) 0)
      IsInt
      0
      (bit_call {S = ℕ} lua Operation.bit_rol (int (negsuc 8) ∷ int (pos 4) ∷ []) 0)
bit_call-IsInt_example = bit_call-IsInt lua Operation.bit_rol (int (negsuc 8) ∷ int (pos 4) ∷ []) 0

-- Beyond 2^53 the sum is even, and its half is the mantissa.
low_word_large : low_word (integer (pos (2 ^ 53 + 6))) ≡ 3
unfolding low_word
low_word_large = refl

-- The sum is -5, with the mantissa 5 * 2^50.
low_word_negative : low_word (integer (negsuc (2 ^ 52 + 2 ^ 51 + 4))) ≡ 0
unfolding low_word
low_word_negative = refl

-- 2.5 is rounded to the even integer.
low_word_half : low_word (record { mantissa = pos 5; scale = 1 }) ≡ 2
unfolding low_word
low_word_half = refl
