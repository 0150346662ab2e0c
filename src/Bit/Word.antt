-- ===== src/Bit/Word.antt =====
-- The 32-bit words of src/profibit.c: how a number becomes one and back, and the operations.
use profi_lua.Base.{
  ℕ, ◌-◌, ◌*◌, ◌/◌, ◌%◌, ◌^◌, bit_and, bit_or, Option, none, some, List, ltb, if◌then◌else◌, ℤ, pos,
  negsuc, get_elem?, Cmd, pure, raise,
}
use profi_lua.Lua.{Lua, Value, Number}
use profi_lua.Lua.Stack.{arg_number}
use profi_lua.Bit.Sum.{low_word}

-- `(SBits)b`
abbrev pub signed : ℕ → ℤ
signed b = if ltb b (2 ^ 31) then pos b else negsuc (2 ^ 32 - 1 - b)

abbrev pub word_of_arg : {S : Type 0} → Option Number → Cmd S ℕ
word_of_arg none = raise
word_of_arg (some n) = pure (low_word n)

module _ {S : Type 0} (lua : Lua) where
  -- What is no number raises an error.
  unfoldable pub barg : List Value → (idx : ℕ) → Cmd S ℕ
  barg args idx = word_of_arg (arg_number lua (get_elem? args (idx - 1)))

-- `~b`
abbrev pub bnot : ℕ → ℕ
bnot b = 2 ^ 32 - 1 - b

abbrev pub bshl : (b n : ℕ) → ℕ
bshl b n = b * 2 ^ n % 2 ^ 32

abbrev pub bshr : (b n : ℕ) → ℕ
bshr b n = b / 2 ^ n

-- The sign bit is shifted in.
abbrev pub bsar : (b n : ℕ) → ℕ
bsar b n = if ltb b (2 ^ 31) then b / 2 ^ n else bnot (bnot b / 2 ^ n)

abbrev pub brol : (b n : ℕ) → ℕ
brol b n = bit_or (bshl b n) (bshr b (32 - n))

abbrev pub bror : (b n : ℕ) → ℕ
bror b n = bit_or (bshl b (32 - n)) (bshr b n)

abbrev pub bswap : ℕ → ℕ
bswap b =
    bit_or (bit_or (bit_or (bshr b 24) (bit_and (bshr b 8) 0xff00)) (bshl (bit_and b 0xff00) 8))
      (bshl b 24)
